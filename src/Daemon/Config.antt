-- ===== src/Daemon/Config.antt =====
-- include/nexusd/daemon/config.hpp: the configuration and the command line of the daemon.
use nexus_d_pub_sub.Prelude.{
  ℕ, Bool, true, false, List, [], ◌∷◌, ite, Option, none, some, Text, codes, text_eq,
}
use nexus_d_pub_sub.Prelude.Int.{ℤ, pos}
use nexus_d_pub_sub.Prelude.Numbers.{Result, ok, ◌>>=◌, stoi, stoll, stoull, to_u16, to_u32}

pub record Config : Type 0 where
  pub cluster_id : Text
  pub mcast_addr : Text
  pub mcast_port : ℕ
  pub mesh_port : ℕ
  pub app_port : ℕ
  pub bind_addr : Text
  pub log_level : Text
  pub help : Bool
  pub message_buffer_size : ℕ
  pub max_buffer_memory_bytes : ℕ
  pub paused_subscription_ttl_ms : ℤ
  pub subscriber_queue_limit : ℕ
  pub backpressure_policy : Text
  pub block_timeout_ms : ℤ
  pub default_message_ttl_ms : ℤ
  pub ttl_reaper_interval_ms : ℤ

abbrev pub defaults : Config
defaults = record {
  cluster_id = codes "default";
  mcast_addr = codes "239.255.42.1";
  mcast_port = 5670;
  mesh_port = 5671;
  app_port = 5672;
  bind_addr = codes "0.0.0.0";
  log_level = codes "INFO";
  help = false;
  message_buffer_size = 5;
  max_buffer_memory_bytes = 52428800;
  paused_subscription_ttl_ms = pos 300000;
  subscriber_queue_limit = 10000;
  backpressure_policy = codes "drop-oldest";
  block_timeout_ms = pos 5000;
  default_message_ttl_ms = pos 0;
  ttl_reaper_interval_ms = pos 1000;
}

-- The options that take a value.
pub data ConfigOption : Type 0 where
  cluster mcast_addr mcast_port mesh_port app_port bind log_level : ConfigOption
  message_buffer_size max_buffer_memory paused_subscription_ttl : ConfigOption
  subscriber_queue_limit backpressure_policy block_timeout_ms : ConfigOption
  default_message_ttl ttl_reaper_interval : ConfigOption

-- Which branch of the chain of `strcmp` an argument takes; `none` is the last `else`.
unfoldable pub option_of : Text → Option ConfigOption
option_of arg = ite (text_eq arg (codes "--cluster")) (some cluster) (
    ite (text_eq arg (codes "--mcast-addr")) (some mcast_addr) (
      ite (text_eq arg (codes "--mcast-port")) (some mcast_port) (
        ite (text_eq arg (codes "--mesh-port")) (some mesh_port) (
          ite (text_eq arg (codes "--app-port")) (some app_port) (
            ite (text_eq arg (codes "--bind")) (some bind) (
              ite (text_eq arg (codes "--log-level")) (some log_level) (
                ite (text_eq arg (codes "--message-buffer-size")) (some message_buffer_size) (
                  ite (text_eq arg (codes "--max-buffer-memory")) (some max_buffer_memory) (
                    ite (text_eq arg (codes "--paused-subscription-ttl"))
                      (some paused_subscription_ttl)
                      (ite (text_eq arg (codes "--subscriber-queue-limit"))
                        (some subscriber_queue_limit)
                        (ite (text_eq arg (codes "--backpressure-policy"))
                          (some backpressure_policy)
                          (ite (text_eq arg (codes "--block-timeout-ms")) (some block_timeout_ms) (
                            ite (text_eq arg (codes "--default-message-ttl"))
                              (some default_message_ttl)
                              (ite (text_eq arg (codes "--ttl-reaper-interval"))
                                (some ttl_reaper_interval) none))))))))))))))

-- The branch's assignment.
unfoldable pub set_option : ConfigOption → Text → Config → Result Config
set_option cluster value c = ok (record c { cluster_id = value })
set_option mcast_addr value c = ok (record c { mcast_addr = value })
set_option mcast_port value c = stoi value >>= λ n. ok (record c { mcast_port = to_u16 n })
set_option mesh_port value c = stoi value >>= λ n. ok (record c { mesh_port = to_u16 n })
set_option app_port value c = stoi value >>= λ n. ok (record c { app_port = to_u16 n })
set_option bind value c = ok (record c { bind_addr = value })
set_option log_level value c = ok (record c { log_level = value })
set_option message_buffer_size value c =
    stoull value >>= λ n. ok (record c { message_buffer_size = to_u32 n })
set_option max_buffer_memory value c =
    stoull value >>= λ n. ok (record c { max_buffer_memory_bytes = n })
set_option paused_subscription_ttl value c =
    stoll value >>= λ n. ok (record c { paused_subscription_ttl_ms = n })
set_option subscriber_queue_limit value c =
    stoull value >>= λ n. ok (record c { subscriber_queue_limit = n })
set_option backpressure_policy value c = ok (record c { backpressure_policy = value })
set_option block_timeout_ms value c = stoll value >>= λ n. ok (record c { block_timeout_ms = n })
set_option default_message_ttl value c =
    stoll value >>= λ n. ok (record c { default_message_ttl_ms = n })
set_option ttl_reaper_interval value c =
    stoll value >>= λ n. ok (record c { ttl_reaper_interval_ms = n })

abbrev with_help : Config → Config
with_help c = record c { help = true }

unfoldable pub is_help : Text → Bool
is_help arg = ite (text_eq arg (codes "--help")) true (ite (text_eq arg (codes "-h")) true false)

-- The loop over the arguments behind the program's name.
unfoldable pub parse_loop : List Text → Config → Result Config
parse_loop [] c = ok c
parse_loop (arg ∷ []) c = ok (with_help c)
parse_loop (arg ∷ value ∷ rest) c = elim (is_help arg) [
  | true ↦ ok (with_help c)
  | false ↦ elim (option_of arg) [
    | none ↦ ok (with_help c)
    | some o ↦ set_option o value c >>= parse_loop rest
  ]
]

-- `parseArgs`; `argv[0]` is the program's name.
unfoldable pub parse_args : List Text → Result Config
unfolding parse_loop
parse_args [] = ok defaults
parse_args (program ∷ args) = parse_loop args defaults

-- `parseLogLevel`
unfoldable pub parse_log_level : Text → ℕ
parse_log_level level = ite (text_eq level (codes "TRACE")) 0 (
    ite (text_eq level (codes "DEBUG")) 1 (
      ite (text_eq level (codes "INFO")) 2 (
        ite (text_eq level (codes "WARN")) 3
          (ite (text_eq level (codes "ERROR")) 4 (ite (text_eq level (codes "FATAL")) 5 2)))))
