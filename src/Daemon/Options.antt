-- ===== src/Daemon/Options.antt =====
-- The command line of include/nexusd/daemon/config.hpp as a list of assignments, and a
-- configuration written as arguments and read back.
use nexus_d_pub_sub.Daemon.Config.{
  Config, defaults, ConfigOption, option_of, set_option, is_help, parse_loop, parse_args,
}
use nexus_d_pub_sub.Prelude.{
  ℕ, ◌^◌, ◌<◌, false, List, [], ◌∷◌, some, Text, codes, text_eq, ◌≡◌, refl, arith, to_string,
  ℕ_discrete, ◌∙◌,
}
use nexus_d_pub_sub.Prelude.Int.{pos}
use nexus_d_pub_sub.Prelude.Numbers.{
  Result, ok, throw, ◌>>=◌, stoi, stoull, to_u16, to_u32, to_string_ℤ, Fits64, stoi-to_string,
  stoull-to_string, stoll-to_string_ℤ,
}

-- How an option is spelt.
abbrev pub option_name : ConfigOption → Text
option_name ConfigOption.cluster = codes "--cluster"
option_name ConfigOption.mcast_addr = codes "--mcast-addr"
option_name ConfigOption.mcast_port = codes "--mcast-port"
option_name ConfigOption.mesh_port = codes "--mesh-port"
option_name ConfigOption.app_port = codes "--app-port"
option_name ConfigOption.bind = codes "--bind"
option_name ConfigOption.log_level = codes "--log-level"
option_name ConfigOption.message_buffer_size = codes "--message-buffer-size"
option_name ConfigOption.max_buffer_memory = codes "--max-buffer-memory"
option_name ConfigOption.paused_subscription_ttl = codes "--paused-subscription-ttl"
option_name ConfigOption.subscriber_queue_limit = codes "--subscriber-queue-limit"
option_name ConfigOption.backpressure_policy = codes "--backpressure-policy"
option_name ConfigOption.block_timeout_ms = codes "--block-timeout-ms"
option_name ConfigOption.default_message_ttl = codes "--default-message-ttl"
option_name ConfigOption.ttl_reaper_interval = codes "--ttl-reaper-interval"

option_of-option_name : (o : ConfigOption) → option_of (option_name o) ≡ some o
unfolding option_of text_eq ℕ_discrete
option_of-option_name ConfigOption.cluster = refl
option_of-option_name _ = refl

is_help-option_name : (o : ConfigOption) → is_help (option_name o) ≡ false
unfolding is_help text_eq ℕ_discrete
is_help-option_name ConfigOption.cluster = refl
is_help-option_name _ = refl

-- Options with their values, as they stand in `argv`.
abbrev pub arguments : List (ConfigOption × Text) → List Text
arguments [] = []
arguments ((o, value) ∷ rest) = option_name o ∷ value ∷ arguments rest

-- The assignments one after another; the first that throws ends them.
abbrev pub set_all : List (ConfigOption × Text) → Config → Result Config
set_all [] c = ok c
set_all ((o, value) ∷ rest) c = set_option o value c >>= set_all rest

bind-pointwise :
    (m : Result Config) (f g : Config → Result Config)
    → ((c : Config) → f c ≡ g c)
    → (m >>= f) ≡ (m >>= g)
bind-pointwise (ok c) f g h = h c
bind-pointwise (throw e) f g h = refl

parse_loop_step :
    (arg value : Text) (rest : List Text) (c : Config) (o : ConfigOption)
    → is_help arg ≡ false
    → option_of arg ≡ some o
    → parse_loop (arg ∷ value ∷ rest) c ≡ (set_option o value c >>= parse_loop rest)
unfolding parse_loop
parse_loop_step arg value rest c o h k = ground arith

pub parse_loop-set_all :
    (options : List (ConfigOption × Text)) (c : Config)
    → parse_loop (arguments options) c ≡ set_all options c
unfolding parse_loop
parse_loop-set_all [] c = refl
parse_loop-set_all ((o, value) ∷ rest) c =
    parse_loop_step (option_name o) value (arguments rest) c o (is_help-option_name o)
      (option_of-option_name o)
    ∙ bind-pointwise (set_option o value c) (parse_loop (arguments rest)) (set_all rest)
        (parse_loop-set_all rest)

-- Every option with the value that `c` has.
abbrev pub assignments : Config → List (ConfigOption × Text)
assignments c =
    (ConfigOption.cluster, c.cluster_id)
    ∷ (ConfigOption.mcast_addr, c.mcast_addr)
    ∷ (ConfigOption.mcast_port, to_string c.mcast_port)
    ∷ (ConfigOption.mesh_port, to_string c.mesh_port)
    ∷ (ConfigOption.app_port, to_string c.app_port)
    ∷ (ConfigOption.bind, c.bind_addr)
    ∷ (ConfigOption.log_level, c.log_level)
    ∷ (ConfigOption.message_buffer_size, to_string c.message_buffer_size)
    ∷ (ConfigOption.max_buffer_memory, to_string c.max_buffer_memory_bytes)
    ∷ (ConfigOption.paused_subscription_ttl, to_string_ℤ c.paused_subscription_ttl_ms)
    ∷ (ConfigOption.subscriber_queue_limit, to_string c.subscriber_queue_limit)
    ∷ (ConfigOption.backpressure_policy, c.backpressure_policy)
    ∷ (ConfigOption.block_timeout_ms, to_string_ℤ c.block_timeout_ms)
    ∷ (ConfigOption.default_message_ttl, to_string_ℤ c.default_message_ttl_ms)
    ∷ (ConfigOption.ttl_reaper_interval, to_string_ℤ c.ttl_reaper_interval_ms)
    ∷ []

-- The numbers lie in the ranges of their C++ types.
pub record IsTyped (c : Config) : Type 0 where
  pub mcast_port : c.mcast_port < 65536
  pub mesh_port : c.mesh_port < 65536
  pub app_port : c.app_port < 65536
  pub message_buffer_size : c.message_buffer_size < 2 ^ 32
  pub max_buffer_memory_bytes : c.max_buffer_memory_bytes < 2 ^ 64
  pub subscriber_queue_limit : c.subscriber_queue_limit < 2 ^ 64
  pub paused_subscription_ttl_ms : Fits64 c.paused_subscription_ttl_ms
  pub block_timeout_ms : Fits64 c.block_timeout_ms
  pub default_message_ttl_ms : Fits64 c.default_message_ttl_ms
  pub ttl_reaper_interval_ms : Fits64 c.ttl_reaper_interval_ms

-- A port that fits is stored as it is written.
port_read : (n : ℕ) → n < 65536 → (stoi (to_string n) ≡ ok (pos n)) × (to_u16 (pos n) ≡ n)
unfolding to_u16
port_read n h = (stoi-to_string n (omega arith), omega arith)

size_read : (n : ℕ) → n < 2 ^ 32 → (stoull (to_string n) ≡ ok n) × (to_u32 n ≡ n)
size_read n h = (stoull-to_string n (omega arith), omega arith)

set_all-assignments :
    (c d : Config) → IsTyped c → set_all (assignments c) d ≡ ok (record c { help = d.help })
unfolding set_option
set_all-assignments c d t =
    rw
      (
        (port_read c.mcast_port t.mcast_port).0,
        (port_read c.mcast_port t.mcast_port).1,
        (port_read c.mesh_port t.mesh_port).0,
        (port_read c.mesh_port t.mesh_port).1,
        (port_read c.app_port t.app_port).0,
        (port_read c.app_port t.app_port).1,
        (size_read c.message_buffer_size t.message_buffer_size).0,
        (size_read c.message_buffer_size t.message_buffer_size).1,
        stoull-to_string c.max_buffer_memory_bytes t.max_buffer_memory_bytes,
        stoll-to_string_ℤ c.paused_subscription_ttl_ms t.paused_subscription_ttl_ms,
        stoull-to_string c.subscriber_queue_limit t.subscriber_queue_limit,
        stoll-to_string_ℤ c.block_timeout_ms t.block_timeout_ms,
        stoll-to_string_ℤ c.default_message_ttl_ms t.default_message_ttl_ms,
        stoll-to_string_ℤ c.ttl_reaper_interval_ms t.ttl_reaper_interval_ms,
      )
      refl

-- Every configuration whose numbers lie in the ranges of their types can be written as options,
-- and the daemon then runs with it: `parseArgs` returns exactly that configuration, with `help`
-- unset.
pub parse_args-arguments :
    (program : Text) (c : Config)
    → IsTyped c
    → parse_args (program ∷ arguments (assignments c)) ≡ ok (record c { help = false })
unfolding parse_args
parse_args-arguments program c t =
    parse_loop-set_all (assignments c) defaults ∙ set_all-assignments c defaults t
