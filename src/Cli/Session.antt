-- ===== src/Cli/Session.antt =====
-- tools/cli/src/cli.cpp with commands/publish_cmd.cpp: the execution of a line, and the loop over the
-- lines. Of the handlers those of PUBLISH, CONNECT, DISCONNECT, PING and QUIT are here; the others
-- are a parameter.
use nexus_d_pub_sub.Prelude.{
  Bool, true, false, ◌||◌, List, [], ◌∷◌, ◌++◌, none, some, Text, codes, last?, ◌==◌, if◌then◌else◌,
}
use nexus_d_pub_sub.Prelude.Int.{ℤ, pos, negsuc, ltb_ℤ}
use nexus_d_pub_sub.Prelude.Links.{same}
use nexus_d_pub_sub.Prelude.Numbers.{Result, ok, ◌>>=◌, stoi, to_string_ℤ}
use nexus_d_pub_sub.Cli.StringUtils.{trim, is_empty}
use nexus_d_pub_sub.Cli.CommandParser.{
  ParsedCommand, CommandInfo, CommandParser, init, register_command, has_flag, get_option, Dispatch,
  empty_line, unknown_command, handled,
}
use nexus_d_pub_sub.Cli.CommandParser
use nexus_d_pub_sub.Cli.OutputFormatter.{print_ok_message, print_key_value}
use nexus_d_pub_sub.Cli.GrpcClient.{Grpc, GrpcClient, PublishRequest, is_connected, get_address}
use nexus_d_pub_sub.Cli.GrpcClient
use nexus_d_pub_sub.Cli.Discovery.{address, get_by_index}
use nexus_d_pub_sub.Cli.Commands.{
  Cli, Handler, parser, fail, succeed, publish, ping, connect, disconnect, quit,
}

-- `cmd.args[i][0] == '-'`
unfoldable pub starts_with_dash : Text → Bool
starts_with_dash [] = false
starts_with_dash (c ∷ s) = c == b'-'

-- "Build message from remaining args (up to flags)".
unfoldable pub build_message : Text → List Text → Text
unfolding starts_with_dash is_empty
build_message message [] = message
build_message message (arg ∷ args) = elim (starts_with_dash arg) [
  | true ↦ message
  | false ↦ build_message (if is_empty message then arg else message ++ (32 ∷ arg)) args
]

unfoldable pub publish_request : Text → List Text → ParsedCommand → PublishRequest
unfolding build_message has_flag get_option
publish_request topic words cmd = record {
  topic = topic;
  payload = build_message [] words;
  content_type = get_option (codes "type") (get_option (codes "t") (codes "text/plain") cmd) cmd;
  retain = has_flag (codes "retain") cmd || has_flag (codes "r") cmd;
}

module _ (g : Grpc) where
  -- What `publish_cmd` writes for the id that the call returned.
  unfoldable pub report_published : Text → Text → Cli → ℤ × Cli
  unfolding fail succeed is_empty
  report_published topic id cli =
      if is_empty id
      then fail (codes "Failed to publish message") cli
      else succeed
          (if cli.config.json_mode
            then codes "{\"status\":\"OK\",\"message_id\":\""
              ++ (id ++ (codes "\",\"topic\":\"" ++ (topic ++ codes "\"}\n")))
            else codes "(integer) 1\n")
          cli

  unfoldable pub publish_args : List Text → ParsedCommand → Cli → ℤ × Cli
  unfolding fail publish_request report_published GrpcClient.publish
  publish_args (topic ∷ word ∷ words) cmd cli =
      let (id, c) = GrpcClient.publish g (publish_request topic (word ∷ words) cmd) cli.client in
      report_published topic id (record cli { client = c })
  publish_args _ cmd cli =
      fail (codes "Usage: PUBLISH <topic> <message> [--retain] [--type <content-type>]") cli

  unfoldable pub publish_cmd : ParsedCommand → Cli → ℤ × Cli
  unfolding fail publish_args is_connected
  publish_cmd cmd cli =
      if is_connected cli.client
      then publish_args cmd.args cmd cli
      else fail (codes "Not connected. Use DISCOVER and CONNECT first.") cli

  -- `Cli::connect`
  unfoldable pub connect_to : Text → Cli → Bool × Cli
  unfolding GrpcClient.connect
  connect_to addr cli =
      let (connected, c) = GrpcClient.connect g addr cli.client in
      (connected, record cli { client = c })

  unfoldable pub connect_by_index : ℤ → Cli → Bool × Cli
  unfolding connect_to get_by_index address
  connect_by_index index cli = elim (get_by_index index cli.discovered) [
    | none ↦ (false, cli)
    | some i ↦ connect_to (address i) cli
  ]

  -- The message of the CONNECT handler.
  unfoldable pub report_connected : Text → Bool × Cli → ℤ × Cli
  unfolding fail succeed print_ok_message
  report_connected name (connected, cli) =
      if connected
      then succeed (print_ok_message cli.config.json_mode (codes "Connected to " ++ name)) cli
      else fail (codes "Connection failed") cli

  unfoldable pub connect_first : List Text → Cli → ℤ × Cli
  unfolding fail report_connected connect_to
  connect_first [] cli = fail (codes "Usage: CONNECT <host:port> or CONNECT -n <index>") cli
  connect_first (addr ∷ args) cli = report_connected addr (connect_to addr cli)

  unfoldable pub connect_cmd : ParsedCommand → Cli → Result (ℤ × Cli)
  unfolding has_flag get_option connect_by_index report_connected connect_first get_address stoi
  connect_cmd cmd cli =
      if has_flag (codes "n") cmd || has_flag (codes "N") cmd
      then stoi (get_option (codes "n") (get_option (codes "N") (codes "1") cmd) cmd) >>= (λ index.
        let (connected, cli') = connect_by_index index cli in
        ok (report_connected (get_address cli'.client) (connected, cli')))
      else ok (connect_first cmd.args cli)

  unfoldable pub disconnect_cmd : Cli → ℤ × Cli
  unfolding succeed print_ok_message GrpcClient.disconnect
  disconnect_cmd cli =
      succeed (print_ok_message cli.config.json_mode (codes "Disconnected"))
        (record cli { client = GrpcClient.disconnect cli.client })

  unfoldable pub ping_cmd : Cli → ℤ × Cli
  unfolding fail succeed is_connected print_key_value to_string_ℤ GrpcClient.ping
  ping_cmd cli =
      let latency = GrpcClient.ping g cli.client in
      if is_connected cli.client
      then if ltb_ℤ latency (pos 0)
        then fail (codes "Ping failed") cli
        else succeed
            (if cli.config.json_mode
              then print_key_value true (codes "pong") (to_string_ℤ latency ++ codes "ms")
              else codes "PONG (" ++ (to_string_ℤ latency ++ codes "ms)\n"))
            cli
      else fail (codes "Not connected") cli

  unfoldable pub quit_cmd : Cli → ℤ × Cli
  quit_cmd cli = (negsuc 0, record cli { quit_requested = true })

  module _ (others : Handler → ParsedCommand → Cli → Result (ℤ × Cli)) where
    unfoldable pub handle : Handler → ParsedCommand → Cli → Result (ℤ × Cli)
    unfolding publish_cmd connect_cmd disconnect_cmd ping_cmd quit_cmd
    handle publish cmd cli = ok (publish_cmd cmd cli)
    handle connect cmd cli = connect_cmd cmd cli
    handle disconnect cmd cli = ok (disconnect_cmd cli)
    handle ping cmd cli = ok (ping_cmd cli)
    handle quit cmd cli = ok (quit_cmd cli)
    handle h cmd cli = others h cmd cli

    -- `Cli::execute` with the end of `CommandParser::execute`.
    unfoldable pub run_dispatch : Dispatch Handler → Cli → Result (ℤ × Cli)
    unfolding handle
    run_dispatch empty_line cli = ok (pos 0, cli)
    run_dispatch (unknown_command name) cli = ok (
      pos 1,
      record cli {
        errors =
            cli.errors
            ++ (codes "(error) ERR unknown command '"
                ++ (name ++ codes "'\nType HELP for available commands\n"));
      },
    )
    run_dispatch (handled h cmd) cli = handle h cmd cli

    unfoldable pub execute : Text → Cli → Result (ℤ × Cli)
    unfolding run_dispatch CommandParser.execute
    execute line cli = run_dispatch (CommandParser.execute line parser) cli

    -- "Add to history"
    unfoldable pub remember : Text → Cli → Cli
    unfolding same
    remember line cli = elim (last? cli.history) [
      | none ↦ record cli { history = line ∷ [] }
      | some latest ↦
          if same latest line then cli else record cli { history = cli.history ++ line ∷ [] }
    ]

    -- The loop of `run` over the lines of the input, up to its end.
    unfoldable pub repl : List Text → Cli → Result Cli
    unfolding execute remember trim is_empty
    repl [] cli = ok cli
    repl (input ∷ inputs) cli =
        let line = trim input in
        elim (cli.quit_requested) [
          | true ↦ ok cli
          | false ↦ elim (is_empty line) [
            | true ↦ repl inputs cli
            | false ↦ execute line (remember line cli) >>= (λ r. repl inputs r.1)
          ]
        ]
