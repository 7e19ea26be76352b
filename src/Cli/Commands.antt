-- ===== src/Cli/Commands.antt =====
-- tools/cli/src/cli.hpp and tools/cli/src/cli.cpp: the state of the tool, and the table of its commands.
use nexus_d_pub_sub.Prelude.{ℕ, Bool, List, [], ◌∷◌, ◌++◌, Text, codes}
use nexus_d_pub_sub.Prelude.Int.{ℤ, pos}
use nexus_d_pub_sub.Cli.CommandParser.{CommandInfo, CommandParser, init, register_command}
use nexus_d_pub_sub.Cli.OutputFormatter.{print_error}
use nexus_d_pub_sub.Cli.GrpcClient.{GrpcClient}
use nexus_d_pub_sub.Cli.Discovery.{DiscoveredInstance}

pub record CliConfig : Type 0 where
  pub json_mode : Bool
  pub host : Text
  pub port : ℕ
  pub instance_index : ℤ
  pub auto_connect : Bool
  pub discovery_timeout : ℤ

-- The state of the tool; `output` and `errors` are what it has written.
pub record Cli : Type 0 where
  pub config : CliConfig
  pub client : GrpcClient
  pub discovered : List DiscoveredInstance
  pub quit_requested : Bool
  pub history : List Text
  pub output : Text
  pub errors : Text

-- The handlers that `register_commands` names.
pub data Handler : Type 0 where
  discover info mesh pubsub client debug publish subscribe monitor : Handler
  ping connect disconnect help quit clear : Handler

abbrev command_info : Text → Text → List Text → Handler → CommandInfo Handler
command_info description usage subcommands handler = record {
  name = [];
  description = description;
  usage = usage;
  subcommands = subcommands;
  handler = handler;
}

abbrev pub register_commands : CommandParser Handler → CommandParser Handler
register_commands p =
    register_command (codes "CLEAR")
      (command_info (codes "Clear the terminal screen") (codes "CLEAR") [] clear)
      (register_command (codes "QUIT") (command_info (codes "Exit the CLI") (codes "QUIT") [] quit)
        (register_command (codes "HELP")
          (command_info (codes "Show help for commands") (codes "HELP [command]") [] help)
          (register_command (codes "DISCONNECT")
            (command_info (codes "Disconnect from current instance") (codes "DISCONNECT") []
              disconnect)
            (register_command (codes "CONNECT")
              (command_info (codes "Connect to a NexusD instance")
                (codes "CONNECT <host:port> | CONNECT -n <index>") [] connect)
              (register_command (codes "PING")
                (command_info (codes "Ping the server") (codes "PING") [] ping)
                (register_command (codes "MONITOR")
                  (command_info (codes "Monitor all messages in real-time")
                    (codes "MONITOR [--topics <pattern>]") [] monitor)
                  (register_command (codes "SUBSCRIBE")
                    (command_info (codes "Subscribe to topics")
                      (codes "SUBSCRIBE <pattern> [pattern ...]") [] subscribe)
                    (register_command (codes "PUBLISH")
                      (command_info (codes "Publish a message to a topic")
                        (codes "PUBLISH <topic> <message> [--retain] [--type <content-type>]") []
                        publish)
                      (register_command (codes "DEBUG")
                        (command_info (codes "Debugging utilities") (codes "DEBUG <subcommand>")
                          (codes "OBJECT"
                            ∷ codes "SEGFAULT"
                            ∷ codes "SLEEP"
                            ∷ codes "DIGEST"
                            ∷ codes "STRUCTSIZE"
                            ∷ codes "LOG"
                            ∷ [])
                          debug)
                        (register_command (codes "CLIENT")
                          (command_info (codes "Client management") (codes "CLIENT <subcommand>")
                            (codes "LIST"
                              ∷ codes "INFO"
                              ∷ codes "KILL"
                              ∷ codes "GETNAME"
                              ∷ codes "SETNAME"
                              ∷ [])
                            client)
                          (register_command (codes "PUBSUB")
                            (command_info (codes "Pub/Sub introspection")
                              (codes "PUBSUB <subcommand>")
                              (codes "TOPICS"
                                ∷ codes "CHANNELS"
                                ∷ codes "NUMSUB"
                                ∷ codes "NUMPAT"
                                ∷ codes "RETAINED"
                                ∷ [])
                              pubsub)
                            (register_command (codes "MESH")
                              (command_info (codes "Mesh network operations")
                                (codes "MESH <subcommand>")
                                (codes "PEERS"
                                  ∷ codes "STATUS"
                                  ∷ codes "TOPOLOGY"
                                  ∷ codes "GOSSIP"
                                  ∷ [])
                                mesh)
                              (register_command (codes "INFO")
                                (command_info (codes "Get server information")
                                  (codes "INFO [SECTION]")
                                  (codes "SERVER"
                                    ∷ codes "STATS"
                                    ∷ codes "MEMORY"
                                    ∷ codes "CONFIG"
                                    ∷ codes "ALL"
                                    ∷ [])
                                  info)
                                (register_command (codes "DISCOVER")
                                  (command_info (codes "Discover NexusD instances on the network")
                                    (codes "DISCOVER [--timeout <ms>]") [] discover)
                                  p))))))))))))))

-- The parser of a `Cli`.
abbrev pub parser : CommandParser Handler
parser = register_commands init

-- `out.print_error` and a return code.
unfoldable pub fail : Text → Cli → ℤ × Cli
unfolding print_error
fail message cli =
    let (written, erred) = print_error cli.config.json_mode message in
    (pos 1, record cli { output = cli.output ++ written; errors = cli.errors ++ erred })

-- `std::cout << text` and a return of 0.
unfoldable pub succeed : Text → Cli → ℤ × Cli
succeed text cli = (pos 0, record cli { output = cli.output ++ text })
