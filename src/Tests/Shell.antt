-- ===== src/Tests/Shell.antt =====
-- Concrete lines and datagrams for the command line tool (tools/cli/src).
use nexus_d_pub_sub.Prelude.{
  ◌≤◌, ◌≡◌, ◌≢◌, refl, true, false, List, [], ◌∷◌, ◌++◌, map, none, some, Text, codes, arith, All,
  length, text_eq,
}
use nexus_d_pub_sub.Prelude.Int.{ℤ, pos, negsuc}
use nexus_d_pub_sub.Prelude.Numbers.{Result, ok, is_space}
use nexus_d_pub_sub.Cli.StringUtils.{to_upper, join, upper}
use nexus_d_pub_sub.Cli.StringUtils.Arguments.{Argument, bare, quoted, word, spelt, IsArgument}
use nexus_d_pub_sub.Cli.CommandParser.{ParsedCommand}
use nexus_d_pub_sub.Cli.GrpcClient.{Grpc, PublishRequest}
use nexus_d_pub_sub.Cli.Commands.{Cli, Handler}
use nexus_d_pub_sub.Cli.Session.{starts_with_dash, execute}
use nexus_d_pub_sub.Cli.Publishing.{IsStop, execute-sent}
use nexus_d_pub_sub.Cli.OutputFormatter.{escape_json_string}
use nexus_d_pub_sub.Cli.OutputFormatter.Json.{plain, closed, read, read-escape_json_string}
use nexus_d_pub_sub.Cli.Discovery.{DiscoveredInstance, Round, discover, to_size}
use nexus_d_pub_sub.Cli.Discovery.Listing.{IsAscending, discover-IsAscending}

abbrev command : Argument
command = bare (codes "publish")

abbrev topic : Argument
topic = bare (codes "sensors/room")

abbrev words : List Argument
words = quoted 34 (codes "it's warm") ∷ []

abbrev tail : List Argument
tail = bare (codes "--retain") ∷ []

command-IsArgument : IsArgument command
unfolding is_space
command-IsArgument = ground arith

topic-IsArgument : IsArgument topic
unfolding is_space
topic-IsArgument = ground arith

words-IsArgument : All IsArgument words
words-IsArgument = ground arith

tail-IsArgument : All IsArgument tail
unfolding is_space
tail-IsArgument = ground arith

abbrev grpc : Grpc
grpc = record {
  reachable = λ address. true;
  publish = λ address request. some (codes "id-1");
  ping = λ address. some 3;
  stream = λ address pattern. [];
  debug_info = λ address. none;
  config = λ address. none;
}

abbrev session : Cli
session = record {
  config = record {
    json_mode = false;
    host = codes "localhost";
    port = 5672;
    instance_index = negsuc 0;
    auto_connect = true;
    discovery_timeout = pos 2000;
  };
  client = record { connection = some (codes "localhost:5672"); sent = [] };
  discovered = [];
  quit_requested = false;
  history = [];
  output = [];
  errors = [];
}

abbrev no_others : Handler → ParsedCommand → Cli → Result (ℤ × Cli)
no_others h cmd cli = ok (pos 1, cli)

command_upper : to_upper (word command) ≡ codes "PUBLISH"
unfolding upper
command_upper = refl

warm-plain : All (λ w. (w ≢ []) × (starts_with_dash w ≡ false)) (map word words)
unfolding starts_with_dash
warm-plain = ground arith

retain-IsStop : IsStop (map word tail)
unfolding starts_with_dash
retain-IsStop = refl

execute-sent_example :
    (code : ℤ) × (after : Cli) × (request : PublishRequest) × (execute grpc no_others
        (join (32 ∷ []) (map spelt (command ∷ topic ∷ words ++ tail)))
        session
      ≡ ok (code, after))
    × (after.client.sent ≡ (codes "localhost:5672", request) ∷ [])
    × (request.topic ≡ codes "sensors/room")
    × (request.payload ≡ join (32 ∷ []) (codes "it's warm" ∷ []))
execute-sent_example =
    execute-sent grpc no_others session (codes "localhost:5672") command topic
      (quoted 34 (codes "it's warm")) [] tail refl command-IsArgument command_upper
      (topic-IsArgument, (words-IsArgument.0, tail-IsArgument)) warm-plain retain-IsStop

-- A temperature below zero is taken for a flag.
minus-IsStop : IsStop (codes "-5" ∷ codes "degrees" ∷ [])
unfolding starts_with_dash
minus-IsStop = refl

read-escape_json_string_example :
    read (escape_json_string (9 ∷ 34 ∷ 1 ∷ 92 ∷ []) ++ 34 ∷ codes "}") (plain [])
    ≡ closed (9 ∷ 34 ∷ 1 ∷ 92 ∷ []) (codes "}")
read-escape_json_string_example = read-escape_json_string (9 ∷ 34 ∷ 1 ∷ 92 ∷ []) (codes "}")

abbrev blank : DiscoveredInstance
blank = record {
  host = [];
  port = 0;
  instance_id = [];
  version = [];
  status = [];
  uptime_seconds = pos 0;
  topic_count = pos 0;
  subscriber_count = pos 0;
  peer_count = pos 0;
}

-- Two hosts answer, the second twice.
abbrev answer_of : Text → Text
answer_of payload = codes "NXDS" ++ (1 ∷ 2 ∷ 22 ∷ 40 ∷ payload)

abbrev rounds : List Round
rounds =
    record {
      now = 0;
      datagram = some (codes "10.0.0.9", answer_of (codes "id=b;topics=3"));
      uninitialised = blank;
    }
    ∷ record {
      now = 1;
      datagram = some (codes "10.0.0.7", answer_of (codes "id=a"));
      uninitialised = blank;
    }
    ∷ record { now = 2; datagram = none; uninitialised = blank }
    ∷ record {
      now = 3;
      datagram = some (codes "10.0.0.9", answer_of (codes "id=b;topics=4"));
      uninitialised = blank;
    }
    ∷ record { now = 9; datagram = none; uninitialised = blank }
    ∷ []

abbrev listed : List DiscoveredInstance
listed =
    record blank { host = codes "10.0.0.7"; port = 5672; instance_id = codes "a" }
    ∷ record blank {
      host = codes "10.0.0.9";
      port = 5672;
      instance_id = codes "b";
      topic_count = pos 3;
    }
    ∷ []

rounds_discovered : discover (pos 100) 5 rounds ≡ ok (some listed)
unfolding discover text_eq
rounds_discovered = refl

discover-IsAscending_example : IsAscending listed × (length listed ≤ to_size (pos 100))
discover-IsAscending_example = discover-IsAscending (pos 100) 5 rounds listed rounds_discovered
