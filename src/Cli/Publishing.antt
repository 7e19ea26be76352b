-- ===== src/Cli/Publishing.antt =====
-- From a line that a user types to the request that tools/cli/src/commands/publish_cmd.cpp sends.
use nexus_d_pub_sub.Prelude.{
  ◌≡◌, ◌≢◌, refl, ap, ◌∙◌, true, false, List, [], ◌∷◌, ◌++◌, map, some, Text, codes, if◌then◌else◌,
  arith, All, text_eq, ℕ_discrete,
}
use mathlib.Core.List.{append_assoc, append-nil, map-append}
use nexus_d_pub_sub.Prelude.Int.{ℤ}
use nexus_d_pub_sub.Prelude.Map.{find, assign}
use nexus_d_pub_sub.Prelude.Numbers.{Result, ok}
use nexus_d_pub_sub.Cli.StringUtils.{to_upper, join, join_rest, is_empty, upper}
use nexus_d_pub_sub.Cli.StringUtils.Arguments.{Argument, word, spelt, IsArgument}
use nexus_d_pub_sub.Cli.CommandParser.{
  CommandParser, ParsedCommand, Dispatch, handled, parse, with_arguments, resolve_alias,
  get_subcommands, is_flag, has_flag_in, has_flag, get_option_in, get_option, register_command,
  dispatch,
}
use nexus_d_pub_sub.Cli.CommandParser
use nexus_d_pub_sub.Cli.CommandParser.Parsing.{parse-join}
use nexus_d_pub_sub.Cli.GrpcClient.{Grpc, GrpcClient, PublishRequest, is_connected}
use nexus_d_pub_sub.Cli.GrpcClient
use nexus_d_pub_sub.Cli.Commands.{Cli, Handler, parser, fail, succeed}
use nexus_d_pub_sub.Cli.Session.{
  starts_with_dash, build_message, publish_request, publish_args, publish_cmd, report_published,
  handle, run_dispatch, execute,
}

-- Nothing follows, or a word that begins with a dash.
abbrev pub IsStop : List Text → Type 0
IsStop [] = Unit
IsStop (t ∷ ts) = starts_with_dash t ≡ true

build_message_stop :
    (message : Text) (tail : List Text) → IsStop tail → build_message message tail ≡ message
unfolding build_message
build_message_stop message [] h = refl
build_message_stop message (t ∷ ts) h = ground arith

build_message_step :
    (message w : Text) (rest : List Text)
    → message ≢ []
    → starts_with_dash w ≡ false
    → build_message message (w ∷ rest) ≡ build_message (message ++ (32 ∷ w)) rest
unfolding build_message is_empty
build_message_step [] w rest h k = absurd (h refl)
build_message_step (c ∷ message) w rest h k = ground arith

append-ne-nil : (message w : Text) → message ++ (32 ∷ w) ≢ []
append-ne-nil [] w e = cc
append-ne-nil (c ∷ message) w e = cc

build_message_more :
    (message : Text) (words tail : List Text)
    → message ≢ []
    → All (λ w. (w ≢ []) × (starts_with_dash w ≡ false)) words
    → build_message message (words ++ tail)
      ≡ build_message (message ++ join_rest (32 ∷ []) words) tail
unfolding join_rest
build_message_more message [] tail h hs = rw append-nil refl
build_message_more message (w ∷ words) tail h hs =
    build_message_step message w (words ++ tail) h hs.0.1
    ∙ build_message_more (message ++ (32 ∷ w)) words tail (append-ne-nil message w) hs.1
    ∙ ap (λ t. build_message t tail) (append_assoc message (32 ∷ w) (join_rest (32 ∷ []) words))

first_word :
    (w : Text) (rest : List Text)
    → starts_with_dash w ≡ false
    → build_message [] (w ∷ rest) ≡ build_message w rest
unfolding build_message is_empty
first_word w rest k = ground arith

-- The first word that begins with a dash ends the message, whatever it and the words behind it are: the
-- message is the words before it with one space between them.
pub build_message_lem :
    (words tail : List Text)
    → All (λ w. (w ≢ []) × (starts_with_dash w ≡ false)) words
    → IsStop tail
    → build_message [] (words ++ tail) ≡ join (32 ∷ []) words
unfolding join
build_message_lem [] tail hs ht = build_message_stop [] tail ht
build_message_lem (w ∷ words) tail hs ht =
    first_word w (words ++ tail) hs.0.1
    ∙ build_message_more w words tail hs.0.0 hs.1
    ∙ build_message_stop (w ++ join_rest (32 ∷ []) words) tail ht

-- The command PUBLISH in any spelling of upper and lower case.
publish_parsed :
    (topic : Text) (words : List Text)
    → with_arguments (resolve_alias (codes "PUBLISH") parser) (topic ∷ words) parser
      ≡ record { command = codes "PUBLISH"; subcommand = []; args = topic ∷ words }
unfolding with_arguments resolve_alias get_subcommands register_command find assign text_eq
    ℕ_discrete upper
publish_parsed topic words = refl

publish_found :
    (args : List Text)
    → let cmd : ParsedCommand = record {
      command = codes "PUBLISH";
      subcommand = [];
      args = args;
    } in
      dispatch cmd parser ≡ handled Handler.publish cmd
unfolding dispatch register_command find assign text_eq ℕ_discrete upper is_empty
publish_found args = refl

-- What `execute` finds for a line that was written from PUBLISH and its arguments.
dispatch_publish :
    (c topic : Argument) (args : List Argument)
    → IsArgument c
    → to_upper (word c) ≡ codes "PUBLISH"
    → All IsArgument (topic ∷ args)
    → CommandParser.execute (join (32 ∷ []) (map spelt (c ∷ topic ∷ args))) parser
      ≡ handled Handler.publish
          (record { command = codes "PUBLISH"; subcommand = []; args = word topic ∷ map word args })
unfolding CommandParser.execute
dispatch_publish c topic args hc e hs =
    ap (λ cmd. dispatch cmd parser)
      (parse-join parser c (topic ∷ args) hc hs
        ∙ ap (λ u. with_arguments (resolve_alias u parser) (word topic ∷ map word args) parser) e
        ∙ publish_parsed (word topic) (map word args))
    ∙ publish_found (word topic ∷ map word args)

report_published-client :
    (g : Grpc) (topic id : Text) (cli : Cli)
    → (report_published g topic id cli).1.client ≡ cli.client
unfolding report_published fail succeed
report_published-client g topic id cli = ground arith

publish-sent :
    (g : Grpc) (request : PublishRequest) (c : GrpcClient) (address : Text)
    → c.connection ≡ some address
    → (is_connected c ≡ true)
      × ((GrpcClient.publish g request c).1.sent ≡ c.sent ++ (address, request) ∷ [])
unfolding is_connected GrpcClient.publish
publish-sent g request c address h = (ground arith, ground arith)

-- The handler sends one request on a connection.
publish_cmd-sent :
    (g : Grpc) (cli : Cli) (address topic word : Text) (words : List Text)
    → cli.client.connection ≡ some address
    → let cmd : ParsedCommand = record {
      command = codes "PUBLISH";
      subcommand = [];
      args = topic ∷ word ∷ words;
    } in
      (publish_cmd g cmd cli).1.client.sent
      ≡ cli.client.sent ++ (address, publish_request topic (word ∷ words) cmd) ∷ []
unfolding publish_cmd publish_args
publish_cmd-sent g cli address topic word words h =
    let cmd : ParsedCommand = record {
      command = codes "PUBLISH";
      subcommand = [];
      args = topic ∷ word ∷ words;
    } in
    let request = publish_request topic (word ∷ words) cmd in
    let r = GrpcClient.publish g request cli.client in
    let refused : ℤ × Cli = fail (codes "Not connected. Use DISCOVER and CONNECT first.") cli in
    ap (λ b. (if b then publish_args g cmd.args cmd cli else refused).1.client.sent)
      (publish-sent g request cli.client address h).0
    ∙ ap (λ (c : GrpcClient). c.sent)
        (report_published-client g topic r.0 (record cli { client = r.1 }))
    ∙ (publish-sent g request cli.client address h).1

-- A line consists of the command PUBLISH, in upper or lower case, a topic, one or more words that
-- are not empty and do not begin with a dash, and after them nothing, or a word that begins with a
-- dash and any others. None of these is empty, and each is written bare, where it has no space and
-- no quote, or in quotes of a kind that it does not have, with one space between them. Executed on
-- a connected tool the line sends one request over that connection: to the topic, with the words
-- before the first that begins with a dash, joined by single spaces, as its payload.
pub execute-sent :
    (g : Grpc) (others : Handler → ParsedCommand → Cli → Result (ℤ × Cli)) (cli : Cli)
    (address : Text) (c topic first : Argument) (words tail : List Argument)
    → cli.client.connection ≡ some address
    → IsArgument c
    → to_upper (word c) ≡ codes "PUBLISH"
    → All IsArgument (topic ∷ first ∷ words ++ tail)
    → All (λ w. (w ≢ []) × (starts_with_dash w ≡ false)) (map word (first ∷ words))
    → IsStop (map word tail)
    → (code : ℤ) × (after : Cli) × (request : PublishRequest) × (execute g others
          (join (32 ∷ []) (map spelt (c ∷ topic ∷ first ∷ words ++ tail)))
          cli
        ≡ ok (code, after))
      × (after.client.sent ≡ cli.client.sent ++ (address, request) ∷ [])
      × (request.topic ≡ word topic)
      × (request.payload ≡ join (32 ∷ []) (map word (first ∷ words)))
unfolding execute run_dispatch handle publish_request
execute-sent g others cli address c topic first words tail connected hc e hs plain stop =
    let rest = map word (first ∷ words ++ tail) in
    let cmd : ParsedCommand = record {
      command = codes "PUBLISH";
      subcommand = [];
      args = word topic ∷ rest;
    } in
    (
      (publish_cmd g cmd cli).0,
      (publish_cmd g cmd cli).1,
      publish_request (word topic) rest cmd,
      ap (λ d. run_dispatch g others d cli)
          (dispatch_publish c topic (first ∷ words ++ tail) hc e hs),
      publish_cmd-sent g cli address (word topic) (word first) (map word (words ++ tail)) connected,
      refl,
      ap (build_message []) (map-append word (first ∷ words) tail)
          ∙ build_message_lem (map word (first ∷ words)) (map word tail) plain stop,
    )
