-- ===== src/Cli/CommandParser.antt =====
-- tools/cli/src/command_parser.cpp. A handler is a function of the parsed command and of the state
-- `S` of the tool, and gives the exit code; `H` is the type of handlers.
pub mod Parsing
use nexus_d_pub_sub.Prelude.{
  ℕ, Bool, true, false, ◌&&◌, ◌||◌, List, [], ◌∷◌, ◌++◌, map, Option, none, some, Text, codes,
  text_eq, ite, last?, ◌==◌, if◌then◌else◌,
}
use nexus_d_pub_sub.Prelude.Map.{Map, find, assign, keys}
use nexus_d_pub_sub.Prelude.Links.{same}
use nexus_d_pub_sub.PeerRegistry.TopicHash.{sort}
use nexus_d_pub_sub.Cli.StringUtils.{to_upper, trim, tokenize, starts_with, is_empty}

pub record ParsedCommand : Type 0 where
  pub command : Text
  pub subcommand : Text
  pub args : List Text

pub record CommandInfo (H : Type 0) : Type 0 where
  pub name : Text
  pub description : Text
  pub usage : Text
  pub subcommands : List Text
  pub handler : H

pub record CommandParser (H : Type 0) : Type 0 where
  pub commands : Map (CommandInfo H)
  pub aliases : Map Text

-- The test of an argument in `has_flag`.
unfoldable pub is_flag : Text → Text → Bool
unfolding same
is_flag normalized arg =
    same (to_upper arg) normalized
    || (same (to_upper arg) (b'-' ∷ normalized) || same (to_upper arg) (b'-' ∷ b'-' ∷ normalized))

unfoldable pub has_flag_in : Text → List Text → Bool
unfolding is_flag
has_flag_in normalized [] = false
has_flag_in normalized (arg ∷ args) = is_flag normalized arg || has_flag_in normalized args

unfoldable pub has_flag : Text → ParsedCommand → Bool
unfolding has_flag_in
has_flag flag cmd = has_flag_in (to_upper flag) cmd.args

-- The loop of `get_option`: an option at the end of the line has no value.
unfoldable pub get_option_in : Text → Text → List Text → Text
unfolding same
get_option_in name default [] = default
get_option_in name default (arg ∷ []) = default
get_option_in name default (arg ∷ value ∷ args) =
    if same arg (b'-' ∷ name) || same arg (b'-' ∷ b'-' ∷ name)
    then value
    else get_option_in name default (value ∷ args)

unfoldable pub get_option : Text → Text → ParsedCommand → Text
unfolding get_option_in
get_option name default cmd = get_option_in name default cmd.args

-- The aliases of the constructor.
abbrev pub built_in : Map Text
built_in =
    (codes "Q", codes "QUIT")
    ∷ (codes "EXIT", codes "QUIT")
    ∷ (codes "?", codes "HELP")
    ∷ (codes "H", codes "HELP")
    ∷ (codes "DISC", codes "DISCOVER")
    ∷ (codes "LS", codes "DISCOVER")
    ∷ (codes "PUB", codes "PUBLISH")
    ∷ (codes "SUB", codes "SUBSCRIBE")
    ∷ (codes "MON", codes "MONITOR")
    ∷ []

-- `sub == potential_sub` for one of the subcommands.
unfoldable pub is_subcommand : Text → List Text → Bool
unfolding same
is_subcommand sub [] = false
is_subcommand sub (s ∷ subs) = same s sub || is_subcommand sub subs

-- The elements that start with a prefix.
unfoldable pub matching : Text → List Text → List Text
unfolding starts_with
matching prefix [] = []
matching prefix (s ∷ rest) =
    if starts_with s prefix then s ∷ matching prefix rest else matching prefix rest

-- `partial.back() == ' '`
unfoldable pub ends_in_space : Text → Bool
ends_in_space s = elim (last? s) [ none ↦ false | some c ↦ c == 32 ]

module _ {H : Type 0} where
  abbrev pub init : CommandParser H
  init = record { commands = []; aliases = built_in }

  unfoldable pub register_command : Text → CommandInfo H → CommandParser H → CommandParser H
  register_command name info p = record p {
    commands = assign (to_upper name) (record info { name = to_upper name }) p.commands;
  }

  unfoldable pub register_alias : Text → Text → CommandParser H → CommandParser H
  register_alias alias target p = record p {
    aliases = assign (to_upper alias) (to_upper target) p.aliases;
  }

  unfoldable pub resolve_alias : Text → CommandParser H → Text
  unfolding find
  resolve_alias name p = elim (find (to_upper name) p.aliases) [
    | none ↦ to_upper name
    | some target ↦ target
  ]

  unfoldable pub get_command_info : Text → CommandParser H → Option (CommandInfo H)
  unfolding find
  get_command_info command p = find (to_upper command) p.commands

  unfoldable pub get_subcommands : Text → CommandParser H → List Text
  unfolding get_command_info
  get_subcommands command p = elim (get_command_info command p) [
    | none ↦ []
    | some info ↦ info.subcommands
  ]

  unfoldable pub get_commands : CommandParser H → List Text
  unfolding sort
  get_commands p = sort (keys p.commands)

  -- `parse` behind the first token: whether the next token is a subcommand.
  unfoldable pub with_arguments : Text → List Text → CommandParser H → ParsedCommand
  unfolding get_subcommands is_subcommand
  with_arguments command [] p = record { command = command; subcommand = []; args = [] }
  with_arguments command (token ∷ tokens) p =
      if is_subcommand (to_upper token) (get_subcommands command p)
      then record { command = command; subcommand = to_upper token; args = tokens }
      else record { command = command; subcommand = []; args = token ∷ tokens }

  -- `parse` of the tokens.
  unfoldable pub parse_tokens : List Text → CommandParser H → ParsedCommand
  unfolding with_arguments resolve_alias
  parse_tokens [] p = record { command = []; subcommand = []; args = [] }
  parse_tokens (token ∷ tokens) p = with_arguments (resolve_alias (to_upper token) p) tokens p

  unfoldable pub parse : Text → CommandParser H → ParsedCommand
  unfolding parse_tokens tokenize trim
  parse line p = parse_tokens (tokenize (trim line)) p

  -- "Complete top-level commands" and aliases, before the sort.
  unfoldable pub complete_names : Text → CommandParser H → List Text
  unfolding matching
  complete_names prefix p = matching prefix (keys p.commands) ++ matching prefix (keys p.aliases)

  -- The completions of a subcommand, where the command is known.
  unfoldable pub complete_tokens : Text → List Text → CommandParser H → List Text
  unfolding get_command_info complete_names ends_in_space sort
  complete_tokens partial [] p = sort (complete_names (to_upper partial) p)
  complete_tokens partial (cmd ∷ []) p = elim (get_command_info (to_upper cmd) p) [
    | none ↦ sort (complete_names (to_upper partial) p)
    | some info ↦
        if ends_in_space partial
        then map (λ sub. to_upper cmd ++ (32 ∷ sub)) info.subcommands
        else sort (complete_names (to_upper partial) p)
  ]
  complete_tokens partial (cmd ∷ sub ∷ []) p = elim (get_command_info (to_upper cmd) p) [
    | none ↦ sort (complete_names (to_upper partial) p)
    | some info ↦ map (λ s. to_upper cmd ++ (32 ∷ s)) (matching (to_upper sub) info.subcommands)
  ]
  complete_tokens partial (cmd ∷ sub ∷ more ∷ rest) p = sort (complete_names (to_upper partial) p)

  unfoldable pub get_completions : Text → CommandParser H → List Text
  unfolding complete_tokens tokenize
  get_completions partial p = complete_tokens partial (tokenize partial) p

-- What `execute` does with a line: nothing, an error on the unknown command, or a call of a handler.
pub data Dispatch (H : Type 0) : Type 0 where
  empty_line : Dispatch H
  unknown_command : Text → Dispatch H
  handled : H → ParsedCommand → Dispatch H

-- `execute` behind `parse`.
unfoldable pub dispatch : {H : Type 0} → ParsedCommand → CommandParser H → Dispatch H
unfolding is_empty find
dispatch cmd p = if is_empty cmd.command then empty_line else elim (find cmd.command p.commands) [
  | none ↦ unknown_command cmd.command
  | some info ↦ handled info.handler cmd
]

unfoldable pub execute : {H : Type 0} → Text → CommandParser H → Dispatch H
unfolding parse dispatch
execute line p = dispatch (parse line p) p
