-- ===== src/Cli/StringUtils.antt =====
-- tools/cli/src/utils/string_utils.hpp.
pub mod Arguments
use nexus_d_pub_sub.Prelude.{
  ℕ, ◌+◌, ◌-◌, Bool, true, false, not, ◌&&◌, ◌||◌, List, [], ◌∷◌, ◌++◌, map, Option, none, some,
  Text, leb, ◌==◌, if◌then◌else◌,
}
use nexus_d_pub_sub.Prelude.Numbers.{is_space}

-- `std::toupper` and `std::tolower`, in the C locale.
unfoldable pub upper : ℕ → ℕ
upper c = if leb b'a' c && leb c b'z' then c - 32 else c

unfoldable pub lower : ℕ → ℕ
lower c = if leb b'A' c && leb c b'Z' then c + 32 else c

abbrev pub to_upper : Text → Text
to_upper = map upper

abbrev pub to_lower : Text → Text
to_lower = map lower

-- " \t\r\n"
unfoldable pub is_blank : ℕ → Bool
is_blank c = c == 32 || c == 9 || c == 13 || c == 10

unfoldable pub is_empty {ℓ} : {A : Type ℓ} → List A → Bool
is_empty [] = true
is_empty (x ∷ xs) = false

-- `find_first_not_of` and what is behind it.
unfoldable pub trim_start : Text → Text
unfolding is_blank
trim_start [] = []
trim_start (c ∷ s) = if is_blank c then trim_start s else c ∷ s

-- Up to `find_last_not_of`.
unfoldable pub trim_end : Text → Text
unfolding is_blank is_empty
trim_end [] = []
trim_end (c ∷ s) = let rest = trim_end s in if is_blank c && is_empty rest then [] else c ∷ rest

unfoldable pub trim : Text → Text
unfolding trim_start trim_end
trim s = trim_end (trim_start s)

-- `if (!current.empty()) tokens.push_back(current);`
unfoldable pub push_token : Text → List Text → List Text
push_token [] tokens = tokens
push_token (c ∷ s) tokens = tokens ++ (c ∷ s) ∷ []

-- The rounds of `std::getline`, with the token read so far.
unfoldable pub split_loop : ℕ → Text → Text → List Text → List Text
unfolding push_token
split_loop delimiter [] token tokens = push_token token tokens
split_loop delimiter (c ∷ s) token tokens = elim (c == delimiter) [
  | true ↦ split_loop delimiter s [] (push_token token tokens)
  | false ↦ split_loop delimiter s (token ++ c ∷ []) tokens
]

unfoldable pub split : ℕ → Text → List Text
unfolding split_loop
split delimiter s = split_loop delimiter s [] []

-- The variables of `tokenize`. `quote` is `quote_char` while `in_quotes` is set.
pub record Lexer : Type 0 where
  pub tokens : List Text
  pub current : Text
  pub quote : Option ℕ

-- A round outside quotes, and one inside.
unfoldable pub lex_plain : ℕ → Lexer → Lexer
unfolding push_token is_space
lex_plain c l =
    if c == 34 || c == 39
    then record l { quote = some c }
    else if is_space c
    then record l { tokens = push_token l.current l.tokens; current = [] }
    else record l { current = l.current ++ c ∷ [] }

unfoldable pub lex_quoted : ℕ → ℕ → Lexer → Lexer
lex_quoted q c l =
    if c == q then record l { quote = none } else record l { current = l.current ++ c ∷ [] }

unfoldable pub lex_step : Lexer → ℕ → Lexer
unfolding lex_plain lex_quoted
lex_step l c = elim (l.quote) [ none ↦ lex_plain c l | some q ↦ lex_quoted q c l ]

unfoldable pub lex : Text → Lexer → Lexer
unfolding lex_step
lex [] l = l
lex (c ∷ s) l = lex s (lex_step l c)

unfoldable pub tokenize : Text → List Text
unfolding lex push_token
tokenize input =
    let l = lex input (record { tokens = []; current = []; quote = none }) in
    push_token l.current l.tokens

unfoldable pub starts_with : Text → Text → Bool
starts_with s [] = true
starts_with [] (p ∷ prefix) = false
starts_with (c ∷ s) (p ∷ prefix) = c == p && starts_with s prefix

-- `join` of the parts behind the first.
unfoldable pub join_rest : Text → List Text → Text
join_rest delimiter [] = []
join_rest delimiter (p ∷ parts) = delimiter ++ (p ++ join_rest delimiter parts)

unfoldable pub join : Text → List Text → Text
unfolding join_rest
join delimiter [] = []
join delimiter (p ∷ parts) = p ++ join_rest delimiter parts
