-- ===== src/Cli/StringUtils/Arguments.antt =====
-- Arguments as a user writes them on a line of tools/cli, bare or quoted, and what `tokenize` of
-- tools/cli/src/utils/string_utils.hpp makes of them.
use mathlib.Core.List.{append_assoc, append-nil}
use nexus_d_pub_sub.Prelude.{
  ℕ, ◌≡◌, ◌≢◌, refl, ap, ◌∙◌, true, false, ◌||◌, List, [], ◌∷◌, ◌++◌, map, Option, none, some, Text,
  ◌==◌, arith, All,
}
use nexus_d_pub_sub.Prelude.Numbers.{is_space}
use nexus_d_pub_sub.Cli.StringUtils.{
  Lexer, lex, lex_step, lex_plain, lex_quoted, push_token, tokenize, join, join_rest,
}

-- An argument and how it is written.
pub data Argument : Type 0 where
  bare : Text → Argument
  quoted : ℕ → Text → Argument

abbrev pub word : Argument → Text
word (bare w) = w
word (quoted q w) = w

abbrev pub spelt : Argument → Text
spelt (bare w) = w
spelt (quoted q w) = q ∷ w ++ q ∷ []

-- A character that stands for itself outside quotes.
abbrev pub IsPlain : ℕ → Type 0
IsPlain c = (is_space c ≡ false) × (c ≢ 34) × (c ≢ 39)

-- The argument is not empty. Bare it has no space and no quote; in quotes, single or double, it does
-- not have its own quote.
abbrev pub IsArgument : Argument → Type 0
IsArgument (bare w) = All IsPlain w × (w ≢ [])
IsArgument (quoted q w) = All (λ c. c ≢ q) w × (w ≢ []) × ((q == 34 || q == 39) ≡ true)

abbrev lexer : List Text → Text → Option ℕ → Lexer
lexer tokens current quote = record { tokens = tokens; current = current; quote = quote }

lex_step_plain :
    (c : ℕ) (tokens : List Text) (current : Text)
    → IsPlain c
    → lex_step (lexer tokens current none) c ≡ lexer tokens (current ++ c ∷ []) none
unfolding lex_step lex_plain
lex_step_plain c tokens current p = ground arith

lex_step_quoted :
    (c q : ℕ) (tokens : List Text) (current : Text)
    → c ≢ q
    → lex_step (lexer tokens current (some q)) c ≡ lexer tokens (current ++ c ∷ []) (some q)
unfolding lex_step lex_quoted
lex_step_quoted c q tokens current p = ground arith

lex_bare :
    (w s : Text) (tokens : List Text) (current : Text)
    → All IsPlain w
    → lex (w ++ s) (lexer tokens current none) ≡ lex s (lexer tokens (current ++ w) none)
unfolding lex
lex_bare [] s tokens current p = rw append-nil refl
lex_bare (c ∷ w) s tokens current p =
    ap (lex (w ++ s)) (lex_step_plain c tokens current p.0)
    ∙ (lex_bare w s tokens (current ++ c ∷ []) p.1
        ∙ ap (λ t. lex s (lexer tokens t none)) (append_assoc current (c ∷ []) w))

lex_inside :
    (q : ℕ) (w s : Text) (tokens : List Text) (current : Text)
    → All (λ c. c ≢ q) w
    → lex (w ++ s) (lexer tokens current (some q)) ≡ lex s (lexer tokens (current ++ w) (some q))
unfolding lex
lex_inside q [] s tokens current p = rw append-nil refl
lex_inside q (c ∷ w) s tokens current p =
    ap (lex (w ++ s)) (lex_step_quoted c q tokens current p.0)
    ∙ (lex_inside q w s tokens (current ++ c ∷ []) p.1
        ∙ ap (λ t. lex s (lexer tokens t (some q))) (append_assoc current (c ∷ []) w))

lex_open :
    (q : ℕ) (tokens : List Text) (current : Text)
    → (q == 34 || q == 39) ≡ true
    → lex_step (lexer tokens current none) q ≡ lexer tokens current (some q)
unfolding lex_step lex_plain
lex_open q tokens current h = ground arith

lex_close :
    (q : ℕ) (tokens : List Text) (current : Text)
    → lex_step (lexer tokens current (some q)) q ≡ lexer tokens current none
unfolding lex_step lex_quoted
lex_close q tokens current = ground arith

-- An argument is read as its word, whatever follows.
lex_argument :
    (a : Argument) (s : Text) (tokens : List Text) (current : Text)
    → IsArgument a
    → lex (spelt a ++ s) (lexer tokens current none) ≡ lex s (lexer tokens (current ++ word a) none)
unfolding lex
lex_argument (bare w) s tokens current h = lex_bare w s tokens current h.0
lex_argument (quoted q w) s tokens current h =
    ap (lex ((w ++ q ∷ []) ++ s)) (lex_open q tokens current h.2)
    ∙ (ap (λ t. lex t (lexer tokens current (some q))) (append_assoc w (q ∷ []) s)
        ∙ lex_inside q w (q ∷ s) tokens current h.0
        ∙ ap (lex s) (lex_close q tokens (current ++ w)))

lex_space :
    (tokens : List Text) (current : Text)
    → lex_step (lexer tokens current none) 32 ≡ lexer (push_token current tokens) [] none
unfolding lex_step lex_plain is_space
lex_space tokens current = refl

push_token_word : (w : Text) (tokens : List Text) → w ≢ [] → push_token w tokens ≡ tokens ++ w ∷ []
unfolding push_token
push_token_word [] tokens h = absurd (h refl)
push_token_word (c ∷ w) tokens h = refl

word-ne-nil : (a : Argument) → IsArgument a → word a ≢ []
word-ne-nil (bare w) h = h.1
word-ne-nil (quoted q w) h = h.1

-- What `tokenize` does behind the loop.
abbrev finish : Lexer → List Text
finish l = push_token l.current l.tokens

lex_rest :
    (args : List Argument) (w : Text) (tokens : List Text)
    → w ≢ []
    → All IsArgument args
    → finish (lex (join_rest (32 ∷ []) (map spelt args)) (lexer tokens w none))
      ≡ tokens ++ w ∷ map word args
unfolding lex join_rest
lex_rest [] w tokens h hs = push_token_word w tokens h
lex_rest (a ∷ args) w tokens h hs =
    let s = join_rest (32 ∷ []) (map spelt args) in
    ap (λ l. finish (lex (spelt a ++ s) l)) (lex_space tokens w)
    ∙ (ap (λ ts. finish (lex (spelt a ++ s) (lexer ts [] none))) (push_token_word w tokens h)
        ∙ ap finish (lex_argument a s (tokens ++ w ∷ []) [] hs.0)
        ∙ lex_rest args (word a) (tokens ++ w ∷ []) (word-ne-nil a hs.0) hs.1
        ∙ append_assoc tokens (w ∷ []) (word a ∷ map word args))

-- Any arguments that are not empty, bare or in quotes, written one after another with a space
-- between them, are read back in order: spaces and the other quote inside quotes are kept.
pub tokenize-join :
    (args : List Argument)
    → All IsArgument args
    → tokenize (join (32 ∷ []) (map spelt args)) ≡ map word args
unfolding tokenize join
tokenize-join [] h = refl
tokenize-join (a ∷ args) h =
    let s = join_rest (32 ∷ []) (map spelt args) in
    ap finish (lex_argument a s [] [] h.0) ∙ lex_rest args (word a) [] (word-ne-nil a h.0) h.1
