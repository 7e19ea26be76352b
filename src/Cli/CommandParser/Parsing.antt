-- ===== src/Cli/CommandParser/Parsing.antt =====
-- How tools/cli/src/command_parser.cpp reads a line that was written from a command and arguments.
use mathlib.Core.List.{append-nil}
use nexus_d_pub_sub.Prelude.{
  ℕ, ◌≡◌, ◌≢◌, refl, sym, ap, subst, ◌∙◌, true, false, ◌||◌, List, [], ◌∷◌, ◌++◌, map, some, Text,
  ◌==◌, arith, All, last?,
}
use nexus_d_pub_sub.Prelude.Numbers.{is_space}
use nexus_d_pub_sub.Cli.StringUtils.{
  trim, trim_start, trim_end, is_blank, is_empty, tokenize, join, join_rest, to_upper,
}
use nexus_d_pub_sub.Cli.StringUtils.Arguments.{
  Argument, bare, quoted, word, spelt, IsPlain, IsArgument, tokenize-join,
}
use nexus_d_pub_sub.Cli.CommandParser.{
  CommandParser, parse, parse_tokens, with_arguments, resolve_alias,
}

-- A text that ends in a character that `trim` keeps.
EndsPlain : Text → Type 0
EndsPlain s = (c : ℕ) × (last? s ≡ some c) × (is_blank c ≡ false)

last?-append : (xs ys : Text) (c : ℕ) → last? ys ≡ some c → last? (xs ++ ys) ≡ some c
last?-append [] ys c h = h
last?-append (x ∷ []) [] c h = cc
last?-append (x ∷ []) (y ∷ ys) c h = h
last?-append (x ∷ x' ∷ xs) ys c h = last?-append (x' ∷ xs) ys c h

append-EndsPlain : (xs ys : Text) → EndsPlain ys → EndsPlain (xs ++ ys)
unfolding EndsPlain
append-EndsPlain xs ys (c, e, b) = (c, last?-append xs ys c e, b)

IsPlain-is_blank : (c : ℕ) → IsPlain c → is_blank c ≡ false
unfolding is_blank is_space
IsPlain-is_blank c p = ground arith

is_quote-is_blank : (q : ℕ) → (q == 34 || q == 39) ≡ true → is_blank q ≡ false
unfolding is_blank
is_quote-is_blank q h = ground arith

bare-EndsPlain : (w : Text) → All IsPlain w → w ≢ [] → EndsPlain w
unfolding EndsPlain
bare-EndsPlain [] p h = absurd (h refl)
bare-EndsPlain (c ∷ []) p h = (c, refl, IsPlain-is_blank c p.0)
bare-EndsPlain (c ∷ d ∷ w) p h = bare-EndsPlain (d ∷ w) p.1 (cc)

spelt-EndsPlain : (a : Argument) → IsArgument a → EndsPlain (spelt a)
unfolding EndsPlain
spelt-EndsPlain (bare w) h = bare-EndsPlain w h.0 h.1
spelt-EndsPlain (quoted q w) h =
    append-EndsPlain (q ∷ w) (q ∷ []) (q, refl, is_quote-is_blank q h.2)

-- An argument begins with a character that `trim` keeps.
spelt_start :
    (a : Argument) → IsArgument a → (c : ℕ) × (s : Text) × (spelt a ≡ c ∷ s) × (is_blank c ≡ false)
spelt_start (bare []) h = absurd (h.1 refl)
spelt_start (bare (c ∷ w)) h = (c, w, refl, IsPlain-is_blank c h.0.0)
spelt_start (quoted q w) h = (q, w ++ q ∷ [], refl, is_quote-is_blank q h.2)

join-EndsPlain :
    (a : Argument) (args : List Argument)
    → IsArgument a
    → All IsArgument args
    → EndsPlain (join (32 ∷ []) (map spelt (a ∷ args)))
unfolding join join_rest
join-EndsPlain a [] h hs = subst EndsPlain (sym (append-nil (spelt a))) (spelt-EndsPlain a h)
join-EndsPlain a (b ∷ args) h hs =
    append-EndsPlain (spelt a) (32 ∷ join (32 ∷ []) (map spelt (b ∷ args))) (
      append-EndsPlain (32 ∷ []) (join (32 ∷ []) (map spelt (b ∷ args)))
        (join-EndsPlain b args hs.0 hs.1))

trim_end_lem : (s : Text) (c : ℕ) → last? s ≡ some c → is_blank c ≡ false → trim_end s ≡ s
unfolding trim_end is_empty
trim_end_lem [] c e b = cc
trim_end_lem (x ∷ []) c e b = ground arith
trim_end_lem (x ∷ y ∷ s) c e b = ground (arith, trim_end_lem (y ∷ s) c)

trim_start_lem : (c : ℕ) (s : Text) → is_blank c ≡ false → trim_start (c ∷ s) ≡ c ∷ s
unfolding trim_start
trim_start_lem c s b = ground arith

-- `trim` finds nothing to take off.
trim-join :
    (a : Argument) (args : List Argument)
    → IsArgument a
    → All IsArgument args
    → trim (join (32 ∷ []) (map spelt (a ∷ args))) ≡ join (32 ∷ []) (map spelt (a ∷ args))
unfolding trim join EndsPlain
trim-join a args h hs =
    let rest = join_rest (32 ∷ []) (map spelt args) in
    let (c, s, e, b) = spelt_start a h in
    let (d, last, b') = join-EndsPlain a args h hs in
    let start : trim_start (spelt a ++ rest) ≡ spelt a ++ rest =
      subst (λ t. trim_start (t ++ rest) ≡ t ++ rest) (sym e) (trim_start_lem c (s ++ rest) b) in
    ap trim_end start ∙ trim_end_lem (spelt a ++ rest) d last b'

-- A command with any arguments that are not empty, each bare or in quotes, on one line: `parse`
-- returns the command in capitals with its alias resolved and the arguments as they are, after the
-- subcommand in capitals where the first of them is one.
pub parse-join :
    {H : Type 0} (p : CommandParser H) (a : Argument) (args : List Argument)
    → IsArgument a
    → All IsArgument args
    → parse (join (32 ∷ []) (map spelt (a ∷ args))) p
      ≡ with_arguments (resolve_alias (to_upper (word a)) p) (map word args) p
unfolding parse parse_tokens
parse-join p a args h hs =
    ap (λ t. parse_tokens (tokenize t) p) (trim-join a args h hs)
    ∙ ap (λ ts. parse_tokens ts p) (tokenize-join (a ∷ args) (h, hs))
