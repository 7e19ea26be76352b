-- ===== src/Cli/OutputFormatter/Json.antt =====
-- The strings that tools/cli/src/output_formatter.cpp writes in JSON mode, read by the grammar of
-- strings in RFC 8259.
use nexus_d_pub_sub.Prelude.{
  ℕ, zero, suc, ◌+◌, ◌-◌, ◌*◌, ◌/◌, ◌%◌, ◌<◌, ◌≡◌, refl, ap, ◌∙◌, ◌&&◌, [], ◌∷◌, ◌++◌, Option, none,
  some, Text, ltb, leb, ◌==◌, if◌then◌else◌, arith,
}
use mathlib.Core.List.{append_assoc, append-nil}
use nexus_d_pub_sub.Cli.OutputFormatter.{hex_digit, escape_char, escape_json_string}

-- A reader behind the opening quote, with the characters read so far: between characters, behind a
-- backslash, in the digits of `\\u`, behind the closing quote with what follows it, or at an error.
pub data Reader : Type 0 where
  plain : Text → Reader
  escaped : Text → Reader
  hex : ℕ → ℕ → Text → Reader
  closed : Text → Text → Reader
  bad : Reader

abbrev hex_value : ℕ → Option ℕ
hex_value c =
    if leb 48 c && leb c 57
    then some (c - 48)
    else if leb 97 c && leb c 102
    then some (c - 87)
    else if leb 65 c && leb c 70
    then some (c - 55)
    else none

read_plain : Text → ℕ → Reader
read_plain out c =
    if c == 34
    then closed out []
    else if c == 92
    then escaped out
    else if ltb c 32
    then bad
    else plain (out ++ c ∷ [])

read_escaped : Text → ℕ → Reader
read_escaped out c =
    if c == 34
    then plain (out ++ 34 ∷ [])
    else if c == 92
    then plain (out ++ 92 ∷ [])
    else if c == b'/'
    then plain (out ++ b'/' ∷ [])
    else if c == b'b'
    then plain (out ++ 8 ∷ [])
    else if c == b'f'
    then plain (out ++ 12 ∷ [])
    else if c == b'n'
    then plain (out ++ 10 ∷ [])
    else if c == b'r'
    then plain (out ++ 13 ∷ [])
    else if c == b't'
    then plain (out ++ 9 ∷ [])
    else if c == b'u'
    then hex 3 0 out
    else bad

-- A code point below 128 is one byte; a larger one is an error here.
read_hex : ℕ → ℕ → Text → Option ℕ → Reader
read_hex n value out none = bad
read_hex zero value out (some d) =
    if ltb (value * 16 + d) 128 then plain (out ++ (value * 16 + d) ∷ []) else bad
read_hex (suc n) value out (some d) = hex n (value * 16 + d) out

read_step : Reader → ℕ → Reader
unfolding read_plain read_escaped read_hex
read_step (plain out) c = read_plain out c
read_step (escaped out) c = read_escaped out c
read_step (hex n value out) c = read_hex n value out (hex_value c)
read_step (closed out rest) c = closed out (rest ++ c ∷ [])
read_step bad c = bad

pub read : Text → Reader → Reader
unfolding read_step
read [] r = r
read (c ∷ s) r = read s (read_step r c)

read-append : (s t : Text) (r : Reader) → read (s ++ t) r ≡ read t (read s r)
unfolding read
read-append [] t r = refl
read-append (c ∷ s) t r = read-append s t (read_step r c)

hex_value-hex_digit : (d : ℕ) → d < 16 → hex_value (hex_digit d) ≡ some d
unfolding hex_digit
hex_value-hex_digit d h = ground arith

-- What `\\u00` and two digits stand for.
read_control :
    (c : ℕ) (out : Text)
    → c < 32
    → read (92 ∷ b'u' ∷ 48 ∷ 48 ∷ hex_digit (c / 16) ∷ hex_digit (c % 16) ∷ []) (plain out)
      ≡ plain (out ++ c ∷ [])
unfolding read
read_control c out h =
    rw (hex_value-hex_digit (c / 16) (omega arith), hex_value-hex_digit (c % 16) (omega arith))
      (ground arith)

read-escape_char : (c : ℕ) (out : Text) → read (escape_char c) (plain out) ≡ plain (out ++ c ∷ [])
unfolding read escape_char
read-escape_char c out = ground (arith, read_control c out)

read-escape : (s out : Text) → read (escape_json_string s) (plain out) ≡ plain (out ++ s)
unfolding escape_json_string read
read-escape [] out = rw append-nil refl
read-escape (c ∷ s) out =
    read-append (escape_char c) (escape_json_string s) (plain out)
    ∙ ap (read (escape_json_string s)) (read-escape_char c out)
    ∙ read-escape s (out ++ c ∷ [])
    ∙ ap plain (append_assoc out (c ∷ []) s)

read_closed : (s out rest : Text) → read s (closed out rest) ≡ closed out (rest ++ s)
unfolding read
read_closed [] out rest = rw append-nil refl
read_closed (c ∷ s) out rest =
    read_closed s out (rest ++ c ∷ []) ∙ ap (closed out) (append_assoc rest (c ∷ []) s)

-- Whatever its bytes are, a string that is escaped and put between quotes is read back by a JSON
-- reader, which stops at the closing quote: what is written behind it is not touched.
pub read-escape_json_string :
    (s rest : Text) → read (escape_json_string s ++ 34 ∷ rest) (plain []) ≡ closed s rest
unfolding read
read-escape_json_string s rest =
    read-append (escape_json_string s) (34 ∷ rest) (plain [])
    ∙ ap (read (34 ∷ rest)) (read-escape s [])
    ∙ read_closed rest s []
