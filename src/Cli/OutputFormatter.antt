-- ===== src/Cli/OutputFormatter.antt =====
-- tools/cli/src/output_formatter.cpp. A method gives what it writes; `print_error` writes to stderr
-- where the mode is not JSON.
pub mod Json
use nexus_d_pub_sub.Prelude.{
  ℕ, zero, suc, ◌+◌, ◌-◌, ◌/◌, ◌%◌, Bool, true, false, List, [], ◌∷◌, ◌++◌, map, Text, codes,
  length, ltb, ◌==◌, if◌then◌else◌, to_string,
}
use nexus_d_pub_sub.Prelude.Int.{ℤ}
use nexus_d_pub_sub.Prelude.Numbers.{to_string_ℤ}

-- A line of text with what ends it.
abbrev newline : Text
newline = 10 ∷ []

-- A digit of `%x`.
unfoldable pub hex_digit : ℕ → ℕ
hex_digit d = if ltb d 10 then 48 + d else 87 + d

-- The `switch` of `escape_json_string`.
unfoldable pub escape_char : ℕ → Text
escape_char c =
    if c == 34
    then 92 ∷ 34 ∷ []
    else if c == 92
    then 92 ∷ 92 ∷ []
    else if c == 8
    then 92 ∷ b'b' ∷ []
    else if c == 12
    then 92 ∷ b'f' ∷ []
    else if c == 10
    then 92 ∷ b'n' ∷ []
    else if c == 13
    then 92 ∷ b'r' ∷ []
    else if c == 9
    then 92 ∷ b't' ∷ []
    else if ltb c 32
    then 92 ∷ b'u' ∷ 48 ∷ 48 ∷ hex_digit (c / 16) ∷ hex_digit (c % 16) ∷ []
    else c ∷ []

unfoldable pub escape_json_string : Text → Text
unfolding escape_char
escape_json_string [] = []
escape_json_string (c ∷ s) = escape_char c ++ escape_json_string s

abbrev pub json_string : Text → Text
json_string s = 34 ∷ escape_json_string s ++ 34 ∷ []

unfoldable pub print_ok : Bool → Text
print_ok true = codes "{\"status\":\"OK\"}\n"
print_ok false = codes "OK\n"

unfoldable pub print_ok_message : Bool → Text → Text
unfolding escape_json_string
print_ok_message true message =
    codes "{\"status\":\"OK\",\"message\":" ++ (json_string message ++ codes "}\n")
print_ok_message false message = codes "OK: " ++ (message ++ newline)

-- stdout and stderr.
unfoldable pub print_error : Bool → Text → Text × Text
unfolding escape_json_string
print_error true message = (codes "{\"error\":" ++ (json_string message ++ codes "}\n"), [])
print_error false message = ([], codes "(error) " ++ (message ++ newline))

unfoldable pub print_nil : Bool → Text
print_nil true = codes "null\n"
print_nil false = codes "(nil)\n"

unfoldable pub print_integer : Bool → ℤ → Text
unfolding to_string_ℤ
print_integer true value = to_string_ℤ value ++ newline
print_integer false value = codes "(integer) " ++ (to_string_ℤ value ++ newline)

unfoldable pub print_string : Bool → Text → Text
unfolding escape_json_string
print_string true value = json_string value ++ newline
print_string false value = 34 ∷ value ++ (34 ∷ newline)

unfoldable pub print_bulk_string : Bool → Text → Text
unfolding escape_json_string
print_bulk_string true value = json_string value ++ newline
print_bulk_string false value = value ++ newline

-- The elements with a comma before each but the first.
unfoldable pub comma_rest : List Text → Text
comma_rest [] = []
comma_rest (item ∷ items) = b',' ∷ item ++ comma_rest items

unfoldable pub commas : List Text → Text
unfolding comma_rest
commas [] = []
commas (item ∷ items) = item ++ comma_rest items

-- The padding of `std::setw(n)` on either side.
unfoldable pub spaces : ℕ → Text
spaces zero = []
spaces (suc n) = 32 ∷ spaces n

abbrev pub pad_left : ℕ → Text → Text
pad_left width s = spaces (width - length s) ++ s

abbrev pub pad_right : ℕ → Text → Text
pad_right width s = s ++ spaces (width - length s)

-- `std::setw` pads on the left until some code writes `std::left` to the stream, which stays set.
unfoldable pub pad : Bool → ℕ → Text → Text
unfolding spaces
pad true width s = pad_right width s
pad false width s = pad_left width s

-- The numbered lines of `print_array`, from `i + 1` on; the flag says whether `std::left` is set.
unfoldable pub numbered : Bool → ℕ → List Text → Text
unfolding to_string pad
numbered left i [] = []
numbered left i (item ∷ items) =
    pad left 3 (to_string (i + 1))
    ++ (codes ") " ++ (item ++ (newline ++ numbered left (i + 1) items)))

unfoldable pub print_array : Bool → Bool → List Text → Text
unfolding commas numbered escape_json_string
print_array true left items = b'[' ∷ commas (map json_string items) ++ codes "]\n"
print_array false left [] = codes "(empty array)\n"
print_array false left (item ∷ items) = numbered left 0 (item ∷ items)

abbrev pub json_pair : Text × Text → Text
json_pair (key, value) = json_string key ++ (b':' ∷ json_string value)

unfoldable pub print_key_value : Bool → Text → Text → Text
unfolding escape_json_string
print_key_value true key value = b'{' ∷ json_pair (key, value) ++ codes "}\n"
print_key_value false key value = key ++ (codes ": " ++ (value ++ newline))

abbrev pub max : ℕ → ℕ → ℕ
max a b = if ltb a b then b else a

unfoldable pub max_key_length : List (Text × Text) → ℕ → ℕ
max_key_length [] longest = longest
max_key_length ((key, value) ∷ pairs) longest = max_key_length pairs (max longest (length key))

unfoldable pub key_lines : ℕ → List (Text × Text) → Text
unfolding spaces
key_lines width [] = []
key_lines width ((key, value) ∷ pairs) =
    pad_right (width + 1) (key ++ b':' ∷ []) ++ (32 ∷ value ++ (newline ++ key_lines width pairs))

unfoldable pub print_key_values : Bool → List (Text × Text) → Text
unfolding commas max_key_length key_lines escape_json_string
print_key_values true pairs = b'{' ∷ commas (map json_pair pairs) ++ codes "}\n"
print_key_values false pairs = key_lines (max_key_length pairs 0) pairs

-- `widths[i] = max(widths[i], cells[i].size())` for the columns that both have.
unfoldable pub widen : List ℕ → List Text → List ℕ
widen [] cells = []
widen (w ∷ widths) [] = w ∷ widths
widen (w ∷ widths) (cell ∷ cells) = max w (length cell) ∷ widen widths cells

unfoldable pub widen_all : List ℕ → List (List Text) → List ℕ
unfolding widen
widen_all widths [] = widths
widen_all widths (row ∷ rows) = widen_all (widen widths row) rows

unfoldable pub calculate_column_widths : List Text → List (List Text) → List ℕ
unfolding widen_all
calculate_column_widths headers rows = widen_all (map length headers) rows

-- The cells of a row that have a width, each in its column.
unfoldable pub print_cells : List ℕ → List Text → Text
unfolding spaces
print_cells [] cells = []
print_cells (w ∷ widths) [] = []
print_cells (w ∷ widths) (cell ∷ cells) = pad_right (w + 2) cell ++ print_cells widths cells

unfoldable pub print_rows : List ℕ → List (List Text) → Text
unfolding print_cells
print_rows widths [] = []
print_rows widths (row ∷ rows) = print_cells widths row ++ (newline ++ print_rows widths rows)

unfoldable pub dashes : ℕ → Text
dashes zero = []
dashes (suc n) = b'-' ∷ dashes n

unfoldable pub separator : List ℕ → Text
unfolding dashes
separator [] = []
separator (w ∷ widths) = dashes w ++ (32 ∷ 32 ∷ separator widths)

-- The pairs of a header and the cell under it, as far as there are both.
unfoldable pub json_row : List Text → List Text → List Text
unfolding escape_json_string
json_row [] cells = []
json_row (header ∷ headers) [] = []
json_row (header ∷ headers) (cell ∷ cells) = json_pair (header, cell) ∷ json_row headers cells

unfoldable pub print_table : Bool → List Text → List (List Text) → Text
unfolding commas json_row calculate_column_widths print_cells separator print_rows
print_table true headers rows =
    b'[' ∷ commas (map (λ row. b'{' ∷ commas (json_row headers row) ++ b'}' ∷ []) rows)
    ++ codes "]\n"
print_table false headers [] = codes "(empty list)\n"
print_table false headers (row ∷ rows) =
    let widths = calculate_column_widths headers (row ∷ rows) in
    print_cells widths headers
    ++ (newline ++ (separator widths ++ (newline ++ print_rows widths (row ∷ rows))))
