-- ===== src/Prelude/Numbers.antt =====
-- `std::stoi`, `std::stoll`, `std::stoul`, `std::stoull` and the casts of their results, with the
-- exceptions that they throw. `int` has 32 bits, `long` and `long long` have 64.
use Prim.Native.Nat.{ℕ, zero, suc, ◌+◌, ◌-◌, ◌*◌, ◌/◌, ◌%◌, ◌^◌, ◌≤◌, ◌<◌}
use mathlib.Core.Bool.{Bool, true, false, ◌&&◌, ◌||◌}
use mathlib.Core.List.{[], ◌∷◌}
use mathlib.Core.Option.{Option, none, some}
use mathlib.Core.Path.{◌≡◌}
use native.Mathlib.Decide.{dec_lt}
use native.Mathlib.Omega.{arith}
use nexus_d_pub_sub.Prelude.Bytes.{Text, digits, to_string}
use nexus_d_pub_sub.Prelude.Int.{ℤ, pos, negsuc}
use nexus_d_pub_sub.Prelude.Tests.{ltb, leb, ◌==◌, if◌then◌else◌}

pub data Exception : Type 0 where
  invalid_argument out_of_range runtime_error : Exception

-- What a call gives that may throw.
pub data Result {ℓ} (A : Type ℓ) : Type ℓ where
  ok : A → Result A
  throw : Exception → Result A

infixl 5 ◌>>=◌
abbrev pub ◌>>=◌ {ℓ κ} : {A : Type ℓ} {B : Type κ} → Result A → (A → Result B) → Result B
ok a >>= f = f a
throw e >>= f = throw e

-- `std::isspace`, in the C locale.
unfoldable pub is_space : ℕ → Bool
is_space c = c == 32 || leb 9 c && leb c 13

unfoldable pub is_digit : ℕ → Bool
is_digit c = leb 48 c && leb c 57

unfoldable pub skip_spaces : Text → Text
unfolding is_space
skip_spaces [] = []
skip_spaces (c ∷ s) = if is_space c then skip_spaces s else c ∷ s

-- The number that the digits at the front spell, behind those read before. What follows them is
-- ignored.
unfoldable pub number : ℕ → Text → ℕ
unfolding is_digit
number n [] = n
number n (c ∷ s) = if is_digit c then number (n * 10 + (c - 48)) s else n

-- `none` where there is no digit.
unfoldable pub magnitude : Text → Option ℕ
unfolding is_digit number
magnitude [] = none
magnitude (c ∷ s) = if is_digit c then some (number 0 (c ∷ s)) else none

-- The sign, true for a minus, and the text behind it.
unfoldable pub sign : Text → Bool × Text
sign [] = (false, [])
sign (c ∷ s) = if c == b'-' then (true, s) else if c == b'+' then (false, s) else (false, c ∷ s)

abbrev signed : Bool → ℕ → ℤ
signed false n = pos n
signed true zero = pos 0
signed true (suc n) = negsuc n

-- A signed conversion to `w` bits.
unfoldable pub signed_of : ℕ → Bool → Option ℕ → Result ℤ
signed_of w minus none = throw invalid_argument
signed_of w minus (some n) =
    if minus
    then if leb n (2 ^ (w - 1)) then ok (signed true n) else throw out_of_range
    else if ltb n (2 ^ (w - 1))
    then ok (pos n)
    else throw out_of_range

-- A conversion to `unsigned long`. A minus negates modulo 2^64.
unfoldable pub unsigned_of : Bool → Option ℕ → Result ℕ
unsigned_of minus none = throw invalid_argument
unsigned_of minus (some n) =
    if ltb n (2 ^ 64) then ok (if minus then (2 ^ 64 - n) % 2 ^ 64 else n) else throw out_of_range

unfoldable pub stoi : Text → Result ℤ
unfolding signed_of sign magnitude skip_spaces
stoi s = let (minus, digits) = sign (skip_spaces s) in signed_of 32 minus (magnitude digits)

unfoldable pub stoll : Text → Result ℤ
unfolding signed_of sign magnitude skip_spaces
stoll s = let (minus, digits) = sign (skip_spaces s) in signed_of 64 minus (magnitude digits)

unfoldable pub stoull : Text → Result ℕ
unfolding unsigned_of sign magnitude skip_spaces
stoull s = let (minus, digits) = sign (skip_spaces s) in unsigned_of minus (magnitude digits)

-- `static_cast<uint16_t>` of an `int`.
unfoldable pub to_u16 : ℤ → ℕ
to_u16 (pos n) = n % 65536
to_u16 (negsuc n) = 65535 - n % 65536

-- `static_cast<uint32_t>` of an unsigned number.
abbrev pub to_u32 : ℕ → ℕ
to_u32 n = n % 2 ^ 32

-- `std::to_string` of a signed number.
unfoldable pub to_string_ℤ : ℤ → Text
unfolding to_string
to_string_ℤ (pos n) = to_string n
to_string_ℤ (negsuc n) = b'-' ∷ to_string (suc n)

-- The scan takes back the digits that `to_string` writes.
number-digits : (fuel n : ℕ) (acc : Text) → n < fuel → number 0 (digits fuel n acc) ≡ number n acc
unfolding number digits
number-digits zero n acc h = elim h [ ]
number-digits (suc fuel) n acc h = elim (dec_lt n 10) [
  | yes p ↦ ground arith
  | no p ↦ ground (arith, number-digits fuel (n / 10) ((48 + n % 10) ∷ acc))
]

-- `digits` writes at least one digit, and first the leading one.
digits_head :
    (fuel n : ℕ) (acc : Text)
    → n < fuel
    → (c : ℕ) × (s : Text) × (digits fuel n acc ≡ c ∷ s) × (48 ≤ c) × (c ≤ 57)
unfolding digits
digits_head zero n acc h = elim h [ ]
digits_head (suc fuel) n acc h = elim (dec_lt n 10) [
  | yes p ↦ (48 + n, acc, ground arith, omega arith, omega arith)
  | no p ↦
      let (c, s, e, lo, hi) = digits_head fuel (n / 10) ((48 + n % 10) ∷ acc) (omega arith) in
      (c, s, ground arith, lo, hi)
]

-- A text that begins with a digit has no sign to read.
number_front :
    (s t : Text) (c n : ℕ)
    → s ≡ c ∷ t
    → 48 ≤ c
    → c ≤ 57
    → number 0 s ≡ n
    → (sign (skip_spaces s) ≡ (false, s)) × (magnitude s ≡ some n)
unfolding sign skip_spaces magnitude
number_front s t c n e lo hi h = ground arith

to_string_front :
    (n : ℕ)
    → (sign (skip_spaces (to_string n)) ≡ (false, to_string n)) × (magnitude (to_string n) ≡ some n)
unfolding to_string number
to_string_front n =
    let (c, s, e, lo, hi) = digits_head (suc n) n [] (omega arith) in
    number_front (digits (suc n) n []) s c n e lo hi (number-digits (suc n) n [] (omega arith))

-- Numbers are read back from their decimal print.
pub stoi-to_string : (n : ℕ) → n < 2147483648 → stoi (to_string n) ≡ ok (pos n)
unfolding stoi signed_of
stoi-to_string n h = rw ((to_string_front n).0) (ground (arith, to_string_front n))

pub stoull-to_string : (n : ℕ) → n < 2 ^ 64 → stoull (to_string n) ≡ ok n
unfolding stoull unsigned_of
stoull-to_string n h = rw ((to_string_front n).0) (ground (arith, to_string_front n))

abbrev pub Fits64 : ℤ → Type 0
Fits64 (pos n) = n < 2 ^ 63
Fits64 (negsuc n) = n < 2 ^ 63

pub stoll-to_string_ℤ : (n : ℤ) → Fits64 n → stoll (to_string_ℤ n) ≡ ok n
unfolding stoll signed_of to_string_ℤ sign skip_spaces is_space
stoll-to_string_ℤ (pos n) h = rw ((to_string_front n).0) (ground (arith, to_string_front n))
stoll-to_string_ℤ (negsuc n) h = ground (arith, to_string_front (suc n))

-- What a conversion returns fits the type that it returns.
signed_of-Fits64 : (minus : Bool) (o : Option ℕ) (n : ℤ) → signed_of 64 minus o ≡ ok n → Fits64 n
unfolding signed_of
signed_of-Fits64 minus none n h = cc
signed_of-Fits64 false (some m) n h = ground arith
signed_of-Fits64 true (some zero) n h = ground arith
signed_of-Fits64 true (some (suc m)) n h = ground arith

pub stoll-Fits64 : (s : Text) (n : ℤ) → stoll s ≡ ok n → Fits64 n
unfolding stoll
stoll-Fits64 s n h =
    signed_of-Fits64 (sign (skip_spaces s)).0 (magnitude (sign (skip_spaces s)).1) n h

pub stoull-lt : (s : Text) (n : ℕ) → stoull s ≡ ok n → n < 2 ^ 64
unfolding stoull unsigned_of
stoull-lt s n h = unsigned_of-lt (sign (skip_spaces s)).0 (magnitude (sign (skip_spaces s)).1) n h
  where
    unsigned_of-lt : (minus : Bool) (o : Option ℕ) (n : ℕ) → unsigned_of minus o ≡ ok n → n < 2 ^ 64
    unsigned_of-lt minus none n h = cc
    unsigned_of-lt minus (some m) n h = ground arith

pub to_u16-lt : (n : ℤ) → to_u16 n < 65536
unfolding to_u16
to_u16-lt (pos n) = omega arith
to_u16-lt (negsuc n) = omega arith
