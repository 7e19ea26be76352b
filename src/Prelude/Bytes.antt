-- ===== src/Prelude/Bytes.antt =====
-- `std::string` as the sequence of its bytes.
use Prim.Native.Char.{code}
use Prim.Native.Nat.{ℕ, zero, suc, ◌+◌, ◌/◌, ◌%◌}
use Prim.Native.String.{String}
use mathlib.Core.List.{List, [], ◌∷◌}
use mathlib.Core.Logic.{◌≢◌}
use mathlib.Core.Path.{◌≡◌, refl}
use native.Mathlib.Decide.{ℕ_discrete, dec_lt}
use native.Mathlib.Omega.{arith}

abbrev pub Text : Type 0
Text = List ℕ

-- The code points of a literal: its bytes, if it is ASCII.
abbrev pub codes : String → Text
codes String.[] = []
codes (String.◌∷◌ c s) = code c ∷ codes s

cons-ne-nil : (a : ℕ) (s : Text) → a ∷ s ≢ []
cons-ne-nil a s e = cc

nil-ne-cons : (a : ℕ) (s : Text) → [] ≢ a ∷ s
nil-ne-cons a s e = cc

cons-eq : {a b : ℕ} {s t : Text} → a ≡ b → s ≡ t → a ∷ s ≡ b ∷ t
cons-eq p q = cc

head_ne : {a b : ℕ} {s t : Text} → a ≢ b → a ∷ s ≢ b ∷ t
head_ne h e = ground arith

tail_ne : {a b : ℕ} {s t : Text} → s ≢ t → a ∷ s ≢ b ∷ t
tail_ne h e = ground arith

-- `operator==` of two strings.
unfoldable pub text_eq : Discrete Text
unfolding cons-ne-nil nil-ne-cons cons-eq head_ne tail_ne ℕ_discrete
text_eq [] [] = yes refl
text_eq [] (b ∷ t) = no (nil-ne-cons b t)
text_eq (a ∷ s) [] = no (cons-ne-nil a s)
text_eq (a ∷ s) (b ∷ t) = elim (ℕ_discrete a b) [
  | yes p ↦ elim (text_eq s t) [ yes q ↦ yes (cons-eq p q) | no q ↦ no (tail_ne q) ]
  | no p ↦ no (head_ne p)
]

-- The decimal digits of a number, before those in `acc`. Each round takes one of them, so there
-- are never more rounds than the number says.
unfoldable pub digits : ℕ → ℕ → Text → Text
digits zero n acc = acc
digits (suc fuel) n acc = elim (dec_lt n 10) [
  | yes p ↦ (48 + n) ∷ acc
  | no p ↦ digits fuel (n / 10) ((48 + n % 10) ∷ acc)
]

-- `std::to_string`
unfoldable pub to_string : ℕ → Text
unfolding digits
to_string n = digits (suc n) n []
