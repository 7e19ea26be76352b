-- ===== src/Prelude/Words.antt =====
-- Unsigned 64-bit arithmetic (`uint64_t`, `size_t`), with its wrap-around written out.
use Prim.Native.Nat.{ℕ, ◌+◌, ◌-◌, ◌*◌, ◌/◌, ◌%◌, ◌^◌, ◌<◌}
use mathlib.Core.Path.{◌≡◌}
use native.Mathlib.Omega.{arith}

abbrev pub u64_mod : ℕ
u64_mod = 2 ^ 64

abbrev pub add64 : ℕ → ℕ → ℕ
add64 a b = (a + b) % u64_mod

-- `-` on ℕ is truncated, so the complement of `b` is added.
abbrev pub sub64 : ℕ → ℕ → ℕ
sub64 a b = (a + (u64_mod - b % u64_mod)) % u64_mod

abbrev pub inc64 : ℕ → ℕ
inc64 a = add64 a 1

-- A `std::chrono` clock tick is a nanosecond here; `milliseconds(n)` is so many ticks.
abbrev pub milliseconds : ℕ → ℕ
milliseconds n = n * 1000000

-- `duration_cast<milliseconds>` of a duration that is not negative.
abbrev pub to_milliseconds : ℕ → ℕ
to_milliseconds d = d / 1000000

-- Residues follow sums: taking away what was added gives back the rest.
pub sub64-add : (x y : ℕ) → sub64 ((x + y) % u64_mod) x ≡ y % u64_mod
sub64-add x y = omega arith

pub add64-mod : (x y : ℕ) → add64 (x % u64_mod) y ≡ (x + y) % u64_mod
add64-mod x y = omega arith

pub mod64_small : (x : ℕ) → x < u64_mod → x % u64_mod ≡ x
mod64_small x h = omega arith

pub sub64_small : (a b : ℕ) → b < a → a < u64_mod → sub64 a b ≡ a - b
sub64_small a b h k = omega arith
