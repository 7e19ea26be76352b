-- ===== src/Uuid.antt =====
-- include/nexusd/utils/uuid.hpp, class UUIDGenerator. The two random numbers are arguments.
use nexus_d_pub_sub.Prelude.{
  ℕ, zero, suc, ◌+◌, ◌*◌, ◌/◌, ◌%◌, ◌^◌, ◌≤◌, ◌<◌, ◌≡◌, refl, ap, ◌⊎◌, Bool, true, false, ◌&&◌,
  ◌||◌, [], ◌∷◌, ◌++◌, some, Text, codes, length, get_elem?, ltb, leb, ◌==◌, if◌then◌else◌, arith,
}

-- A digit of `std::hex`.
unfoldable pub hex_digit : ℕ → ℕ
hex_digit d = if ltb d 10 then 48 + d else 87 + d

-- `std::setw(w)` with the fill '0' of a number that is masked to `w` digits.
unfoldable pub hex : ℕ → ℕ → Text
unfolding hex_digit
hex zero n = []
hex (suc w) n = hex w (n / 16) ++ hex_digit (n % 16) ∷ []

-- `(ab & 0xFFFFFFFFFFFF0FFF) | 0x4000`
unfoldable pub set_version : ℕ → ℕ
set_version ab = ab / 2 ^ 16 * 2 ^ 16 + 0x4000 + ab % 2 ^ 12

-- `(cd & 0x3FFFFFFFFFFFFFFF) | 0x8000000000000000`
unfoldable pub set_variant : ℕ → ℕ
set_variant cd = 2 ^ 63 + cd % 2 ^ 62

unfoldable pub format : ℕ → ℕ → Text
unfolding hex
format ab cd =
    hex 8 (ab / 2 ^ 32 % 2 ^ 32)
    ++ (b'-' ∷ hex 4 (ab / 2 ^ 16 % 2 ^ 16)
        ++ (b'-' ∷ hex 4 (ab % 2 ^ 16)
            ++ (b'-' ∷ hex 4 (cd / 2 ^ 48 % 2 ^ 16) ++ (b'-' ∷ hex 12 (cd % 2 ^ 48)))))

unfoldable pub generate : ℕ → ℕ → Text
unfolding set_version set_variant format
generate ab cd = format (set_version ab) (set_variant cd)

unfoldable pub is_hex : ℕ → Bool
is_hex c = leb 48 c && leb c 57 || (leb 97 c && leb c 102 || leb 65 c && leb c 70)

-- The test of a character at a position.
unfoldable pub is_allowed : ℕ → ℕ → Bool
unfolding is_hex
is_allowed i c = if i == 8 || (i == 13 || (i == 18 || i == 23)) then c == b'-' else is_hex c

unfoldable pub all_allowed : ℕ → Text → Bool
unfolding is_allowed
all_allowed i [] = true
all_allowed i (c ∷ s) = if is_allowed i c then all_allowed (i + 1) s else false

unfoldable pub is_valid : Text → Bool
unfolding all_allowed
is_valid uuid = if length uuid == 36 then all_allowed 0 uuid else false

abbrev pub nil : Text
nil = codes "00000000-0000-0000-0000-000000000000"

is_hex-hex_digit : (n : ℕ) → is_hex (hex_digit (n % 16)) ≡ true
unfolding is_hex hex_digit
is_hex-hex_digit n = ground arith

pub format-is_valid : (ab cd : ℕ) → is_valid (format ab cd) ≡ true
unfolding is_valid format
format-is_valid ab cd = simp is_hex-hex_digit

-- The digit at position 14, the version, and that at position 19, the variant.
version_digit :
    (n : ℕ) → n % 65536 / 16 / 16 / 16 % 16 ≡ 4 → hex_digit (n % 65536 / 16 / 16 / 16 % 16) ≡ b'4'
unfolding hex_digit
version_digit n h = rw h refl

set_version_four : (ab : ℕ) → set_version ab % 65536 / 16 / 16 / 16 % 16 ≡ 4
unfolding set_version
set_version_four ab = omega arith

-- '8', '9', 'a' or 'b'.
abbrev pub IsVariant : ℕ → Type 0
IsVariant c = (c ≡ b'8') ⊎ ((c ≡ b'9') ⊎ ((c ≡ b'a') ⊎ (c ≡ b'b')))

hex_digit-IsVariant : (d : ℕ) → 8 ≤ d → d < 12 → IsVariant (hex_digit d)
unfolding hex_digit
hex_digit-IsVariant d h k = ground arith

set_variant_bounds :
    (cd : ℕ) → let d : ℕ = set_variant cd / 2 ^ 48 % 65536 / 16 / 16 / 16 % 16 in (8 ≤ d) × (d < 12)
unfolding set_variant
set_variant_bounds cd = omega arith

-- Whatever the random numbers are, the text that `generate` returns is one that `isValid` accepts,
-- its version digit is 4 and its variant digit is 8, 9, a or b, as RFC 4122 wants.
pub generate-is_valid :
    (ab cd : ℕ)
    → (is_valid (generate ab cd) ≡ true)
      × (get_elem? (generate ab cd) 14 ≡ some b'4')
      × ((c : ℕ) × (get_elem? (generate ab cd) 19 ≡ some c) × IsVariant c)
unfolding generate
generate-is_valid ab cd =
    let ab' = set_version ab in
    let cd' = set_variant cd in
    let d = cd' / 2 ^ 48 % 65536 / 16 / 16 / 16 % 16 in
    (
      format-is_valid ab' cd',
      ap some (version_digit ab' (set_version_four ab)),
      (
        hex_digit d,
        refl,
        hex_digit-IsVariant d (set_variant_bounds cd).0 (set_variant_bounds cd).1,
      ),
    )
