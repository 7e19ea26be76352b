-- ===== src/Crc64.antt =====
-- include/nexusd/utils/crc64.hpp, class CRC64: the table-driven CRC-64 (ECMA-182) of topic lists.
-- The object is its register `crc_`. `table()[i]` is the entry that `generateTable` puts there.
use Prim.Native.Nat.{bit_and, bit_xor}
use nexus_d_pub_sub.Prelude.{
  ℕ, zero, suc, ◌-◌, ◌*◌, ◌/◌, ◌%◌, ◌^◌, ◌≡◌, refl, sym, ap, ◌∙◌, Text, List, [], ◌∷◌, ◌++◌, ◌==◌,
  if◌then◌else◌, u64_mod, codes,
}
use mathlib.Core.List.{flatten}

abbrev pub polynomial : ℕ
polynomial = 0x42F0E1EBA9EA3693

-- `0xFFFFFFFFFFFFFFFF`
abbrev pub all_ones : ℕ
all_ones = u64_mod - 1

-- One round of the inner loop of `generateTable`.
unfoldable pub table_round : ℕ → ℕ
table_round crc =
    let shifted = (crc * 2) % u64_mod in
    if bit_and crc 0x8000000000000000 == 0 then shifted else bit_xor shifted polynomial

unfoldable pub table_rounds : ℕ → ℕ → ℕ
unfolding table_round
table_rounds zero crc = crc
table_rounds (suc n) crc = table_rounds n (table_round crc)

unfoldable pub table : ℕ → ℕ
unfolding table_rounds
table i = table_rounds 8 ((i * 2 ^ 56) % u64_mod)

-- The constructor and `reset`.
unfoldable pub init : ℕ
init = all_ones

-- One round of the loop of `update`.
unfoldable pub update_byte : ℕ → ℕ → ℕ
unfolding table
update_byte crc byte = bit_xor (table (bit_xor ((crc / 2 ^ 56) % 256) byte)) ((crc * 256) % u64_mod)

unfoldable pub update : ℕ → Text → ℕ
unfolding update_byte
update crc [] = crc
update crc (b ∷ bs) = update (update_byte crc b) bs

unfoldable pub finalize : ℕ → ℕ
finalize crc = bit_xor crc all_ones

-- `compute` of one string.
unfoldable pub compute : Text → ℕ
unfolding init update finalize
compute s = finalize (update init s)

unfoldable pub update_all : ℕ → List Text → ℕ
unfolding update
update_all crc [] = crc
update_all crc (s ∷ ss) = update_all (update crc s) ss

-- `compute` of a vector of strings.
unfoldable pub compute_all : List Text → ℕ
unfolding init update_all finalize
compute_all ss = finalize (update_all init ss)

pub update-append : (crc : ℕ) (s t : Text) → update crc (s ++ t) ≡ update (update crc s) t
unfolding update
update-append crc [] t = refl
update-append crc (b ∷ s) t = update-append (update_byte crc b) s t

update_all-flatten : (crc : ℕ) (ss : List Text) → update_all crc ss ≡ update crc (flatten ss)
unfolding update_all update flatten
update_all-flatten crc [] = refl
update_all-flatten crc (s ∷ ss) =
    update_all-flatten (update crc s) ss ∙ sym (update-append crc s (flatten ss))

-- The hash of a list of strings is that of their concatenation: it does not see where one string
-- ends and the next begins.
pub compute_all-flatten : (ss : List Text) → compute_all ss ≡ compute (flatten ss)
unfolding compute_all compute
compute_all-flatten ss = ap finalize (update_all-flatten init ss)

-- The check value of CRC-64/WE, of which this is the computation.
check_value : compute (codes "123456789") ≡ 0x62EC59E3F1A4F00A
unfolding compute
check_value = refl
