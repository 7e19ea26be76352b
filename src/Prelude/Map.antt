-- ===== src/Prelude/Map.antt =====
-- `std::unordered_map` with string keys, as the list of its entries in iteration order. The order
-- is unspecified in the source: the lemmas hold for every list of entries with distinct keys.
use Prim.Native.Nat.{ℕ, ◌+◌, ◌≤◌, ◌<◌}
use mathlib.Core.Bool.{Bool, true, false}
use mathlib.Core.List.{List, [], ◌∷◌, map}
use mathlib.Core.Logic.{◌≢◌, ite}
use mathlib.Core.Option.{Option, none, some, some-injective}
use mathlib.Core.Path.{◌≡◌, refl, sym, ◌∙◌, subst}
use native.Mathlib.Omega.{arith}
use nexus_d_pub_sub.Prelude.Lists.{length, All}
use nexus_d_pub_sub.Prelude.Bytes.{Text, text_eq}

abbrev pub Map {ℓ} : Type ℓ → Type ℓ
Map V = List (Text × V)

module _ {ℓ} {V : Type ℓ} where
  -- `m.find(k)`
  unfoldable pub find : Text → Map V → Option V
  find k [] = none
  find k ((j, v) ∷ m) = ite (text_eq j k) (some v) (find k m)

  -- `m.count(k) > 0`
  unfoldable pub contains : Text → Map V → Bool
  contains k m = elim (find k m) [ none ↦ false | some v ↦ true ]

  -- `m[k] = v`
  unfoldable pub assign : Text → V → Map V → Map V
  assign k v [] = (k, v) ∷ []
  assign k v ((j, w) ∷ m) = ite (text_eq j k) ((k, v) ∷ m) ((j, w) ∷ assign k v m)

  -- `m.erase(k)`
  unfoldable pub erase : Text → Map V → Map V
  erase k [] = []
  erase k ((j, w) ∷ m) = ite (text_eq j k) (erase k m) ((j, w) ∷ erase k m)

  abbrev pub keys : Map V → List Text
  keys = map (λ e. e.0)

  -- No key occurs twice.
  abbrev pub Distinct : Map V → Type ℓ
  Distinct [] = Unit
  Distinct ((k, v) ∷ m) = (find k m ≡ none) × Distinct m

  pub find_here : (j k : Text) (v : V) (m : Map V) → k ≡ j → find j ((k, v) ∷ m) ≡ some v
  unfolding find
  find_here j k v m e = ground arith

  pub find_later : (j k : Text) (v : V) (m : Map V) → k ≢ j → find j ((k, v) ∷ m) ≡ find j m
  unfolding find
  find_later j k v m n = ground arith

  pub find-assign :
      (j k : Text) (v : V) (m : Map V)
      → find j (assign k v m) ≡ ite (text_eq k j) (some v) (find j m)
  unfolding find assign
  find-assign j k v [] = refl
  find-assign j k v ((i, w) ∷ m) = ground (arith, find-assign j k v m)

  pub find-erase : (j k : Text) (m : Map V) → find j (erase k m) ≡ ite (text_eq k j) none (find j m)
  unfolding find erase
  find-erase j k [] = ground arith
  find-erase j k ((i, w) ∷ m) = ground (arith, find-erase j k m)

  pub assign-Distinct : (k : Text) (v : V) (m : Map V) → Distinct m → Distinct (assign k v m)
  unfolding find assign
  assign-Distinct k v [] d = (refl, tt)
  assign-Distinct k v ((j, w) ∷ m) d =
      ground (arith, assign-Distinct k v m d.1, find-assign j k v m)

  pub erase-Distinct : (k : Text) (m : Map V) → Distinct m → Distinct (erase k m)
  unfolding find erase
  erase-Distinct k [] d = tt
  erase-Distinct k ((j, w) ∷ m) d = ground (arith, erase-Distinct k m d.1, find-erase j k m)

  pub erase_absent : (k : Text) (m : Map V) → find k m ≡ none → erase k m ≡ m
  unfolding find erase
  erase_absent k [] h = refl
  erase_absent k ((j, w) ∷ m) h = ground (arith, erase_absent k m)

  -- The sum of a measure over the values.
  unfoldable pub total : (V → ℕ) → Map V → ℕ
  total f [] = 0
  total f ((k, v) ∷ m) = f v + total f m

  pub total-erase :
      (f : V → ℕ) (k : Text) (v : V) (m : Map V)
      → Distinct m
      → find k m ≡ some v
      → f v + total f (erase k m) ≡ total f m
  unfolding total find erase
  total-erase f k v [] d h = cc
  total-erase f k v ((j, w) ∷ m) d h = ground (arith, total-erase f k v m d.1, erase_absent k m)

  pub total-assign :
      (f : V → ℕ) (k : Text) (v w : V) (m : Map V)
      → find k m ≡ some w
      → total f (assign k v m) + f w ≡ total f m + f v
  unfolding total find assign
  total-assign f k v w [] h = cc
  total-assign f k v w ((j, u) ∷ m) h = ground (arith, total-assign f k v w m)

  pub total-assign_new :
      (f : V → ℕ) (k : Text) (v : V) (m : Map V)
      → find k m ≡ none
      → total f (assign k v m) ≡ total f m + f v
  unfolding total find assign
  total-assign_new f k v [] h = omega arith
  total-assign_new f k v ((j, w) ∷ m) h = ground (arith, total-assign_new f k v m)

  pub le-total : (f : V → ℕ) (k : Text) (v : V) (m : Map V) → find k m ≡ some v → f v ≤ total f m
  unfolding total find
  le-total f k v [] h = cc
  le-total f k v ((j, w) ∷ m) h = ground (arith, le-total f k v m)

  pub length-erase-le : (k : Text) (m : Map V) → length (erase k m) ≤ length m
  unfolding erase
  length-erase-le k [] = omega arith
  length-erase-le k ((j, w) ∷ m) = ground (arith, length-erase-le k m)

  -- To erase a key that is there makes the map smaller.
  pub length-erase-lt :
      (k : Text) (v : V) (m : Map V) → find k m ≡ some v → length (erase k m) < length m
  unfolding find erase
  length-erase-lt k v [] h = cc
  length-erase-lt k v ((j, w) ∷ m) h = ground (arith, length-erase-lt k v m, length-erase-le k m)

  pub assign-All {κ} :
      (P : Text × V → Type κ) (k : Text) (v : V) (m : Map V)
      → P (k, v)
      → All P m
      → All P (assign k v m)
  unfolding assign
  assign-All P k v [] h hs = (h, tt)
  assign-All P k v ((j, w) ∷ m) h hs = ground (arith, assign-All P k v m h hs.1)

  pub find-All {κ} :
      (P : Text × V → Type κ) (k : Text) (v : V) (m : Map V)
      → find k m ≡ some v
      → All P m
      → P (k, v)
  unfolding find
  find-All P k v [] e hs = cc
  find-All P k v ((j, w) ∷ m) e hs = elim (text_eq j k) [
    | yes p ↦
        (let same_value : some w ≡ some v = sym (find_here k j w m p) ∙ e in
          subst (λ i. P (i, v)) p (subst (λ x. P (j, x)) (some-injective w v same_value) hs.0))
    | no n ↦ find-All P k v m (sym (find_later k j w m n) ∙ e) hs.1
  ]
