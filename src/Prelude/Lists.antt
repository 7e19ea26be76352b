-- ===== src/Prelude/Lists.antt =====
-- Lists measured and indexed by native numbers, under the library's names.
use Prim.Native.Nat.{ℕ, zero, suc, ◌+◌, ◌-◌, ◌≤◌, ◌<◌}
use mathlib.Core.Path.{◌≡◌, refl, sym, ap, ◌∙◌}
use mathlib.Core.List.{List, [], ◌∷◌, ◌++◌, map}
use mathlib.Core.Option.{Option, none, some}
use native.Mathlib.Nat.{zero-add, suc-add}
use native.Mathlib.Omega.{arith}

module _ {ℓ} {A : Type ℓ} where
  abbrev pub length : List A → ℕ
  length [] = 0
  length (x ∷ xs) = suc (length xs)

  pub length-append : (xs ys : List A) → length (xs ++ ys) ≡ length xs + length ys
  length-append [] ys = omega arith
  length-append (x ∷ xs) ys = omega (arith, length-append xs ys)

  abbrev pub drop : ℕ → List A → List A
  drop zero xs = xs
  drop (suc n) [] = []
  drop (suc n) (x ∷ xs) = drop n xs

  abbrev pub get_elem? : List A → ℕ → Option A
  get_elem? [] i = none
  get_elem? (x ∷ xs) zero = some x
  get_elem? (x ∷ xs) (suc i) = get_elem? xs i

  -- A write out of bounds changes nothing.
  abbrev pub set : List A → ℕ → A → List A
  set [] i v = []
  set (x ∷ xs) zero v = v ∷ xs
  set (x ∷ xs) (suc i) v = x ∷ set xs i v

  pub length-drop : (n : ℕ) (xs : List A) → length (drop n xs) ≡ length xs - n
  length-drop zero xs = omega arith
  length-drop (suc n) [] = omega arith
  length-drop (suc n) (x ∷ xs) = omega (arith, length-drop n xs)

  -- The last element, `back()` of a container that may be empty.
  abbrev pub last? : List A → Option A
  last? [] = none
  last? (x ∷ []) = some x
  last? (x ∷ y ∷ xs) = last? (y ∷ xs)

  pub last?-append_one : (xs : List A) (a : A) → last? (xs ++ a ∷ []) ≡ some a
  last?-append_one [] a = refl
  last?-append_one (x ∷ []) a = refl
  last?-append_one (x ∷ y ∷ xs) a = last?-append_one (y ∷ xs) a

  -- A predicate at every element.
  abbrev pub All {κ} : (A → Type κ) → List A → Type κ
  All P [] = Unit
  All P (x ∷ xs) = P x × All P xs

  pub All-append {κ} : (P : A → Type κ) (xs ys : List A) → All P xs → All P ys → All P (xs ++ ys)
  All-append P [] ys hx hy = hy
  All-append P (x ∷ xs) ys hx hy = (hx.0, All-append P xs ys hx.1 hy)

  pub drop-nil : (k : ℕ) → drop k [] ≡ []
  drop-nil zero = refl
  drop-nil (suc k) = refl

  pub drop-drop : (j k : ℕ) (xs : List A) → drop j (drop k xs) ≡ drop (k + j) xs
  drop-drop j zero xs = rw zero-add
  drop-drop j (suc k) [] = rw (drop-nil j) (sym (drop-nil (suc k + j)))
  drop-drop j (suc k) (x ∷ xs) = rw suc-add (drop-drop j k xs)

  pub drop-append_le :
      (k : ℕ) (xs ys : List A) → k ≤ length xs → drop k (xs ++ ys) ≡ drop k xs ++ ys
  drop-append_le zero xs ys h = refl
  drop-append_le (suc k) [] ys h = absurd (omega arith)
  drop-append_le (suc k) (x ∷ xs) ys h = drop-append_le k xs ys (omega arith)

  pub drop_all : (k : ℕ) (xs : List A) → length xs ≤ k → drop k xs ≡ []
  drop_all zero [] h = refl
  drop_all zero (x ∷ xs) h = absurd (omega arith)
  drop_all (suc k) [] h = refl
  drop_all (suc k) (x ∷ xs) h = drop_all k xs (omega arith)

  -- The last `n` elements: what a window of `n` keeps of a history.
  abbrev pub recent : ℕ → List A → List A
  recent n xs = drop (length xs - n) xs

  pub length-recent : (n : ℕ) (xs : List A) → length (recent n xs) ≡ length xs - (length xs - n)
  length-recent n xs = length-drop (length xs - n) xs

  pub recent_all : (n : ℕ) (xs : List A) → length xs ≤ n → recent n xs ≡ xs
  recent_all n xs h = rw (sub_le_zero h) refl
    where
      sub_le_zero : length xs ≤ n → length xs - n ≡ 0
      sub_le_zero h = omega arith

  -- A full window loses its oldest element when one arrives.
  pub recent-append_full :
      (n : ℕ) (xs : List A) (a : A)
      → 0 < n
      → n ≤ length xs
      → recent n (xs ++ a ∷ []) ≡ drop 1 (recent n xs) ++ a ∷ []
  recent-append_full n xs a p h =
      rw (shift, drop-drop 1 (length xs - n) xs)
        (drop-append_le (length xs - n + 1) xs (a ∷ []) (omega arith))
    where
      shift : length (xs ++ a ∷ []) - n ≡ length xs - n + 1
      shift = omega (arith, length-append xs (a ∷ []))

  pub recent-append_room :
      (n : ℕ) (xs : List A) (a : A)
      → length xs < n
      → recent n (xs ++ a ∷ []) ≡ recent n xs ++ a ∷ []
  recent-append_room n xs a h =
      rw (recent_all n xs (omega arith))
        (recent_all n (xs ++ a ∷ []) (omega (arith, length-append xs (a ∷ []))))

  -- An element past the end of the dropped part exists.
  pub drop_cons :
      (k : ℕ) (xs : List A) → k < length xs → (a : A) × (drop k xs ≡ a ∷ drop (k + 1) xs)
  drop_cons k [] h = elim h [ ]
  drop_cons zero (x ∷ xs) h = (x, ground arith)
  drop_cons (suc k) (x ∷ xs) h = let (a, e) = drop_cons k xs (omega arith) in (a, ground arith)

  pub last?-drop : (k : ℕ) (xs : List A) → k < length xs → last? (drop k xs) ≡ last? xs
  last?-drop zero xs h = refl
  last?-drop (suc k) [] h = elim h [ ]
  last?-drop (suc k) (x ∷ []) h = absurd (omega arith)
  last?-drop (suc k) (x ∷ y ∷ xs) h = last?-drop k (y ∷ xs) (omega arith)

  pub last?_cons : (x : A) (xs : List A) → (a : A) × (last? (x ∷ xs) ≡ some a)
  last?_cons x [] = (x, refl)
  last?_cons x (y ∷ xs) = last?_cons y xs

  -- A window can be taken early.
  pub recent-recent : (n : ℕ) (xs ys : List A) → recent n (recent n xs ++ ys) ≡ recent n (xs ++ ys)
  recent-recent n xs ys =
      let j = length xs - n in
      let zs = xs ++ ys in
      let early : drop j xs ++ ys ≡ drop j zs = sym (drop-append_le j xs ys (omega arith)) in
      let same : j + (length (drop j zs) - n) ≡ length zs - n =
        omega (arith, length-drop j zs, length-append xs ys) in
      ap (recent n) early ∙ drop-drop (length (drop j zs) - n) j zs ∙ ap (λ k. drop k zs) same

module _ {ℓ ℓ'} {A : Type ℓ} {B : Type ℓ'} where
  pub length-map : (f : A → B) (xs : List A) → length (map f xs) ≡ length xs
  length-map f [] = refl
  length-map f (x ∷ xs) = ap (λ n. suc n) (length-map f xs)
