-- ===== src/Prelude/Links/Once.antt =====
-- `std::unordered_set` holds an element once: no id occurs twice in a set of the topic index.
use mathlib.Core.Bool.{false}
use mathlib.Core.List.{List, [], ◌∷◌, ◌++◌}
use mathlib.Core.Path.{◌≡◌, refl}
use native.Mathlib.Omega.{arith}
use nexus_d_pub_sub.Prelude.Bytes.{Text}
use nexus_d_pub_sub.Prelude.Map.{find, find-assign}
use nexus_d_pub_sub.Prelude.Links.{
  Links, same, member, set_insert, set_erase, ids_of, link, unlink, link_all, unlink_all,
  member-append_one, member-set_erase, unlink-Unlinked,
}

-- No id occurs twice.
abbrev pub IsOnce : List Text → Type 0
IsOnce [] = Unit
IsOnce (x ∷ xs) = (member x xs ≡ false) × IsOnce xs

append_one-IsOnce :
    (x : Text) (s : List Text) → member x s ≡ false → IsOnce s → IsOnce (s ++ x ∷ [])
unfolding member same
append_one-IsOnce x [] e h = (refl, tt)
append_one-IsOnce x (y ∷ s) e h =
    (ground (arith, e, h.0, member-append_one y x s), append_one-IsOnce x s (ground (arith, e)) h.1)

set_insert-IsOnce : (x : Text) (s : List Text) → IsOnce s → IsOnce (set_insert x s)
unfolding set_insert
set_insert-IsOnce x s h = ground (arith, h, append_one-IsOnce x s)

set_erase-IsOnce : (x : Text) (s : List Text) → IsOnce s → IsOnce (set_erase x s)
unfolding set_erase
set_erase-IsOnce x [] h = tt
set_erase-IsOnce x (y ∷ s) h = ground (arith, h.0, set_erase-IsOnce x s h.1, member-set_erase y x s)

-- No set of the index has an id twice.
abbrev pub AllOnce : Links → Type 0
AllOnce m = (t : Text) → IsOnce (ids_of (find t m))

link-AllOnce : (topic i : Text) (m : Links) → AllOnce m → AllOnce (link topic i m)
unfolding link
link-AllOnce topic i m h t =
    let s = set_insert i (ids_of (find topic m)) in
    ground
      (arith, find-assign t topic s m, h t, set_insert-IsOnce i (ids_of (find topic m)) (h topic))

unlink-AllOnce : (topic i : Text) (m : Links) → AllOnce m → AllOnce (unlink topic i m)
unlink-AllOnce topic i m h t =
    ground (arith, unlink-Unlinked topic i m t, h t, set_erase-IsOnce i (ids_of (find t m)) (h t))

pub link_all-AllOnce :
    (ts : List Text) (i : Text) (m : Links) → AllOnce m → AllOnce (link_all ts i m)
unfolding link_all
link_all-AllOnce [] i m h = h
link_all-AllOnce (t ∷ ts) i m h = link_all-AllOnce ts i (link t i m) (link-AllOnce t i m h)

pub unlink_all-AllOnce :
    (ts : List Text) (i : Text) (m : Links) → AllOnce m → AllOnce (unlink_all ts i m)
unfolding unlink_all
unlink_all-AllOnce [] i m h = h
unlink_all-AllOnce (t ∷ ts) i m h = unlink_all-AllOnce ts i (unlink t i m) (unlink-AllOnce t i m h)
