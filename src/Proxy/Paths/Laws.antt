-- ===== src/Proxy/Paths/Laws.antt =====
-- The path that a key is watched under on its node, and the one that its events are given in
-- the pod (`translate`), and what a message does to the path map.
use fs_lib.Prelude.{
  ℕ, ◌<◌, List, [], ◌∷◌, ◌++◌, ◌≡◌, refl, ap, ◌∙◌, inl, inr, Bool, Option, none, some, ◌==◌, lt→ltb,
  ==_iff, Bool-cases, Option-cases, if◌then◌else◌, arith, Bytes, equal, length, drop, length-append,
  drop-append, append_assoc, Map, lookup, lookup-insert, lookup-remove,
}
use fs_lib.Proxy.Paths.{
  is_slash, last, join_sub, translate, Change, watch, unwatch, change_path, apply_key, apply_keys,
}
use fs_lib.Strings.{has_prefix}

abbrev pub ends_slash : Bytes → Bool
ends_slash s = is_slash (last s)

abbrev pub with_slash : Bytes → Bytes
with_slash s = if ends_slash s then s else s ++ b'/' ∷ []

abbrev pub strip_slash : Bytes → Bytes
strip_slash [] = []
strip_slash (x ∷ xs) = if x == b'/' then xs else x ∷ xs

last-slash : (s : Bytes) → last (s ++ b'/' ∷ []) ≡ some b'/'
unfolding last
last-slash [] = refl
last-slash (x ∷ []) = refl
last-slash (x ∷ y ∷ s) = last-slash (y ∷ s)

last-some : (x : ℕ) (s : Bytes) → (c : ℕ) × (last (x ∷ s) ≡ some c)
unfolding last
last-some x [] = (x, refl)
last-some x (y ∷ s) = last-some y s

join_sub_lem :
    (node pod sub : Bytes) (x : ℕ)
    → join_sub node pod (x ∷ sub) ≡ (
      with_slash node ++ strip_slash (x ∷ sub),
      pod ++ (if ends_slash node then strip_slash (x ∷ sub) else x ∷ sub),
    )
unfolding join_sub drop
join_sub_lem node pod sub x =
    ground (arith, last-slash node, append_assoc node (b'/' ∷ []) sub, ==_iff x b'/')

translate-longer :
    (node pod k : Bytes) {c : ℕ}
    → last node ≡ some c
    → length pod < length k
    → translate node pod k ≡ some (join_sub node pod (drop (length pod) k))
unfolding translate
translate-longer node pod k e h = ground (arith, lt→ltb (length pod) (length k) h)

-- For a node path and a rest of the key that are not empty, a key under the mount path is watched
-- at the node path and the rest with one slash between them, and its events get the mount path and
-- the rest, but without the rest's leading slash where the node path ends in a slash.
pub translate-append :
    (n : ℕ) (node pod : Bytes) (x : ℕ) (sub : Bytes)
    → translate (n ∷ node) pod (pod ++ x ∷ sub)
      ≡ some (
        with_slash (n ∷ node) ++ strip_slash (x ∷ sub),
        pod ++ (if ends_slash (n ∷ node) then strip_slash (x ∷ sub) else x ∷ sub),
      )
translate-append n node pod x sub =
    translate-longer (n ∷ node) pod (pod ++ x ∷ sub) (last-some n node).1
      (omega (arith, length-append pod (x ∷ sub)))
    ∙ ap (λ s. some (join_sub (n ∷ node) pod s)) (drop-append (length pod) pod (x ∷ sub) refl)
    ∙ ap some (join_sub_lem (n ∷ node) pod sub x)

-- The key that is the mount path itself.
pub translate_self : (node pod : Bytes) → translate node pod pod ≡ some (node, pod)
unfolding translate
translate_self node pod = ground arith

-- What a key makes of the entry at node path `at`.
abbrev given : Change → Bytes → Option Bytes
given watch p = some p
given unwatch p = none

abbrev after_pair : Change → Bytes → Option (Bytes × Bytes) → Option Bytes → Option Bytes
after_pair change at none d = d
after_pair change at (some (w, p)) d = if equal w at then given change p else d

abbrev after_key : Change → Bytes → Bytes → Bytes → Bytes → Option Bytes → Option Bytes
after_key change node pod at k d =
    if has_prefix k pod then after_pair change at (translate node pod k) d else d

abbrev pub after_keys : Change → Bytes → Bytes → Bytes → List Bytes → Option Bytes → Option Bytes
after_keys change node pod at [] d = d
after_keys change node pod at (k ∷ ks) d =
    after_keys change node pod at ks (after_key change node pod at k d)

change_path-lookup :
    (change : Change) (w p at : Bytes) (m : Map Bytes)
    → lookup at (change_path change (w, p) m) ≡ (if equal w at then given change p else lookup at m)
unfolding change_path
change_path-lookup watch w p at m = lookup-insert w at p m
change_path-lookup unwatch w p at m = lookup-remove w at m

apply_key-lookup :
    (change : Change) (node pod at k : Bytes) (m m' : Map Bytes)
    → apply_key change node pod k m ≡ some m'
    → lookup at m' ≡ after_key change node pod at k (lookup at m)
unfolding apply_key
apply_key-lookup change node pod at k m m' h = elim (Bool-cases (has_prefix k pod)) [
  | inr out ↦ ground arith
  | inl under ↦ elim (Option-cases (translate node pod k)) [
    | inl stuck ↦ ground arith
    | inr ((w, p), e) ↦ ground (arith, change_path-lookup change w p at m)
  ]
]

-- The path map after the keys of one mount: at every node path it has the pod path of the last
-- matching key that is watched there (nothing, for UNWATCH), and elsewhere what it had before.
pub apply_keys-lookup :
    (change : Change) (node pod at : Bytes) (ks : List Bytes) (m m' : Map Bytes)
    → apply_keys change node pod ks m ≡ some m'
    → lookup at m' ≡ after_keys change node pod at ks (lookup at m)
unfolding apply_keys
apply_keys-lookup change node pod at [] m m' h = ground arith
apply_keys-lookup change node pod at (k ∷ ks) m m' h =
    elim (Option-cases (apply_key change node pod k m)) [
      | inl stuck ↦ ground arith
      | inr (m1, e) ↦
          rw (← apply_key-lookup change node pod at k m m1 e)
            (apply_keys-lookup change node pod at ks m1 m' (ground arith))
    ]
