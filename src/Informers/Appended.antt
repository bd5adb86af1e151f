-- ===== src/Informers/Appended.antt =====
-- A map with one more entry behind it.
use fs_lib.Prelude.{
  ◌⊎◌, inl, inr, member-append, List, [], ◌∷◌, ◌++◌, ◌≡◌, refl, ap, Bool, true, false, ◌||◌, some,
  arith, Bytes, equal, equal_iff, Map, lookup, insert, keys, member, distinct, lookup-insert,
  Bool-cases,
}
use fs_lib.Informers.{flag}

pub distinct-snoc :
    (k : Bytes) (ks : List Bytes)
    → distinct ks ≡ true
    → member k ks ≡ false
    → distinct (ks ++ k ∷ []) ≡ true
unfolding distinct member
distinct-snoc k [] h m = refl
distinct-snoc k (i ∷ ks) h m =
    ground (arith, distinct-snoc k ks, member-append i ks (k ∷ []), equal_iff i k, equal_iff k i)

module _ {V : Type 0} where
  pub keys-snoc : (k : Bytes) (v : V) (m : Map V) → keys (m ++ (k, v) ∷ []) ≡ keys m ++ k ∷ []
  keys-snoc k v [] = refl
  keys-snoc k v ((i, w) ∷ m) = ap (λ ks. i ∷ ks) (keys-snoc k v m)

  -- What a map with one more entry behind it has, an earlier one may have had.
  pub lookup-snoc :
      (j k : Bytes) (v w : V) (m : Map V)
      → lookup j (m ++ (k, v) ∷ []) ≡ some w
      → (lookup j m ≡ some w) ⊎ ((k ≡ j) × (v ≡ w))
  unfolding lookup
  lookup-snoc j k v w [] h = elim (Bool-cases (equal k j)) [
    | inl hit ↦ inr (ground (arith, equal_iff k j), ground arith)
    | inr miss ↦ absurd (ground arith)
  ]
  lookup-snoc j k v w ((i, u) ∷ m) h = elim (Bool-cases (equal i j)) [
    | inl hit ↦ inl (ground arith)
    | inr miss ↦ elim (lookup-snoc j k v w m (ground arith)) [
      | inl old ↦ inl (ground arith)
      | inr new ↦ inr new
    ]
  ]

pub flag-insert :
    (j k : Bytes) (m : Map Bool)
    → (flag (lookup j m) || member j (k ∷ [])) ≡ flag (lookup j (insert k true m))
unfolding member
flag-insert j k m = ground (arith, lookup-insert k j true m)
