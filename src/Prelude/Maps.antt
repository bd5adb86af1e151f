-- ===== src/Prelude/Maps.antt =====
-- Go's maps with string keys, as association lists without a repeated key.
use mathlib.Core.Path.{◌≡◌, refl}
use mathlib.Core.Bool.{Bool, true, false, not, ◌&&◌, ◌||◌}
use mathlib.Core.List.{List, [], ◌∷◌, ◌++◌, map}
use mathlib.Core.Option.{Option, none, some}
use native.Mathlib.Omega.{arith}
use fs_lib.Prelude.Text.{Bytes, equal, equal_iff, equal_refl}
use fs_lib.Prelude.Tests.{if◌then◌else◌}
use fs_lib.Prelude.Lists.{length}
use Prim.Native.Nat.{◌+◌, ◌≤◌, ◌<◌}

abbrev pub Map {ℓ} : Type ℓ → Type ℓ
Map V = List (Bytes × V)

module _ {ℓ} {V : Type ℓ} where
  -- v, ok := m[key]
  unfoldable pub lookup : Bytes → Map V → Option V
  lookup key [] = none
  lookup key ((at, x) ∷ rest) = if equal at key then some x else lookup key rest

  -- m[key] = x
  unfoldable pub insert : Bytes → V → Map V → Map V
  insert key x [] = (key, x) ∷ []
  insert key x ((at, y) ∷ rest) =
      if equal at key then (key, x) ∷ rest else (at, y) ∷ insert key x rest

  -- delete(m, key)
  unfoldable pub remove : Bytes → Map V → Map V
  remove key [] = []
  remove key ((at, x) ∷ m) =
      let rest = remove key m in if equal at key then rest else (at, x) ∷ rest

  abbrev pub keys : Map V → List Bytes
  keys m = map (λ p. p.0) m

  pub lookup-insert :
      (key other : Bytes) (x : V) (m : Map V)
      → lookup other (insert key x m) ≡ (if equal key other then some x else lookup other m)
  unfolding insert lookup
  lookup-insert key other x [] = refl
  lookup-insert key other x ((at, y) ∷ rest) = ground (
    arith,
    lookup-insert key other x rest,
    equal_iff at key,
    equal_iff at other,
    equal_iff key other,
  )

  pub lookup-remove :
      (k j : Bytes) (m : Map V) → lookup j (remove k m) ≡ (if equal k j then none else lookup j m)
  unfolding lookup remove
  lookup-remove k j [] = ground arith
  lookup-remove k j ((i, w) ∷ m) =
      ground (arith, equal_iff k j, equal_iff i k, equal_iff i j, lookup-remove k j m)

  pub lookup-insert_self : (k : Bytes) (v : V) (m : Map V) → lookup k (insert k v m) ≡ some v
  lookup-insert_self k v m = ground (arith, lookup-insert k k v m, equal_refl k)

pub lookup-nil {ℓ} : {V : Type ℓ} (k : Bytes) → lookup {V = V} k [] ≡ none
unfolding lookup
lookup-nil k = refl

pub ruleset map_laws = (lookup-insert, lookup-remove, lookup-nil)

unfoldable pub member : Bytes → List Bytes → Bool
member k [] = false
member k (j ∷ ks) = equal j k || member k ks

pub member-append :
    (p : Bytes) (xs ys : List Bytes) → member p (xs ++ ys) ≡ (member p xs || member p ys)
unfolding member
member-append p [] ys = refl
member-append p (x ∷ xs) ys = ground (arith, member-append p xs ys)

-- No text stands twice in the list.
unfoldable pub distinct : List Bytes → Bool
unfolding member
distinct [] = true
distinct (k ∷ ks) = not (member k ks) && distinct ks

-- The order in which Go's `range` visits the keys of a map: each once, in any order.
pub record IsRangeOrder (order : List Bytes → List Bytes) : Type 0 where
  pub same : (k : Bytes) (ks : List Bytes) → member k (order ks) ≡ member k ks
  pub once : (ks : List Bytes) → distinct ks ≡ true → distinct (order ks) ≡ true

pub id-IsRangeOrder : IsRangeOrder (λ ks. ks)
id-IsRangeOrder = record { same = λ k ks. refl; once = λ ks h. h }

module _ {ℓ} {V : Type ℓ} where
  pub member-keys-insert :
      (j k : Bytes) (v : V) (m : Map V)
      → member j (keys (insert k v m)) ≡ (equal k j || member j (keys m))
  unfolding member insert
  member-keys-insert j k v [] = refl
  member-keys-insert j k v ((i, w) ∷ m) =
      ground (arith, equal_iff i k, equal_iff i j, equal_iff k j, member-keys-insert j k v m)

  -- A write keeps the keys distinct.
  pub distinct-keys-insert :
      (k : Bytes) (v : V) (m : Map V)
      → distinct (keys m) ≡ true
      → distinct (keys (insert k v m)) ≡ true
  unfolding distinct insert
  distinct-keys-insert k v [] h = unfold member in refl
  distinct-keys-insert k v ((i, w) ∷ m) h =
      ground (
        arith,
        equal_iff i k,
        equal_iff k i,
        distinct-keys-insert k v m,
        member-keys-insert i k v m,
      )

  pub lookup-member : (k : Bytes) (m : Map V) → member k (keys m) ≡ false → lookup k m ≡ none
  unfolding member lookup
  lookup-member k [] h = refl
  lookup-member k ((i, w) ∷ m) h = ground (arith, lookup-member k m)

  pub length-insert : (k : Bytes) (v : V) (m : Map V) → length (insert k v m) ≤ length m + 1
  unfolding insert
  length-insert k v [] = omega arith
  length-insert k v ((i, w) ∷ m) = ground (arith, length-insert k v m)

  pub length-remove-le : (k : Bytes) (m : Map V) → length (remove k m) ≤ length m
  unfolding remove
  length-remove-le k [] = omega arith
  length-remove-le k ((i, w) ∷ m) = ground (arith, length-remove-le k m)

  -- A delete of a key that is there makes the map smaller.
  pub length-remove-lt :
      (k : Bytes) (v : V) (m : Map V) → lookup k m ≡ some v → length (remove k m) < length m
  unfolding remove lookup
  length-remove-lt k v [] h = cc
  length-remove-lt k v ((i, w) ∷ m) h = ground (arith, length-remove-le k m, length-remove-lt k v m)

abbrev pub is_some : {A : Type 0} → Option A → Bool
is_some none = false
is_some (some a) = true

pub member-lookup : {V : Type 0} (k : Bytes) (m : Map V) → member k (keys m) ≡ is_some (lookup k m)
unfolding member lookup
member-lookup k [] = refl
member-lookup k ((i, v) ∷ m) = ground (arith, member-lookup k m)
