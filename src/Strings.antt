-- ===== src/Strings.antt =====
-- What the program uses of Go's `strings` package, over bytes. Splits are at one byte, as all of
-- the program's are; `to_lower` is that of ASCII text.
pub mod Laws
use fs_lib.Prelude.{
  ℕ, suc, ◌+◌, List, [], ◌∷◌, ◌++◌, map, Bool, true, false, ◌&&◌, ◌||◌, Option, none, some, leb,
  ◌==◌, if◌then◌else◌, Bytes, length, take, drop,
}

-- strings.HasPrefix(s, prefix)
unfoldable pub has_prefix : Bytes → Bytes → Bool
has_prefix s [] = true
has_prefix [] (p ∷ ps) = false
has_prefix (x ∷ xs) (p ∷ ps) = x == p && has_prefix xs ps

next_index : Option ℕ → Option ℕ
next_index none = none
next_index (some i) = some (suc i)

-- strings.Index(s, sub), with `none` for -1
unfoldable pub index : Bytes → Bytes → Option ℕ
unfolding has_prefix next_index
index [] sub = if has_prefix [] sub then some 0 else none
index (x ∷ xs) sub = if has_prefix (x ∷ xs) sub then some 0 else next_index (index xs sub)

-- strings.Replace(s, old, new, 1)
unfoldable pub replace_first : Bytes → Bytes → Bytes → Bytes
unfolding index
replace_first s old new = elim (index s old) [
  | none ↦ s
  | some j ↦ take j s ++ (new ++ drop (j + length old) s)
]

cons_head : ℕ → List Bytes → List Bytes
cons_head x [] = (x ∷ []) ∷ []
cons_head x (t ∷ ts) = (x ∷ t) ∷ ts

-- strings.Split(s, sep) and strings.SplitN(s, sep, -1)
unfoldable pub split : ℕ → Bytes → List Bytes
unfolding cons_head
split sep [] = [] ∷ []
split sep (x ∷ xs) = let rest = split sep xs in if x == sep then [] ∷ rest else cons_head x rest

-- strings.Join(parts, sep)
unfoldable pub join : ℕ → List Bytes → Bytes
join sep [] = []
join sep (t ∷ []) = t
join sep (t ∷ u ∷ ts) = t ++ sep ∷ join sep (u ∷ ts)

-- strings.Contains(s, sub) for a sub of one byte
unfoldable pub contains : ℕ → Bytes → Bool
contains c [] = false
contains c (x ∷ xs) = x == c || contains c xs

lower : ℕ → ℕ
lower c = if leb b'A' c && leb c b'Z' then c + 32 else c

-- strings.ToLower(s)
unfoldable pub to_lower : Bytes → Bytes
unfolding lower
to_lower s = map lower s
