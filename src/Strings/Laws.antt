-- ===== src/Strings/Laws.antt =====
-- Facts about the string operations that the components share.
use fs_lib.Prelude.{
  ℕ, ◌+◌, List, [], ◌∷◌, ◌++◌, ◌≡◌, ◌≢◌, refl, sym, ap, ◌∙◌, true, false, ◌||◌, some, ==_iff, arith,
  Bytes, length, take, drop, take-append, drop-append, drop-drop,
}
use fs_lib.Strings.{has_prefix, index, replace_first, cons_head, split, join, contains}

pub has_prefix-append : (p s : Bytes) → has_prefix (p ++ s) p ≡ true
unfolding has_prefix
has_prefix-append [] s = refl
has_prefix-append (x ∷ p) s = ground (arith, has_prefix-append p s)

-- A text with a prefix is the prefix and the rest.
pub has_prefix-split : (s p : Bytes) → has_prefix s p ≡ true → p ++ drop (length p) s ≡ s
unfolding has_prefix drop
has_prefix-split s [] h = refl
has_prefix-split [] (x ∷ p) h = cc
has_prefix-split (y ∷ s) (x ∷ p) h = ground (arith, has_prefix-split s p)

pub index-append : (p s : Bytes) → index (p ++ s) p ≡ some 0
unfolding index has_prefix
index-append [] [] = refl
index-append [] (x ∷ s) = refl
index-append (x ∷ p) s = ground (arith, has_prefix-append (x ∷ p) s)

-- Replacing what a text begins with.
pub replace_first-append : (old new s : Bytes) → replace_first (old ++ s) old new ≡ new ++ s
unfolding replace_first take
replace_first-append old new s =
    rw (index-append old s, replace_first)
      (ap (λ b. new ++ b) (drop-append (0 + length old) old s (omega arith)))

pub contains-append : (c : ℕ) (s t : Bytes) → contains c (s ++ t) ≡ (contains c s || contains c t)
unfolding contains
contains-append c [] t = refl
contains-append c (x ∷ s) t = ground (arith, contains-append c s t)

pub split-free : (c : ℕ) (s : Bytes) → contains c s ≡ false → split c s ≡ s ∷ []
unfolding contains split cons_head
split-free c [] h = refl
split-free c (x ∷ s) h = ground (arith, split-free c s)

pub split-append :
    (c : ℕ) (s t : Bytes) → contains c s ≡ false → split c (s ++ c ∷ t) ≡ s ∷ split c t
unfolding contains split cons_head
split-append c [] t h = ground (arith, ==_iff c c)
split-append c (x ∷ s) t h = ground (arith, split-append c s t)

join-cons_head : (c x : ℕ) (ts : List Bytes) → join c (cons_head x ts) ≡ x ∷ join c ts
unfolding join cons_head
join-cons_head c x [] = refl
join-cons_head c x (t ∷ []) = refl
join-cons_head c x (t ∷ u ∷ ts) = refl

join-nil_head : (c : ℕ) (ts : List Bytes) → ts ≢ [] → join c ([] ∷ ts) ≡ c ∷ join c ts
unfolding join
join-nil_head c [] h = absurd (h refl)
join-nil_head c (t ∷ ts) h = refl

cons_head-ne-nil : (x : ℕ) (ts : List Bytes) → cons_head x ts ≢ []
unfolding cons_head
cons_head-ne-nil x [] h = cc
cons_head-ne-nil x (t ∷ ts) h = cc

split-ne-nil : (c : ℕ) (s : Bytes) → split c s ≢ []
unfolding split
split-ne-nil c [] h = cc
split-ne-nil c (x ∷ s) h = ground (arith, cons_head-ne-nil x (split c s))

-- Joining what was split gives the text back.
pub join-split : (c : ℕ) (s : Bytes) → join c (split c s) ≡ s
unfolding split
join-split c [] = unfold join in refl
join-split c (x ∷ s) = ground (
  arith,
  ==_iff x c,
  join-split c s,
  join-cons_head c x (split c s),
  join-nil_head c (split c s) (split-ne-nil c s),
)

-- Replacing at the position where the text is found first.
pub replace_first-at :
    (before old new s : Bytes)
    → index (before ++ (old ++ s)) old ≡ some (length before)
    → replace_first (before ++ (old ++ s)) old new ≡ before ++ (new ++ s)
unfolding replace_first
replace_first-at before old new s h =
    rw (h, replace_first)
      (λ i.
        take-append (length before) before (old ++ s) refl i
        ++ (new
            ++ (sym (drop-drop (length old) (length before) (before ++ (old ++ s)))
                  ∙ ap (drop (length old)) (drop-append (length before) before (old ++ s) refl)
                  ∙ drop-append (length old) old s refl)
                i))

cons_head-append :
    (x : ℕ) (ts us : List Bytes) → ts ≢ [] → cons_head x (ts ++ us) ≡ cons_head x ts ++ us
unfolding cons_head
cons_head-append x [] us h = absurd (h refl)
cons_head-append x (t ∷ ts) us h = refl

-- A text behind the last separator is one more part.
pub split-concat :
    (c : ℕ) (s t : Bytes) → contains c t ≡ false → split c (s ++ c ∷ t) ≡ split c s ++ t ∷ []
unfolding split
split-concat c [] t h = ground (arith, ==_iff c c, split-free c t h)
split-concat c (x ∷ s) t h =
    ground (arith, split-concat c s t h, cons_head-append x (split c s) (t ∷ []) (split-ne-nil c s))
