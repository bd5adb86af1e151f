-- ===== src/Proxy/Debounce/Timers.antt =====
-- What the operations on timers leave of the timer of a given name and generation.
use fs_lib.Prelude.{
  ℕ, zero, suc, List, [], ◌∷◌, ◌++◌, ◌≡◌, refl, ap, inl, inr, Bool, false, ◌||◌, some, Option-cases,
  arith, Bytes, equal, equal_iff,
}
use fs_lib.Proxy.Watcher.{Timer}
use fs_lib.Proxy.Debounce.{is_timer, stop_timer, start_at, put_back, take_timer}

unfoldable pub has_timer : Bytes → ℕ → List Timer → Bool
has_timer name gen [] = false
has_timer name gen (t ∷ ts) = is_timer name gen t || has_timer name gen ts

pub has_timer-append :
    (n : Bytes) (g : ℕ) (ts us : List Timer)
    → has_timer n g (ts ++ us) ≡ (has_timer n g ts || has_timer n g us)
unfolding has_timer
has_timer-append n g [] us = refl
has_timer-append n g (t ∷ ts) us = ground (arith, has_timer-append n g ts us)

-- Stop of one name's timer leaves the other names' timers.
pub has_timer-stop_timer :
    (n m : Bytes) (g k : ℕ) (ts : List Timer)
    → equal m n ≡ false
    → has_timer n g (stop_timer m k ts) ≡ has_timer n g ts
unfolding has_timer stop_timer
has_timer-stop_timer n m g k [] h = refl
has_timer-stop_timer n m g k (t ∷ ts) h = ground (
  arith,
  equal_iff t.name n,
  equal_iff t.name m,
  equal_iff m n,
  has_timer-stop_timer n m g k ts h,
)

pub has_timer-start_at :
    (n : Bytes) (g i : ℕ) (ts : List Timer) → has_timer n g (start_at i ts) ≡ has_timer n g ts
unfolding has_timer start_at
has_timer-start_at n g zero [] = refl
has_timer-start_at n g (suc i) [] = refl
has_timer-start_at n g zero (t ∷ ts) = refl
has_timer-start_at n g (suc i) (t ∷ ts) =
    ap (λ b. is_timer n g t || b) (has_timer-start_at n g i ts)

pub has_timer-take_timer :
    (n : Bytes) (g i : ℕ) (ts us : List Timer) (t : Timer)
    → take_timer i ts ≡ some (t, us)
    → has_timer n g ts ≡ (is_timer n g t || has_timer n g us)
unfolding has_timer take_timer put_back
has_timer-take_timer n g zero [] us t e = cc
has_timer-take_timer n g (suc i) [] us t e = cc
has_timer-take_timer n g zero (x ∷ ts) us t e = ground arith
has_timer-take_timer n g (suc i) (x ∷ ts) us t e = elim (Option-cases (take_timer i ts)) [
  | inl nothing ↦ ground arith
  | inr ((u, vs), found) ↦ ground (arith, has_timer-take_timer n g i ts vs u found)
]
