-- ===== src/Jfs/Readers/Handed/Counted.antt =====
-- How many of the events pass a test: none is lost, and none comes twice.
use fs_lib.Prelude.{ℕ, ◌+◌, List, [], ◌∷◌, ◌++◌, ◌≡◌, refl, ap, ◌∙◌, Bool, arith, append-nil}
use fs_lib.Event.{Event}
use fs_lib.Jfs.Watcher.{Watcher}
use fs_lib.Jfs.Connection.{received, handle_frame}
use fs_lib.Jfs.Readers.{
  ReaderAt, selects, reads, hands, reports, Pump, new_pump, hand_over, Step, dials, wakes, enters,
  gets, breaks, gives, reported, polls, sends, told, stops, adds, removes, closes, Reach, here,
  next,
}
use fs_lib.Jfs.Readers.Handed.{
  count, count-append, held_at, held, held-hand_over, held-append, received_one, enter-held,
  read_fails-held,
}

-- How many events that the test accepts are taken or held, and how many were read
module _ (test : Event → Bool) where
  unfoldable pub count_held : List ReaderAt → ℕ
  count_held rs = count test (held rs)

  count_held-append :
      (rs ss : List ReaderAt) → count_held (rs ++ ss) ≡ count_held rs + count_held ss
  unfolding count_held
  count_held-append rs ss =
      ap (λ es. count test es) (held-append rs ss) ∙ count-append test (held rs) (held ss)

  count_held-one : (r : ReaderAt) → count_held (r ∷ []) ≡ count test (held_at r)
  unfolding count_held held
  count_held-one r = ap (λ es. count test es) (append-nil (held_at r))

  -- One routine has gone on, or has ended.
  count_held-swap :
      (before rs after all : List ReaderAt) (r : ReaderAt)
      → all ≡ before ++ r ∷ after
      → count_held (before ++ rs ++ after) + count test (held_at r) ≡ count_held all + count_held rs
  count_held-swap before rs after all r e = omega (
    arith,
    ap count_held e,
    count_held-append (before ++ rs) after,
    count_held-append before rs,
    count_held-append before (r ∷ after),
    count_held-append (r ∷ []) after,
    count_held-one r,
  )

  count_held-put :
      (before after all : List ReaderAt) (r s : ReaderAt)
      → all ≡ before ++ r ∷ after
      → count_held (before ++ s ∷ after) + count test (held_at r)
        ≡ count_held all + count test (held_at s)
  count_held-put before after all r s e = omega (
    arith,
    ap count_held e,
    count_held-append before (s ∷ after),
    count_held-append (s ∷ []) after,
    count_held-append before (r ∷ after),
    count_held-append (r ∷ []) after,
    count_held-one r,
    count_held-one s,
  )

  unfoldable pub Counted : Pump → Type 0
  Counted p = count test p.events + count_held p.readers ≡ count test (received p.frames)

  step-Counted : (p q : Pump) → Step p q → Counted p → Counted q
  unfolding Counted count count_held
  step-Counted p q (dials answer down on h) v =
      omega (arith, v, count_held-append p.readers (selects ∷ []), count_held-one selects)
  step-Counted p q (wakes signal signals up e) v = v
  step-Counted p q (enters before after rs e h) v = omega (
    arith,
    v,
    count_held-swap before rs after p.readers selects e,
    ap (λ es. count test es) (enter-held p.watcher p.dialled rs h),
  )
  step-Counted p q (gets before after b e up) v = omega (
    arith,
    v,
    count_held-put before after p.readers (reads p.dialled) (hand_over (handle_frame b)) e,
    ap (λ es. count test es) (held-hand_over (handle_frame b)),
    ap (λ es. count test es) (received_one p.frames b),
    count-append test (received p.frames) (handle_frame b),
  )
  step-Counted p q (breaks before after rs id e {w} at h) v = omega (
    arith,
    v,
    count_held-swap before rs after p.readers (reads id) at,
    ap (λ es. count test es) (read_fails-held e p.watcher w rs h),
  )
  step-Counted p q (gives before after e es at) v = omega (
    arith,
    v,
    count_held-put before after p.readers (hands e es) (hand_over es) at,
    ap (λ es. count test es) (held-hand_over es),
    count-append test p.events (e ∷ []),
    count-append test (e ∷ []) es,
  )
  step-Counted p q (reported before after e at) v =
      omega (arith, v, count_held-put before after p.readers (reports e) selects at)
  step-Counted p q (polls before after at up) v = v
  step-Counted p q (sends before after answer b q' {w} {at} e _ h) v = v
  step-Counted p q (told before after e at) v = v
  step-Counted p q (stops before after at off) v = v
  step-Counted p q (adds path {w} h) v = v
  step-Counted p q (removes path {w} h) v = v
  step-Counted p q closes v = v

  pub run-Counted : (w : Watcher) (p : Pump) → Reach (new_pump w) p → Counted p
  unfolding Counted count count_held held received
  run-Counted w p here = refl
  run-Counted w p (next {q} r s) = step-Counted q p s (run-Counted w q r)
