-- ===== src/Jfs/Readers/Handed/Ordered.antt =====
-- The order of the events, until a second connection is dialled.
use fs_lib.Prelude.{
  ◌⊎◌, inl, inr, ltb, Bool-cases, ℕ, ◌+◌, ◌≤◌, List, [], ◌∷◌, ◌++◌, ◌≡◌, refl, sym, ap, ◌∙◌, Bool,
  false, arith, Bytes, length, length-append, append-nil, append_assoc,
}
use fs_lib.Event.{Event}
use fs_lib.Jfs.Watcher.{Watcher}
use fs_lib.Jfs.Connection.{received, handle_frame}
use fs_lib.Jfs.Readers.{
  ReaderAt, selects, reads, hands, reports, Pump, new_pump, hand_over, Step, dials, wakes, enters,
  gets, breaks, gives, reported, polls, sends, told, stops, adds, removes, closes, Reach, here,
  next,
}
use fs_lib.Jfs.Readers.Owned.{Owned, run-Owned}
use fs_lib.Jfs.Readers.Handed.{
  count, held_at, held, held-hand_over, received_one, enter-held, read_fails-held,
}
use fs_lib.Jfs.Readers.Handed.Counted.{Counted, count_held, run-Counted}

-- A routine that is the only one
alone :
    (before after all : List ReaderAt) (r : ReaderAt)
    → all ≡ before ++ r ∷ after
    → length all ≤ 1
    → (before ≡ []) × (after ≡ [])
alone [] [] all r e few = (refl, refl)
alone [] (a ∷ after) all r e few = absurd (omega (arith, ap length e, few))
alone (a ∷ before) after all r e few =
    absurd (omega (arith, ap length e, few, length-append before (r ∷ after)))

held-alone :
    (before after : List ReaderAt) (r : ReaderAt)
    → (before ≡ []) × (after ≡ [])
    → held (before ++ r ∷ after) ≡ held_at r
unfolding held
held-alone before after r (e, f) =
    ap (λ (rs : List ReaderAt). held (rs ++ r ∷ after)) e
    ∙ ap (λ (rs : List ReaderAt). held_at r ++ held rs) f
    ∙ append-nil (held_at r)

held-ended :
    (before rs after : List ReaderAt)
    → (before ≡ []) × (after ≡ [])
    → held (before ++ rs ++ after) ≡ held rs
held-ended before rs after (e, f) =
    ap (λ (xs : List ReaderAt). held (xs ++ rs ++ after)) e
    ∙ ap (λ (xs : List ReaderAt). held (rs ++ xs)) f
    ∙ ap held (append-nil rs)

abbrev InOrder : Pump → Type 0
InOrder p = p.events ++ held p.readers ≡ received p.frames

-- One step, with one routine at most
module _ (p : Pump) (few : length p.readers ≤ 1) (v : InOrder p) where
  in_order_at :
      (before after : List ReaderAt) (r : ReaderAt)
      → p.readers ≡ before ++ r ∷ after
      → p.events ++ held_at r ≡ received p.frames
  in_order_at before after r e =
      ap (λ es. p.events ++ es)
        (sym (ap held e ∙ held-alone before after r (alone before after p.readers r e few)))
      ∙ v

  ended-InOrder :
      (before rs after : List ReaderAt) (r : ReaderAt)
      → p.readers ≡ before ++ r ∷ after
      → held rs ≡ held_at r
      → p.events ++ held (before ++ rs ++ after) ≡ received p.frames
  ended-InOrder before rs after r e same =
      ap (λ es. p.events ++ es)
        (held-ended before rs after (alone before after p.readers r e few) ∙ same)
      ∙ in_order_at before after r e

  gets-InOrder :
      (before after : List ReaderAt) (id : ℕ) (b : Bytes)
      → p.readers ≡ before ++ reads id ∷ after
      → p.events ++ held (before ++ hand_over (handle_frame b) ∷ after)
        ≡ received (p.frames ++ b ∷ [])
  gets-InOrder before after id b e =
      ap (λ es. p.events ++ es)
        (held-alone before after (hand_over (handle_frame b))
            (alone before after p.readers (reads id) e few)
          ∙ held-hand_over (handle_frame b))
      ∙ ap (λ es. es ++ handle_frame b)
          (sym (append-nil p.events) ∙ in_order_at before after (reads id) e)
      ∙ sym (received_one p.frames b)

  gives-InOrder :
      (before after : List ReaderAt) (e : Event) (es : List Event)
      → p.readers ≡ before ++ hands e es ∷ after
      → (p.events ++ e ∷ []) ++ held (before ++ hand_over es ∷ after) ≡ received p.frames
  gives-InOrder before after e es at =
      ap (λ xs. (p.events ++ e ∷ []) ++ xs)
        (held-alone before after (hand_over es) (alone before after p.readers (hands e es) at few)
          ∙ held-hand_over es)
      ∙ append_assoc p.events (e ∷ []) es
      ∙ in_order_at before after (hands e es) at

first_dial : (rs : List ReaderAt) → length rs ≤ 0 → held (rs ++ selects ∷ []) ≡ held rs
unfolding held
first_dial [] few = refl
first_dial (r ∷ rs) few = absurd (omega (arith, few))

step-InOrder :
    (p q : Pump) → Step p q → Owned p → q.dialled ≤ 1 → (p.dialled ≤ 1 → InOrder p) → InOrder q
unfolding held
step-InOrder p q (dials answer down on h) o few v =
    let none = o.few_readers in
    ap (λ es. p.events ++ es) (first_dial p.readers (omega arith)) ∙ v (omega arith)
step-InOrder p q (wakes signal signals up e) o few v = v few
step-InOrder p q (enters before after rs e h) o few v =
    let one = o.few_readers in
    ended-InOrder p (omega arith) (v few) before rs after selects e
      (enter-held p.watcher p.dialled rs h)
step-InOrder p q (gets before after b e up) o few v =
    let one = o.few_readers in gets-InOrder p (omega arith) (v few) before after p.dialled b e
step-InOrder p q (breaks before after rs id e {w} at h) o few v =
    let one = o.few_readers in
    ended-InOrder p (omega arith) (v few) before rs after (reads id) at
      (read_fails-held e p.watcher w rs h)
step-InOrder p q (gives before after e es at) o few v =
    let one = o.few_readers in gives-InOrder p (omega arith) (v few) before after e es at
step-InOrder p q (reported before after e at) o few v =
    let one = o.few_readers in
    ap (λ es. p.events ++ es)
      (held-alone before after selects (alone before after p.readers (reports e) at (omega arith)))
    ∙ in_order_at p (omega arith) (v few) before after (reports e) at
step-InOrder p q (polls before after at up) o few v = v few
step-InOrder p q (sends before after answer b q' {w} {at} e _ h) o few v = v few
step-InOrder p q (told before after e at) o few v = v few
step-InOrder p q (stops before after at off) o few v = v few
step-InOrder p q (adds path {w} h) o few v = v few
step-InOrder p q (removes path {w} h) o few v = v few
step-InOrder p q closes o few v = v few

run-InOrder :
    (w : Watcher) (p : Pump)
    → w.connected ≡ false
    → Reach (new_pump w) p
    → p.dialled ≤ 1
    → InOrder p
unfolding held received
run-InOrder w p down here few = refl
run-InOrder w p down (next {q} r s) few =
    step-InOrder q p s (run-Owned w q down r) few (run-InOrder w q down r)

-- However the goroutines and the calls of a new watcher interleave, over all its connections: of
-- the events in the frames that were read, the program has taken or the read routines hold as many
-- as there are, whatever test picks them out; and these are the events in the order of the frames,
-- or a second connection has been dialled.
pub run-KeepsEvents :
    (w : Watcher) (p : Pump)
    → w.connected ≡ false
    → Reach (new_pump w) p
    → ((test : Event → Bool)
        → count test p.events + count test (held p.readers) ≡ count test (received p.frames))
      × ((p.events ++ held p.readers ≡ received p.frames) ⊎ (2 ≤ p.dialled))
unfolding Counted count_held
run-KeepsEvents w p down r = (
  λ test. run-Counted test w p r,
  elim (Bool-cases (ltb 1 p.dialled)) [
    | inl more ↦ inr (ground arith)
    | inr few ↦ inl (run-InOrder w p down r (ground arith))
  ],
)
