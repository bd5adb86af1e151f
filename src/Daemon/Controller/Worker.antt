-- ===== src/Daemon/Controller/Worker.antt =====
-- What the controller queues, and what its worker owes the queue.
use fs_lib.Prelude.{
  List, [], ◌∷◌, ◌++◌, ◌≡◌, ◌≢◌, refl, ap, ◌↔◌, ◌⊎◌, inl, inr, Bool, true, false, not, Option, none,
  some, Bool-cases, if◌then◌else◌, arith, Bytes, equal, equal_iff, Result, ok, err,
}
use fs_lib.Daemon.Controller.{
  Action, update, EnqueueObj, QueueCall, add_rate_limited, mark_done, diff, handle_object, queue_if,
  handle_update, process_item, run_worker,
}

module _ {O : Type 0} where
  -- The items up to the shutdown.
  abbrev pub handed_items : List (Option (O ⊎ EnqueueObj O)) → List (O ⊎ EnqueueObj O)
  handed_items [] = []
  handed_items (none ∷ rest) = []
  handed_items (some item ∷ rest) = item ∷ handed_items rest

  abbrev pub done_items : List (QueueCall O) → List (O ⊎ EnqueueObj O)
  done_items [] = []
  done_items (mark_done item ∷ calls) = item ∷ done_items calls
  done_items (_ ∷ calls) = done_items calls

  abbrev pub retried_items : List (QueueCall O) → List (EnqueueObj O)
  retried_items [] = []
  retried_items (add_rate_limited item ∷ calls) = item ∷ retried_items calls
  retried_items (_ ∷ calls) = retried_items calls

abbrev fails : {E : Type 0} → Option E → Bool
fails none = false
fails (some e) = true

changed_texts : (x y : Bytes) → x ≢ y → (if not (equal x y) then true else false) ≡ true
changed_texts x y ne = elim (Bool-cases (equal x y)) [
  | inl same ↦ absurd (ne ((equal_iff x y).0 same))
  | inr other ↦ rw other refl
]

module _ {O E : Type 0} where
  -- The items whose handler returns an error.
  abbrev pub failed_items : (Action → O → Option E) → List (O ⊎ EnqueueObj O) → List (EnqueueObj O)
  failed_items handler [] = []
  failed_items handler (inl other ∷ rest) = failed_items handler rest
  failed_items handler (inr item ∷ rest) =
      let later = failed_items handler rest in
      if fails (handler item.action item.obj) then item ∷ later else later

  queue_if_iff :
      (old : O) (a b : Result E Bytes)
      → (queue_if old (diff a b) ≡ handle_object update old)
        ↔ ((x : Bytes) × (y : Bytes) × (a ≡ ok x) × (b ≡ ok y) × (x ≢ y))
  unfolding queue_if diff handle_object
  queue_if_iff old (err e) b = (λ h. cc, λ h. absurd (cc (h.2)))
  queue_if_iff old (ok x) (err e) = (λ h. cc, λ h. absurd (cc (h.3)))
  queue_if_iff old (ok x) (ok y) = (
    λ h. (x, y, refl, refl, λ same. ground (arith, equal_iff x y)),
    λ (x', y', ex, ey, differ).
        ground (arith, changed_texts x y (λ same. differ (cc (ex, ey, same)))),
  )

  -- An update of an object queues the old object, as an UPDATE, exactly when both versions marshal
  -- and their texts differ.
  pub handle_update_iff :
      (marshal : O → Result E Bytes) (old new : O)
      → (handle_update marshal old new ≡ handle_object update old)
        ↔ ((x : Bytes) × (y : Bytes) × (marshal old ≡ ok x) × (marshal new ≡ ok y) × (x ≢ y))
  unfolding handle_update
  handle_update_iff marshal old new = queue_if_iff old (marshal old) (marshal new)

  -- The worker marks every item that it was handed before the shutdown as done, once and in order,
  -- and puts back exactly those whose handler returned an error, in order.
  pub run_worker-items :
      (handler : Action → O → Option E) (got : List (Option (O ⊎ EnqueueObj O)))
      → (done_items (run_worker handler got) ≡ handed_items got)
        × (retried_items (run_worker handler got) ≡ failed_items handler (handed_items got))
  unfolding run_worker
  run_worker-items handler [] = (refl, refl)
  run_worker-items handler (none ∷ rest) = (refl, refl)
  run_worker-items handler (some (inl other) ∷ rest) =
      let (marked, retried) = run_worker-items handler rest in
      (ap (λ l. inl other ∷ l) marked, retried)
  run_worker-items handler (some (inr item) ∷ rest) =
      item_step (handler item.action item.obj) refl (run_worker-items handler rest)
    where
      item_step :
          (o : Option E)
          → handler item.action item.obj ≡ o
          → (done_items (run_worker handler rest) ≡ handed_items rest)
            × (retried_items (run_worker handler rest) ≡ failed_items handler (handed_items rest))
          → (done_items (process_item handler (inr item) ++ run_worker handler rest)
              ≡ inr item ∷ handed_items rest)
            × (retried_items (process_item handler (inr item) ++ run_worker handler rest)
                ≡ failed_items handler (inr item ∷ handed_items rest))
      item_step none e (marked, retried) =
          rw (e, process_item) (ap (λ l. inr item ∷ l) marked, retried)
      item_step (some x) e (marked, retried) =
          rw (e, process_item) (ap (λ l. inr item ∷ l) marked, ap (λ l. item ∷ l) retried)
