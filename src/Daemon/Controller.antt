-- ===== src/Daemon/Controller.antt =====
-- k8s/pkg/fswatchers/v1alpha1/controller.go: the handlers of the informer's events, and the worker
-- that takes the queue's items to the handler. The rate-limited queue is not under this
-- repository: what is modelled is which calls of it the worker makes.
pub mod Worker
use fs_lib.Prelude.{
  ℕ, ◌+◌, List, [], ◌∷◌, ◌++◌, ◌⊎◌, inl, inr, Bool, true, false, not, Option, none, some,
  if◌then◌else◌, Bytes, equal, Result, ok, err,
}

-- Action
pub data Action : Type 0 where
  unknown add update delete : Action

-- enqueueObj, over the type of the objects
pub record EnqueueObj (O : Type 0) : Type 0 where
  pub action : Action
  pub obj : O

-- The calls of the work queue.
pub data QueueCall (O : Type 0) : Type 0 where
  queue_add : EnqueueObj O → QueueCall O
  add_rate_limited : EnqueueObj O → QueueCall O
  forget : O ⊎ EnqueueObj O → QueueCall O
  mark_done : O ⊎ EnqueueObj O → QueueCall O

-- The events of the informer, with the objects that it hands over.
pub data Notice (O : Type 0) : Type 0 where
  added deleted : O → Notice O
  updated : O → O → Notice O

-- Run, over the answer of WaitForCacheSync: an error, or how many workers it has started by the
-- stop. The queue is shut down in both cases.
pub data RunResult : Type 0 where
  not_synced : RunResult
  stopped : ℕ → RunResult

unfoldable pub run_controller : Bool → ℕ → RunResult
run_controller synced workers = if synced then stopped workers else not_synced

-- diff of two marshalled objects
unfoldable pub diff : {E : Type 0} → Result E Bytes → Result E Bytes → Result E Bool
diff (err e) new = err e
diff (ok old) (err e) = err e
diff (ok old) (ok new) = ok (not (equal old new))

-- handleAddObject, handleUpdateObject, handleDeleteObject through enqueue
unfoldable pub handle_object : {O : Type 0} → Action → O → List (QueueCall O)
handle_object action obj = queue_add (record { action = action; obj = obj }) ∷ []

module _ {O E : Type 0} where
  queue_if : O → Result E Bool → List (QueueCall O)
  queue_if old (err e) = []
  queue_if old (ok changed) = if changed then handle_object update old else []

  -- UpdateFunc: the old object is queued if the two differ; an error is logged.
  unfoldable pub handle_update : (O → Result E Bytes) → O → O → List (QueueCall O)
  unfolding diff handle_object queue_if
  handle_update marshal old new = queue_if old (diff (marshal old) (marshal new))

  -- AddEventHandler of NewController: what the queue is called with for an event of the informer.
  unfoldable pub on_notice : (O → Result E Bytes) → Notice O → List (QueueCall O)
  unfolding handle_object handle_update
  on_notice marshal (added o) = handle_object add o
  on_notice marshal (updated old new) = handle_update marshal old new
  on_notice marshal (deleted o) = handle_object delete o

  -- What the worker does with an item: `inl` is one that is no enqueueObj.
  process_item : (Action → O → Option E) → O ⊎ EnqueueObj O → List (QueueCall O)
  process_item handler (inl other) = forget (inl other) ∷ mark_done (inl other) ∷ []
  process_item handler (inr item) = elim (handler item.action item.obj) [
    | some e ↦ add_rate_limited item ∷ mark_done (inr item) ∷ []
    | none ↦ forget (inr item) ∷ mark_done (inr item) ∷ []
  ]

  -- processNextWorkItem; `none` is the queue's shutdown
  unfoldable pub process_next_work_item :
      (Action → O → Option E) → Option (O ⊎ EnqueueObj O) → Bool × List (QueueCall O)
  unfolding process_item
  process_next_work_item handler none = (false, [])
  process_next_work_item handler (some item) = (true, process_item handler item)

  -- runWorker, over what the queue hands out: it ends at the queue's shutdown.
  unfoldable pub run_worker :
      (Action → O → Option E) → List (Option (O ⊎ EnqueueObj O)) → List (QueueCall O)
  unfolding process_next_work_item
  run_worker handler [] = []
  run_worker handler (got ∷ rest) =
      let (more, calls) = process_next_work_item handler got in
      let later = run_worker handler rest in calls ++ (if more then later else [])
