-- ===== src/Proxy/Debounce/Steps.antt =====
-- The branches of the debounce operations, as equations.
use fs_lib.Prelude.{
  ℕ, List, [], ◌∷◌, ◌++◌, ◌≡◌, refl, Bool, true, false, not, ◌||◌, none, some, ◌==◌, arith, Bytes,
  lookup, remove,
}
use fs_lib.Event.{Event}
use fs_lib.Proxy.Watcher.{DelayedWrite, Timer, Watcher}
use fs_lib.Proxy.Debounce.{
  stop_all, armed, take_timer, arm_write_debounce, flush_write_debounce, close_watcher, fire,
}

module _ (w : Watcher) where
  pub arm_closed : (event : Event) → w.closed ≡ true → arm_write_debounce event w ≡ w
  unfolding arm_write_debounce
  arm_closed event h = ground arith

  pub arm_open :
      (event : Event)
      → w.closed ≡ false
      → arm_write_debounce event w ≡ armed event (lookup event.name w.delayed_writes) w
  unfolding arm_write_debounce
  arm_open event h = ground arith

  abbrev pub shut : Watcher
  shut = record w {
    closed = true;
    delayed_writes = [];
    timers = stop_all w.delayed_writes w.timers;
    deletions = w.deletions ++ (w.cr_namespace, w.cr_name) ∷ [];
  }

  pub close_closed : w.closed ≡ true → close_watcher w ≡ w
  unfolding close_watcher
  close_closed h = ground arith

  pub close_open : w.closed ≡ false → close_watcher w ≡ shut
  unfolding close_watcher
  close_open h = ground arith

  pub flush_absent :
      (name : Bytes) (gen : ℕ)
      → lookup name w.delayed_writes ≡ none
      → flush_write_debounce name gen w ≡ (w, none)
  unfolding flush_write_debounce
  flush_absent name gen h = rw (h, flush_write_debounce) refl

  abbrev pub ignores : ℕ → DelayedWrite → Bool
  ignores gen d = not (d.gen == gen) || w.closed

  pub flush_ignored :
      (name : Bytes) (gen : ℕ) (d : DelayedWrite)
      → lookup name w.delayed_writes ≡ some d
      → ignores gen d ≡ true
      → flush_write_debounce name gen w ≡ (w, none)
  unfolding flush_write_debounce
  flush_ignored name gen d h i = rw (h, flush_write_debounce) (rw i refl)

  pub flush_due :
      (name : Bytes) (gen : ℕ) (d : DelayedWrite)
      → lookup name w.delayed_writes ≡ some d
      → ignores gen d ≡ false
      → flush_write_debounce name gen w
        ≡ (record w { delayed_writes = remove name w.delayed_writes }, some d.event)
  unfolding flush_write_debounce
  flush_due name gen d h i = rw (h, flush_write_debounce) (rw i refl)

  pub fire_absent : (i : ℕ) → take_timer i w.timers ≡ none → fire i w ≡ (w, none)
  unfolding fire
  fire_absent i h = rw (h, fire) refl

  pub fire_waiting :
      (i : ℕ) (t : Timer) (ts : List Timer)
      → take_timer i w.timers ≡ some (t, ts)
      → t.started ≡ false
      → fire i w ≡ (w, none)
  unfolding fire
  fire_waiting i t ts h e = rw (h, fire) (rw e refl)

  pub fire_started :
      (i : ℕ) (t : Timer) (ts : List Timer)
      → take_timer i w.timers ≡ some (t, ts)
      → t.started ≡ true
      → fire i w ≡ flush_write_debounce t.name t.gen (record w { timers = ts })
  unfolding fire
  fire_started i t ts h e = rw (h, fire) (rw e refl)
