-- ===== src/Proxy/Debounce.antt =====
-- The write debounce of k8s/cmd/fsnotify-proxy/app/helper.go: armWriteDebounce,
-- flushWriteDebounce and Close, with the timers that run in between.
pub mod Timers
pub mod Steps
pub mod Live
pub mod Burst
pub mod Schedule
pub mod Sends
pub mod Reuse
use fs_lib.Prelude.{
  ℕ, zero, suc, ◌+◌, ◌%◌, ◌^◌, List, [], ◌∷◌, ◌++◌, Bool, true, false, not, ◌&&◌, ◌||◌, Option,
  none, some, ◌==◌, if◌then◌else◌, Bytes, equal, Map, lookup, insert, remove,
}
use fs_lib.Event.{Event}
use fs_lib.Proxy.Watcher.{DelayedWrite, Timer, Watcher}

abbrev pub is_timer : Bytes → ℕ → Timer → Bool
is_timer name gen t = equal t.name name && t.gen == gen

-- Stop of one timer: it takes back a callback that has not started.
unfoldable pub stop_timer : Bytes → ℕ → List Timer → List Timer
stop_timer name gen [] = []
stop_timer name gen (t ∷ ts) =
    let rest = stop_timer name gen ts in
    if is_timer name gen t && not t.started then rest else t ∷ rest

abbrev pub gen_of : Option DelayedWrite → ℕ
gen_of none = 0
gen_of (some d) = d.gen

abbrev pub stop_old : Bytes → Option DelayedWrite → List Timer → List Timer
stop_old name none ts = ts
stop_old name (some d) ts = stop_timer name d.gen ts

-- d.gen++ on a uint64
abbrev pub next_gen : ℕ → ℕ
next_gen gen = (gen + 1) % 2 ^ 64

-- The body of armWriteDebounce behind its test, for the delayed write of the name so far.
abbrev pub armed : Event → Option DelayedWrite → Watcher → Watcher
armed event old w = record w {
  delayed_writes =
      insert event.name (record { event = event; gen = next_gen (gen_of old) }) w.delayed_writes;
  timers =
      stop_old event.name old w.timers
      ++ (record { name = event.name; gen = next_gen (gen_of old); started = false } ∷ []);
}

-- armWriteDebounce
unfoldable pub arm_write_debounce : Event → Watcher → Watcher
unfolding stop_timer
arm_write_debounce event w =
    if w.closed then w else armed event (lookup event.name w.delayed_writes) w

-- flushWriteDebounce up to its send: the event that it sends
unfoldable pub flush_write_debounce : Bytes → ℕ → Watcher → Watcher × Option Event
flush_write_debounce name gen w = elim (lookup name w.delayed_writes) [
  | none ↦ (w, none)
  | some d ↦
      if not (d.gen == gen) || w.closed
      then (w, none)
      else (record w { delayed_writes = remove name w.delayed_writes }, some d.event)
]

-- d.timer.Stop() for each delayed write
unfoldable pub stop_all : Map DelayedWrite → List Timer → List Timer
unfolding stop_timer
stop_all [] ts = ts
stop_all ((name, d) ∷ m) ts = stop_all m (stop_timer name d.gen ts)

-- Close, with the call of Remove at its end
unfoldable pub close_watcher : Watcher → Watcher
unfolding stop_all
close_watcher w = if w.closed then w else record w {
  closed = true;
  delayed_writes = [];
  timers = stop_all w.delayed_writes w.timers;
  deletions = w.deletions ++ (w.cr_namespace, w.cr_name) ∷ [];
}

-- The time of timer `i` has come: its callback starts.
unfoldable pub start_at : ℕ → List Timer → List Timer
start_at i [] = []
start_at zero (t ∷ ts) = record t { started = true } ∷ ts
start_at (suc i) (t ∷ ts) = t ∷ start_at i ts

unfoldable pub expire : ℕ → Watcher → Watcher
unfolding start_at
expire i w = record w { timers = start_at i w.timers }

put_back : Timer → Option (Timer × List Timer) → Option (Timer × List Timer)
put_back t none = none
put_back t (some (u, ts)) = some (u, t ∷ ts)

unfoldable pub take_timer : ℕ → List Timer → Option (Timer × List Timer)
unfolding put_back
take_timer i [] = none
take_timer zero (t ∷ ts) = some (t, ts)
take_timer (suc i) (t ∷ ts) = put_back t (take_timer i ts)

-- The started callback of timer `i` gets the lock, up to its unlock: the event that it is to send.
unfoldable pub fire : ℕ → Watcher → Watcher × Option Event
unfolding take_timer flush_write_debounce
fire i w = elim (take_timer i w.timers) [
  | none ↦ (w, none)
  | some (t, ts) ↦
      if t.started then flush_write_debounce t.name t.gen (record w { timers = ts }) else (w, none)
]
