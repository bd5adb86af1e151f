-- ===== src/Proxy/Debounce/Schedule.antt =====
-- Schedules of the debounce: arms, timers whose time comes, lock sections of callbacks, and a close, in
-- any order. A callback sends the event that its lock section takes out once it has given the lock
-- back: Proxy/Debounce/Sends.antt has that as a step of its own.
use fs_lib.Prelude.{
  ℕ, ◌+◌, ◌≤◌, List, [], ◌∷◌, ◌≡◌, refl, inl, inr, true, Option, none, some, Bool-cases,
  Option-cases, arith, Bytes, length, lookup, lookup-nil, length-insert, length-remove-lt,
}
use fs_lib.Event.{Event}
use fs_lib.Proxy.Watcher.{DelayedWrite, Watcher, new_watcher}
use fs_lib.Proxy.Debounce.{
  take_timer, arm_write_debounce, flush_write_debounce, close_watcher, expire, fire,
}
use fs_lib.Proxy.Debounce.Steps.{
  arm_closed, arm_open, close_closed, close_open, flush_absent, ignores, flush_ignored, flush_due,
  fire_absent, fire_waiting, fire_started,
}
use fs_lib.Proxy.Debounce.Live.{
  IsLive, arm_write_debounce-IsLive, expire-IsLive, close_watcher-IsLive, fire-IsLive,
}

pub data Turn : Type 0 where
  arms : Event → Turn
  expires fires : ℕ → Turn
  closes : Turn

unfoldable pub take_turn : Turn → Watcher → Watcher × Option Event
take_turn (arms event) w = (arm_write_debounce event w, none)
take_turn (expires i) w = (expire i w, none)
take_turn (fires i) w = fire i w
take_turn closes w = (close_watcher w, none)

abbrev pub with_sent : Option Event → List Event → List Event
with_sent none es = es
with_sent (some e) es = e ∷ es

-- A schedule, with the events that the callbacks take out to send, in order.
unfoldable pub run : List Turn → Watcher → Watcher × List Event
unfolding take_turn
run [] w = (w, [])
run (t ∷ ts) w =
    let (w1, sent) = take_turn t w in let (w2, rest) = run ts w1 in (w2, with_sent sent rest)

take_turn-IsLive : (t : Turn) (w : Watcher) → IsLive w → IsLive (take_turn t w).0
unfolding take_turn
take_turn-IsLive (arms event) w v = arm_write_debounce-IsLive event w v
take_turn-IsLive (expires i) w v = expire-IsLive i w v
take_turn-IsLive (fires i) w v = fire-IsLive i w v
take_turn-IsLive closes w v = close_watcher-IsLive w v

run-IsLive : (ts : List Turn) (w : Watcher) → IsLive w → IsLive (run ts w).0
unfolding run
run-IsLive [] w v = v
run-IsLive (t ∷ ts) w v = run-IsLive ts (take_turn t w).0 (take_turn-IsLive t w v)

-- After any schedule from a new watcher, each delayed write still has its timer, and a closed
-- watcher has no delayed write.
pub schedule-IsLive : (ts : List Turn) → IsLive (run ts new_watcher).0
schedule-IsLive ts = run-IsLive ts new_watcher (record {
  waiting = λ n d h. ground (arith, lookup-nil {V = DelayedWrite} n);
  closed_empty = λ h. refl;
})

flush_closed :
    (name : Bytes) (gen : ℕ) (w : Watcher)
    → w.closed ≡ true
    → ((flush_write_debounce name gen w).0.closed ≡ true)
      × ((flush_write_debounce name gen w).1 ≡ none)
flush_closed name gen w h = elim (Option-cases (lookup name w.delayed_writes)) [
  | inl absent ↦ rw (flush_absent w name gen absent) (h, refl)
  | inr (d, found) ↦ rw (flush_ignored w name gen d found (ground arith)) (h, refl)
]

-- Closed watchers stay closed, and no callback takes an event out.
pub take_turn-closed :
    (t : Turn) (w : Watcher)
    → w.closed ≡ true
    → ((take_turn t w).0.closed ≡ true) × ((take_turn t w).1 ≡ none)
unfolding take_turn expire
take_turn-closed (arms event) w h = rw (arm_closed w event h) (h, refl)
take_turn-closed (expires i) w h = (h, refl)
take_turn-closed (fires i) w h = elim (Option-cases (take_timer i w.timers)) [
  | inl nothing ↦ rw (fire_absent w i nothing) (h, refl)
  | inr ((t, ts), taken) ↦ elim (Bool-cases t.started) [
    | inr waits ↦ rw (fire_waiting w i t ts taken waits) (h, refl)
    | inl runs ↦
        rw (fire_started w i t ts taken runs)
          (flush_closed t.name t.gen (record w { timers = ts }) h)
  ]
]
take_turn-closed closes w h = rw (close_closed w h) (h, refl)

abbrev pub count_arm : Turn → ℕ
count_arm (arms event) = 1
count_arm _ = 0

abbrev pub arm_count : List Turn → ℕ
arm_count [] = 0
arm_count (t ∷ ts) = count_arm t + arm_count ts

abbrev count_sent : Option Event → ℕ
count_sent none = 0
count_sent (some e) = 1

-- What a step has taken out and still owes.
abbrev owed : Watcher × Option Event → ℕ
owed (w, sent) = count_sent sent + length w.delayed_writes

flush-owed :
    (name : Bytes) (gen : ℕ) (w : Watcher)
    → owed (flush_write_debounce name gen w) ≤ length w.delayed_writes
flush-owed name gen w = elim (Option-cases (lookup name w.delayed_writes)) [
  | inl absent ↦ rw (flush_absent w name gen absent) (omega arith)
  | inr (d, found) ↦ elim (Bool-cases (ignores w gen d)) [
    | inl stale ↦ rw (flush_ignored w name gen d found stale) (omega arith)
    | inr due ↦
        rw (flush_due w name gen d found due)
          (omega (arith, length-remove-lt name d w.delayed_writes found))
  ]
]

fire-owed : (i : ℕ) (w : Watcher) → owed (fire i w) ≤ length w.delayed_writes
fire-owed i w = elim (Option-cases (take_timer i w.timers)) [
  | inl nothing ↦ rw (fire_absent w i nothing) (omega arith)
  | inr ((t, ts), taken) ↦ elim (Bool-cases t.started) [
    | inr waits ↦ rw (fire_waiting w i t ts taken waits) (omega arith)
    | inl runs ↦
        rw (fire_started w i t ts taken runs) (flush-owed t.name t.gen (record w { timers = ts }))
  ]
]

arm-owed :
    (event : Event) (w : Watcher)
    → length (arm_write_debounce event w).delayed_writes ≤ 1 + length w.delayed_writes
arm-owed event w = elim (Bool-cases w.closed) [
  | inl down ↦ rw (arm_closed w event down) (omega arith)
  | inr up ↦ rw (arm_open w event up) (omega (arith, length-insert event.name _ w.delayed_writes))
]

close-owed : (w : Watcher) → length (close_watcher w).delayed_writes ≤ length w.delayed_writes
close-owed w = elim (Bool-cases w.closed) [
  | inl down ↦ rw (close_closed w down) (omega arith)
  | inr up ↦ rw (close_open w up) (omega arith)
]

take_turn-owed :
    (t : Turn) (w : Watcher) → owed (take_turn t w) ≤ count_arm t + length w.delayed_writes
unfolding take_turn expire
take_turn-owed (arms event) w = omega (arith, arm-owed event w)
take_turn-owed (expires i) w = omega arith
take_turn-owed (fires i) w = omega (arith, fire-owed i w)
take_turn-owed closes w = omega (arith, close-owed w)

length-with_sent :
    (o : Option Event) (es : List Event) → length (with_sent o es) ≡ count_sent o + length es
length-with_sent none es = omega arith
length-with_sent (some e) es = omega arith

-- In every schedule the events that the callbacks take out to send, with the delayed writes that are left,
-- are at most as many as the arms and the delayed writes at its start.
pub run-count :
    (ts : List Turn) (w : Watcher)
    → length (run ts w).1 + length (run ts w).0.delayed_writes
      ≤ arm_count ts + length w.delayed_writes
unfolding run
run-count [] w = omega arith
run-count (t ∷ ts) w = omega (
  arith,
  run-count ts (take_turn t w).0,
  take_turn-owed t w,
  length-with_sent (take_turn t w).1 (run ts (take_turn t w).0).1,
)
