-- ===== src/Proxy/Debounce/Reuse.antt =====
-- A generation that comes again: when a flush has deleted the delayed write of a name, the next
-- WRITE of that name counts from one again.
use fs_lib.Prelude.{
  ℕ, List, [], ◌∷◌, ◌≡◌, sym, ap, ◌∙◌, true, false, Option, none, some, arith, Bytes, equal_refl,
  Map, lookup, insert, remove,
}
use fs_lib.Event.{Event}
use fs_lib.Proxy.Watcher.{DelayedWrite, Timer, Watcher, new_watcher}
use fs_lib.Proxy.Debounce.{
  stop_timer, start_at, take_timer, arm_write_debounce, flush_write_debounce, expire, fire,
}
use fs_lib.Proxy.Debounce.Schedule.{Turn, arms, expires, fires, take_turn, with_sent, run}

-- The first callback starts and waits for the lock; the second WRITE is flushed; the third one is
-- armed; then the first callback gets the lock.
abbrev pub late_callback : Event → Event → Event → List Turn
late_callback first second third =
    arms first ∷ expires 0 ∷ arms second ∷ expires 1 ∷ fires 1 ∷ arms third ∷ fires 0 ∷ []

abbrev holds : Map DelayedWrite → List Timer → Watcher
holds m ts = record new_watcher { delayed_writes = m; timers = ts }

abbrev waits : Bytes → ℕ → Timer
waits name gen = record { name = name; gen = gen; started = false }

abbrev runs : Bytes → ℕ → Timer
runs name gen = record { name = name; gen = gen; started = true }

abbrev delays : Event → ℕ → Map DelayedWrite
delays event gen = (event.name, record { event = event; gen = gen }) ∷ []

turn_first :
    (t : Turn) (ts : List Turn) (w w' : Watcher) (sent : Option Event)
    → take_turn t w ≡ (w', sent)
    → run (t ∷ ts) w ≡ ((run ts w').0, with_sent sent (run ts w').1)
unfolding run
turn_first t ts w w' sent e =
    ap (λ (r : Watcher × Option Event). ((run ts r.0).0, with_sent r.1 (run ts r.0).1)) e

armed_again :
    (old new : Event)
    → old.name ≡ new.name
    → take_turn (arms new) (holds (delays old 1) (runs new.name 1 ∷ []))
      ≡ (holds (delays new 2) (runs new.name 1 ∷ waits new.name 2 ∷ []), none)
unfolding take_turn arm_write_debounce stop_timer lookup insert
armed_again old new same = rw same (ground (arith, equal_refl new.name))

flushed :
    (event : Event)
    → take_turn (fires 1) (holds (delays event 2) (runs event.name 1 ∷ runs event.name 2 ∷ []))
      ≡ (holds [] (runs event.name 1 ∷ []), some event)
unfolding take_turn fire take_timer flush_write_debounce lookup remove
flushed event = ground (arith, equal_refl event.name)

flushed_early :
    (event : Event)
    → take_turn (fires 0) (holds (delays event 1) (runs event.name 1 ∷ waits event.name 1 ∷ []))
      ≡ (holds [] (waits event.name 1 ∷ []), some event)
unfolding take_turn fire take_timer flush_write_debounce lookup remove
flushed_early event = ground (arith, equal_refl event.name)

with_first : Option Event → Watcher × List Event → Watcher × List Event
with_first sent (w, rest) = (w, with_sent sent rest)

third_goes :
    (second third : Event)
    → second.name ≡ third.name
    → run (arms third ∷ fires 0 ∷ []) (holds [] (runs second.name 1 ∷ []))
      ≡ (holds [] (waits third.name 1 ∷ []), third ∷ [])
unfolding run take_turn arm_write_debounce lookup insert
third_goes second third same = rw same (
    turn_first (fires 0) [] (holds (delays third 1) (runs third.name 1 ∷ waits third.name 1 ∷ []))
      (holds [] (waits third.name 1 ∷ [])) (some third) (flushed_early third))

second_goes :
    (second third : Event)
    → second.name ≡ third.name
    → run
        (expires 1 ∷ fires 1 ∷ arms third ∷ fires 0 ∷ [])
        (holds (delays second 2) (runs second.name 1 ∷ waits second.name 2 ∷ []))
      ≡ (holds [] (waits third.name 1 ∷ []), second ∷ third ∷ [])
unfolding run take_turn expire start_at with_first
second_goes second third same =
    turn_first (fires 1) (arms third ∷ fires 0 ∷ [])
      (holds (delays second 2) (runs second.name 1 ∷ runs second.name 2 ∷ []))
      (holds [] (runs second.name 1 ∷ [])) (some second) (flushed second)
    ∙ ap (with_first (some second)) (third_goes second third same)

first_waits :
    (first second third : Event)
    → first.name ≡ second.name
    → second.name ≡ third.name
    → run (late_callback first second third) new_watcher
      ≡ (holds [] (waits third.name 1 ∷ []), second ∷ third ∷ [])
unfolding run take_turn arm_write_debounce expire start_at lookup insert with_first
first_waits first second third e same =
    ap
      (λ n.
        run (arms second ∷ expires 1 ∷ fires 1 ∷ arms third ∷ fires 0 ∷ [])
          (holds (delays first 1) (runs n 1 ∷ [])))
      e
    ∙ turn_first (arms second) (expires 1 ∷ fires 1 ∷ arms third ∷ fires 0 ∷ [])
        (holds (delays first 1) (runs second.name 1 ∷ []))
        (holds (delays second 2) (runs second.name 1 ∷ waits second.name 2 ∷ [])) none
        (armed_again first second e)
    ∙ second_goes second third same

-- Three WRITEs of one file on a new watcher, where the callback of the first one waits for the lock
-- while the second one is flushed and the third one comes: it sends the third WRITE at once,
-- although that one's timer has not started its callback.
pub stale_callback_flushes :
    (first second third : Event)
    → first.name ≡ second.name
    → first.name ≡ third.name
    → ((run (late_callback first second third) new_watcher).1 ≡ second ∷ third ∷ [])
      × ((run (late_callback first second third) new_watcher).0.timers
          ≡ record { name = third.name; gen = 1; started = false } ∷ [])
stale_callback_flushes first second third e f =
    let ran = first_waits first second third e (sym e ∙ f) in
    (ap (λ (r : Watcher × List Event). r.1) ran, ap (λ (r : Watcher × List Event). r.0.timers) ran)
