-- ===== src/Tests/Debounce.antt =====
-- The debounce of plain writes of k8s/cmd/fsnotify-proxy/app/helper.go.
use fs_lib.Prelude.{
  Bool, arith, ◌+◌, ℕ, List, [], ◌∷◌, ◌≡◌, ◌≢◌, refl, true, false, none, some, codes, equal, lookup,
  insert,
}
use fs_lib.Event.{Event}
use fs_lib.Proxy.Watcher.{Watcher, DelayedWrite, new_watcher}
use fs_lib.Proxy.Debounce.{
  arm_write_debounce, flush_write_debounce, start_at, take_timer, expire, fire, close_watcher,
}
use fs_lib.Proxy.Debounce.Live.{IsLive}
use fs_lib.Proxy.Debounce.Burst.{arm_all, burst, delayed_write_flushes}
use fs_lib.Proxy.Debounce.Reuse.{late_callback, stale_callback_flushes}
use fs_lib.Proxy.Debounce.Schedule.{
  Turn, arms, expires, fires, closes, take_turn, run, schedule-IsLive,
}
use fs_lib.Proxy.Debounce.Sends.{Sending, sends, locks, take_event, run_sends, close_ends_sends}
use fs_lib.Jfs.Readers.Handed.{count}

abbrev write_a : Event
write_a = record { name = codes "/a/x"; op = 2; key = codes "/a" }

abbrev rewrite_a : Event
rewrite_a = record { name = codes "/a/x"; op = 2; key = codes "/a/x" }

abbrev after_burst : Watcher
after_burst = arm_all (write_a ∷ rewrite_a ∷ []) new_watcher

burst_example :
    (early : DelayedWrite) × (last : DelayedWrite) × (lookup
        (codes "/a/x")
        (arm_write_debounce write_a new_watcher).delayed_writes
      ≡ some early)
    × (flush_write_debounce (codes "/a/x") early.gen after_burst ≡ (after_burst, none))
    × ((gen : ℕ)
        → gen ≢ last.gen
        → flush_write_debounce (codes "/a/x") gen after_burst ≡ (after_burst, none))
    × (lookup (codes "/a/x") after_burst.delayed_writes ≡ some last)
    × ((flush_write_debounce (codes "/a/x") last.gen after_burst).1 ≡ some rewrite_a)
    × (lookup
          (codes "/a/x")
          (flush_write_debounce (codes "/a/x") last.gen after_burst).0.delayed_writes
        ≡ none)
burst_example = burst write_a [] rewrite_a [] new_watcher tt (refl, tt) (omega arith) refl

abbrev first_write : DelayedWrite
first_write = record { event = write_a; gen = 1 }

abbrev armed_once : Watcher
armed_once = arm_write_debounce write_a new_watcher

armed_once_open : armed_once.closed ≡ false
unfolding arm_write_debounce
armed_once_open = refl

armed_once_found : lookup (codes "/a/x") armed_once.delayed_writes ≡ some first_write
unfolding arm_write_debounce lookup insert equal
armed_once_found = refl

armed_once-IsLive : IsLive armed_once
unfolding run
armed_once-IsLive = schedule-IsLive (arms write_a ∷ [])

delayed_write_flushes_example : (i : ℕ) × ((fire i (expire i armed_once)).1 ≡ some write_a)
delayed_write_flushes_example =
    delayed_write_flushes armed_once (codes "/a/x") first_write armed_once-IsLive armed_once_open
      armed_once_found

abbrev turns : List Turn
turns = arms write_a ∷ expires 0 ∷ arms rewrite_a ∷ fires 0 ∷ closes ∷ fires 0 ∷ []

schedule-IsLive_example : IsLive (run turns new_watcher).0
schedule-IsLive_example = schedule-IsLive turns

-- A callback has taken its event out when the Close comes, and sends it afterwards.
abbrev caught : Sending
caught =
    run_sends (locks (arms write_a) ∷ locks (expires 0) ∷ locks (fires 0) ∷ [])
      (record { watcher = new_watcher; in_flight = []; sent = [] })

caught-in_flight : (caught.in_flight ≡ write_a ∷ []) × (caught.sent ≡ [])
unfolding run_sends take_turn arm_write_debounce expire start_at fire take_timer
    flush_write_debounce lookup insert equal
caught-in_flight = (refl, refl)

close_ends_sends_example :
    let after = run_sends (locks closes ∷ locks (arms rewrite_a) ∷ sends 0 ∷ []) caught in
    (after.watcher.closed ≡ true)
    × ((test : Event → Bool)
        → count test after.sent + count test after.in_flight
          ≡ count test caught.sent + count test caught.in_flight)
close_ends_sends_example = close_ends_sends (locks (arms rewrite_a) ∷ sends 0 ∷ []) caught

sent_late :
    (run_sends (locks closes ∷ locks (arms rewrite_a) ∷ sends 0 ∷ []) caught).sent ≡ write_a ∷ []
unfolding run_sends take_turn arm_write_debounce expire start_at fire take_timer
    flush_write_debounce lookup insert equal close_watcher take_event
sent_late = refl

abbrev third_write : Event
third_write = record { name = codes "/a/x"; op = 2; key = codes "/a/y" }

stale_callback_flushes_example :
    ((run (late_callback write_a rewrite_a third_write) new_watcher).1
      ≡ rewrite_a ∷ third_write ∷ [])
    × ((run (late_callback write_a rewrite_a third_write) new_watcher).0.timers
        ≡ record { name = codes "/a/x"; gen = 1; started = false } ∷ [])
stale_callback_flushes_example = stale_callback_flushes write_a rewrite_a third_write refl refl
