-- ===== src/Proxy/Debounce/Sends.antt =====
-- The callbacks of k8s/cmd/fsnotify-proxy/app/helper.go in their two parts: flushWriteDebounce takes
-- an event out under the lock, and calls sendEvent once it has given the lock back.
use fs_lib.Prelude.{
  ℕ, zero, suc, ◌+◌, List, [], ◌∷◌, ◌++◌, ◌≡◌, refl, ap, ◌∙◌, inl, inr, Bool, true, Option, none,
  some, Bool-cases, Option-cases, arith,
}
use fs_lib.Event.{Event}
use fs_lib.Proxy.Watcher.{Watcher}
use fs_lib.Proxy.Debounce.Steps.{close_closed, close_open}
use fs_lib.Proxy.Debounce.Schedule.{Turn, closes, take_turn, take_turn-closed}
use fs_lib.Jfs.Readers.Handed.{count, count-append}

-- `in_flight` has the events of the callbacks that have left the lock and not yet called sendEvent,
-- `sent` those for which it was called, in order.
pub record Sending : Type 0 where
  pub watcher : Watcher
  pub in_flight : List Event
  pub sent : List Event

-- A section under the lock, or the send of a callback behind it
pub data SendTurn : Type 0 where
  locks : Turn → SendTurn
  sends : ℕ → SendTurn

abbrev pub taken_out : Option Event → List Event
taken_out none = []
taken_out (some event) = event ∷ []

back : Event → Option (Event × List Event) → Option (Event × List Event)
back e none = none
back e (some (f, fs)) = some (f, e ∷ fs)

unfoldable pub take_event : ℕ → List Event → Option (Event × List Event)
unfolding back
take_event i [] = none
take_event zero (e ∷ es) = some (e, es)
take_event (suc i) (e ∷ es) = back e (take_event i es)

unfoldable pub take_send : SendTurn → Sending → Sending
unfolding take_turn take_event
take_send (locks t) s =
    let (w, event) = take_turn t s.watcher in
    record s { watcher = w; in_flight = s.in_flight ++ taken_out event }
take_send (sends i) s = elim (take_event i s.in_flight) [
  | none ↦ s
  | some (event, others) ↦ record s { in_flight = others; sent = s.sent ++ event ∷ [] }
]

unfoldable pub run_sends : List SendTurn → Sending → Sending
unfolding take_send
run_sends [] s = s
run_sends (t ∷ ts) s = run_sends ts (take_send t s)

-- What is sent and what is in flight
abbrev total : (Event → Bool) → Sending → ℕ
total test s = count test s.sent + count test s.in_flight

take_event-count :
    (test : Event → Bool) (i : ℕ) (es : List Event) (event : Event) (others : List Event)
    → take_event i es ≡ some (event, others)
    → count test es ≡ count test (event ∷ []) + count test others
unfolding take_event count back
take_event-count test i [] event others h = cc
take_event-count test zero (e ∷ es) event others h = ground (arith, h)
take_event-count test (suc i) (e ∷ es) event others h = elim (Option-cases (take_event i es)) [
  | inl nothing ↦ absurd (ground (arith, h, nothing))
  | inr ((f, fs), taken) ↦ ground (arith, h, taken, take_event-count test i es f fs taken)
]

sends-total :
    (test : Event → Bool) (i : ℕ) (s : Sending) → total test (take_send (sends i) s) ≡ total test s
unfolding take_send
sends-total test i s = elim (Option-cases (take_event i s.in_flight)) [
  | inl nothing ↦ rw (nothing, take_send) refl
  | inr ((event, others), taken) ↦
      rw (taken, take_send)
        (omega (
          arith,
          count-append test s.sent (event ∷ []),
          take_event-count test i s.in_flight event others taken,
        ))
]

locks-total :
    (test : Event → Bool) (t : Turn) (s : Sending)
    → (take_turn t s.watcher).1 ≡ none
    → total test (take_send (locks t) s) ≡ total test s
unfolding take_send count
locks-total test t s nothing =
    let same : count test (taken_out (take_turn t s.watcher).1) ≡ 0 =
      ap (λ o. count test (taken_out o)) nothing in
    omega (arith, same, count-append test s.in_flight (taken_out (take_turn t s.watcher).1))

take_send-watcher : (i : ℕ) (s : Sending) → (take_send (sends i) s).watcher ≡ s.watcher
unfolding take_send
take_send-watcher i s = elim (Option-cases (take_event i s.in_flight)) [
  | inl nothing ↦ rw (nothing, take_send) refl
  | inr (_, taken) ↦ rw (taken, take_send) refl
]

run_sends-closed :
    (ts : List SendTurn) (s : Sending)
    → s.watcher.closed ≡ true
    → ((run_sends ts s).watcher.closed ≡ true)
      × ((test : Event → Bool) → total test (run_sends ts s) ≡ total test s)
unfolding run_sends
run_sends-closed [] s down = (down, λ test. refl)
run_sends-closed (locks t ∷ ts) s down =
    let (still, nothing) = take_turn-closed t s.watcher down in
    let (closed, all) = run_sends-closed ts (take_send (locks t) s) (unfold take_send in still) in
    (closed, λ test. all test ∙ locks-total test t s nothing)
run_sends-closed (sends i ∷ ts) s down =
    let (closed, all) =
      run_sends-closed ts (take_send (sends i) s)
        (ap (λ (w : Watcher). w.closed) (take_send-watcher i s) ∙ down) in
    (closed, λ test. all test ∙ sends-total test i s)

closes-down : (w : Watcher) → (take_turn closes w).0.closed ≡ true
unfolding take_turn
closes-down w = elim (Bool-cases w.closed) [
  | inl down ↦ rw (close_closed w down) down
  | inr up ↦ rw (close_open w up) refl
]

-- Whatever is scheduled from a Close on, the events sent and in flight are, for whatever test picks
-- them out, as many as before the Close: a callback that has left the lock before the Close may
-- still send its event, and no further event is taken out or sent.
pub close_ends_sends :
    (ts : List SendTurn) (s : Sending)
    → ((run_sends (locks closes ∷ ts) s).watcher.closed ≡ true)
      × ((test : Event → Bool)
          → count test (run_sends (locks closes ∷ ts) s).sent
              + count test (run_sends (locks closes ∷ ts) s).in_flight
            ≡ count test s.sent + count test s.in_flight)
unfolding run_sends
close_ends_sends ts s =
    let (closed, all) =
      run_sends-closed ts (take_send (locks closes) s)
        (unfold take_send in closes-down s.watcher) in
    (closed, λ test. all test ∙ locks-total test closes s (unfold take_turn in refl))
