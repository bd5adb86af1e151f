-- ===== src/Proxy/Debounce/Live.antt =====
-- No delayed write is lost: while the watcher is open, each has a timer that will flush it.
use fs_lib.Prelude.{
  ℕ, List, [], ◌∷◌, ◌≡◌, refl, sym, ◌∙◌, subst, inl, inr, true, false, ◌&&◌, ◌||◌, Option, none,
  some, ◌==◌, Bool-cases, Option-cases, arith, Bytes, equal, equal_iff, lookup, lookup-insert,
  lookup-remove, lookup-nil,
}
use fs_lib.Event.{Event}
use fs_lib.Proxy.Watcher.{DelayedWrite, Timer, Watcher}
use fs_lib.Proxy.Debounce.{
  stop_old, armed, gen_of, next_gen, take_timer, arm_write_debounce, flush_write_debounce,
  close_watcher, expire, fire,
}
use fs_lib.Proxy.Debounce.Steps.{
  arm_closed, arm_open, close_closed, close_open, flush_absent, ignores, flush_ignored, flush_due,
  fire_absent, fire_waiting, fire_started,
}
use fs_lib.Proxy.Debounce.Timers.{
  has_timer, has_timer-append, has_timer-stop_timer, has_timer-start_at, has_timer-take_timer,
}

-- Each delayed write has the timer of its generation, stopped or expired ones not counted, and a
-- closed watcher has no delayed write.
pub record IsLive (w : Watcher) : Type 0 where
  pub waiting :
      (name : Bytes) (d : DelayedWrite)
      → lookup name w.delayed_writes ≡ some d
      → has_timer name d.gen w.timers ≡ true
  pub closed_empty : w.closed ≡ true → w.delayed_writes ≡ []

has_timer-stop_old :
    (n m : Bytes) (g : ℕ) (old : Option DelayedWrite) (ts : List Timer)
    → equal m n ≡ false
    → has_timer n g (stop_old m old ts) ≡ has_timer n g ts
has_timer-stop_old n m g none ts h = refl
has_timer-stop_old n m g (some d) ts h = has_timer-stop_timer n m g d.gen ts h

armed-waiting :
    (event : Event) (old : Option DelayedWrite) (w : Watcher)
    → IsLive w
    → (name : Bytes) (d : DelayedWrite) → lookup name (armed event old w).delayed_writes ≡ some d
    → has_timer name d.gen (armed event old w).timers ≡ true
armed-waiting event old w v name d h =
    let g = next_gen (gen_of old) in
    let t : Timer = record { name = event.name; gen = g; started = false } in
    elim (Bool-cases (equal event.name name)) [
      | inl same ↦
          unfold has_timer in
          ground (
            arith,
            lookup-insert event.name name (record { event = event; gen = g }) w.delayed_writes,
            has_timer-append name d.gen (stop_old event.name old w.timers) (t ∷ []),
          )
      | inr other ↦ ground (
        arith,
        lookup-insert event.name name (record { event = event; gen = g }) w.delayed_writes,
        has_timer-append name d.gen (stop_old event.name old w.timers) (t ∷ []),
        has_timer-stop_old name event.name d.gen old w.timers other,
        v.waiting name d,
      )
    ]

pub arm_write_debounce-IsLive :
    (event : Event) (w : Watcher) → IsLive w → IsLive (arm_write_debounce event w)
arm_write_debounce-IsLive event w v = elim (Bool-cases w.closed) [
  | inl down ↦ subst IsLive (sym (arm_closed w event down)) v
  | inr up ↦ subst IsLive (sym (arm_open w event up)) (record {
    waiting = armed-waiting event (lookup event.name w.delayed_writes) w v;
    closed_empty = λ h. cc;
  })
]

pub expire-IsLive : (i : ℕ) (w : Watcher) → IsLive w → IsLive (expire i w)
unfolding expire
expire-IsLive i w v = record {
  waiting = λ name d h. has_timer-start_at name d.gen i w.timers ∙ v.waiting name d h;
  closed_empty = v.closed_empty;
}

pub close_watcher-IsLive : (w : Watcher) → IsLive w → IsLive (close_watcher w)
close_watcher-IsLive w v = elim (Bool-cases w.closed) [
  | inl down ↦ subst IsLive (sym (close_closed w down)) v
  | inr up ↦ subst IsLive (sym (close_open w up)) (record {
    waiting = λ n d h. ground (arith, lookup-nil {V = DelayedWrite} n);
    closed_empty = λ h. refl;
  })
]

-- What a callback that has just been taken from the timers finds.
record IsLiveBut (name : Bytes) (gen : ℕ) (w : Watcher) : Type 0 where
  waiting_but :
      (n : Bytes) (d : DelayedWrite)
      → lookup n w.delayed_writes ≡ some d
      → (equal name n && gen == d.gen || has_timer n d.gen w.timers) ≡ true
  closed_empty_but : w.closed ≡ true → w.delayed_writes ≡ []

flush_write_debounce-IsLive :
    (name : Bytes) (gen : ℕ) (w : Watcher)
    → IsLiveBut name gen w
    → IsLive (flush_write_debounce name gen w).0
flush_write_debounce-IsLive name gen w v = elim (Option-cases (lookup name w.delayed_writes)) [
  | inl absent ↦ rw (flush_absent w name gen absent) (record {
    waiting = λ n d h. ground (arith, v.waiting_but n d h, equal_iff name n);
    closed_empty = v.closed_empty_but;
  })
  | inr (d, found) ↦ elim (Bool-cases (ignores w gen d)) [
    | inl stale ↦ rw (flush_ignored w name gen d found stale) (record {
      waiting = λ n e h. ground (
        arith,
        v.waiting_but n e h,
        equal_iff name n,
        v.closed_empty_but,
        lookup-nil {V = DelayedWrite} n,
      );
      closed_empty = v.closed_empty_but;
    })
    | inr due ↦ rw (flush_due w name gen d found due) (record {
      waiting = λ n e h.
          ground
            (arith, v.waiting_but n e, equal_iff name n, lookup-remove name n w.delayed_writes);
      closed_empty = λ h. ground arith;
    })
  ]
]

-- A callback that starts while others wait keeps each delayed write's own timer.
pub fire-IsLive : (i : ℕ) (w : Watcher) → IsLive w → IsLive (fire i w).0
fire-IsLive i w v = elim (Option-cases (take_timer i w.timers)) [
  | inl nothing ↦ rw (fire_absent w i nothing) v
  | inr ((t, ts), taken) ↦ elim (Bool-cases t.started) [
    | inr waits ↦ rw (fire_waiting w i t ts taken waits) v
    | inl runs ↦ rw (fire_started w i t ts taken runs) (
        flush_write_debounce-IsLive t.name t.gen (record w { timers = ts })
          (record {
            waiting_but = λ n d h.
                ground (arith, v.waiting n d h, has_timer-take_timer n d.gen i w.timers ts t taken);
            closed_empty_but = v.closed_empty;
          }))
  ]
]
