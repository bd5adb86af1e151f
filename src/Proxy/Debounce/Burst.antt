-- ===== src/Proxy/Debounce/Burst.antt =====
-- A burst of writes of one file: one send, of the last write, by the last timer.
use mathlib.Core.Path.{ap₂}
use fs_lib.Prelude.{
  ◌+◌, ◌%◌, ◌^◌, ◌<◌, length, ◌++◌, zero, ℕ, suc, List, [], ◌∷◌, ◌≡◌, ◌≢◌, refl, sym, ap, ◌∙◌,
  subst, inl, inr, true, false, Option, none, some, Bool-cases, arith, Bytes, equal_iff, equal_refl,
  Map, lookup, remove, lookup-remove, lookup-insert_self,
}
use fs_lib.Event.{Event}
use fs_lib.Proxy.Watcher.{DelayedWrite, Timer, Watcher}
use fs_lib.Proxy.Debounce.{
  is_timer, start_at, put_back, take_timer, gen_of, next_gen, arm_write_debounce,
  flush_write_debounce, expire, fire,
}
use fs_lib.Proxy.Debounce.Steps.{arm_open, ignores, flush_ignored, flush_due, fire_started}
use fs_lib.Proxy.Debounce.Timers.{has_timer}
use fs_lib.Proxy.Debounce.Live.{IsLive}

-- WRITEs of one file, one behind the other.
abbrev pub arm_all : List Event → Watcher → Watcher
arm_all [] w = w
arm_all (e ∷ es) w = arm_all es (arm_write_debounce e w)

abbrev pub AllNamed : Bytes → List Event → Type 0
AllNamed name [] = Unit
AllNamed name (e ∷ es) = (e.name ≡ name) × AllNamed name es

abbrev pub last_event : Event → List Event → Event
last_event e [] = e
last_event e (f ∷ fs) = last_event f fs

AllNamed-subst : (n m : Bytes) (es : List Event) → n ≡ m → AllNamed n es → AllNamed m es
AllNamed-subst n m es e h = subst (λ k. AllNamed k es) e h

arm-lookup :
    (event : Event) (w : Watcher)
    → w.closed ≡ false
    → (lookup event.name (arm_write_debounce event w).delayed_writes
        ≡ some (record {
          event = event;
          gen = next_gen (gen_of (lookup event.name w.delayed_writes));
        }))
      × ((arm_write_debounce event w).closed ≡ false)
arm-lookup event w up =
    rw (arm_open w event up) (lookup-insert_self event.name _ w.delayed_writes, up)

next_gen-small : (gen : ℕ) → next_gen gen < 2 ^ 64
next_gen-small gen = omega arith

arm_all-lookup :
    (e : Event) (es : List Event) (w : Watcher)
    → AllNamed e.name es
    → w.closed ≡ false
    → (d : DelayedWrite) × (lookup e.name (arm_all (e ∷ es) w).delayed_writes ≡ some d)
      × (d.event ≡ last_event e es)
      × (d.gen < 2 ^ 64)
      × ((arm_all (e ∷ es) w).closed ≡ false)
arm_all-lookup e [] w named up = (
  _,
  (arm-lookup e w up).0,
  refl,
  next_gen-small (gen_of (lookup e.name w.delayed_writes)),
  (arm-lookup e w up).1,
)
arm_all-lookup e (f ∷ fs) w named up =
    let (d, found, is_last, small, open_still) =
      arm_all-lookup f fs (arm_write_debounce e w)
        (AllNamed-subst e.name f.name fs (sym named.0) named.1) (arm-lookup e w up).1 in
    (
      d,
      subst (λ n. lookup n (arm_all (f ∷ fs) (arm_write_debounce e w)).delayed_writes ≡ some d)
          named.0 found,
      is_last,
      small,
      open_still,
    )

other_gen : (w : Watcher) (d : DelayedWrite) (gen : ℕ) → gen ≢ d.gen → ignores w gen d ≡ true
other_gen w d gen ne = ground (arith, ne)

own_gen : (w : Watcher) (d : DelayedWrite) → w.closed ≡ false → ignores w d.gen d ≡ false
own_gen w d up = ground arith

removed : (n : Bytes) (m : Map DelayedWrite) → lookup n (remove n m) ≡ none
removed n m = ground (arith, lookup-remove n n m, equal_refl n)

-- The generation of a write's successor number `k`
later_gen : ℕ → ℕ → ℕ
later_gen zero gen = gen
later_gen (suc k) gen = later_gen k (next_gen gen)

later_gen-sum : (k gen : ℕ) → gen < 2 ^ 64 → later_gen k gen ≡ (gen + k) % 2 ^ 64
unfolding later_gen
later_gen-sum zero gen small = omega arith
later_gen-sum (suc k) gen small = later_gen-sum k (next_gen gen) (next_gen-small gen) ∙ omega arith

later_gen-other : (k gen : ℕ) → gen < 2 ^ 64 → suc k < 2 ^ 64 → gen ≢ later_gen (suc k) gen
later_gen-other k gen small few same = absurd (omega (arith, later_gen-sum (suc k) gen small, same))

arm_all-gen :
    (es : List Event) (w : Watcher) (name : Bytes) (d : DelayedWrite)
    → AllNamed name es
    → w.closed ≡ false
    → lookup name w.delayed_writes ≡ some d
    → (last : DelayedWrite) × (lookup name (arm_all es w).delayed_writes ≡ some last)
      × (last.gen ≡ later_gen (length es) d.gen)
unfolding later_gen
arm_all-gen [] w name d named up found = (d, found, refl)
arm_all-gen (e ∷ es) w name d (same, named) up found =
    let (armed_one, up_still) = arm-lookup e w up in
    let at : lookup name (arm_write_debounce e w).delayed_writes
        ≡ some (record { event = e; gen = next_gen d.gen }) =
      subst
        (λ n.
          lookup n (arm_write_debounce e w).delayed_writes
          ≡ some (record { event = e; gen = next_gen (gen_of (lookup n w.delayed_writes)) }))
        same armed_one
      ∙ ap (λ o. some (record { event = e; gen = next_gen (gen_of o) })) found in
    arm_all-gen es (arm_write_debounce e w) name _ named up_still at

arm_all-append :
    (es fs : List Event) (w : Watcher) → arm_all (es ++ fs) w ≡ arm_all fs (arm_all es w)
arm_all-append [] fs w = refl
arm_all-append (e ∷ es) fs w = arm_all-append es fs (arm_write_debounce e w)

-- WRITEs of one file come on an open watcher, fewer than 2 ^ 64 of them after the write of `early`.
-- Then a callback with the generation of `early` changes nothing and sends nothing, nor does one of
-- any generation but the last; the callback of the last one sends the last WRITE and leaves no
-- delayed write of the file.
pub burst :
    (e : Event) (before : List Event) (f : Event) (after : List Event) (w : Watcher)
    → AllNamed e.name before
    → AllNamed e.name (f ∷ after)
    → length (f ∷ after) < 2 ^ 64
    → w.closed ≡ false
    → (early : DelayedWrite) × (last : DelayedWrite) × (lookup e.name
          (arm_all (e ∷ before) w).delayed_writes
        ≡ some early)
      × (flush_write_debounce e.name early.gen (arm_all (e ∷ before ++ f ∷ after) w)
          ≡ (arm_all (e ∷ before ++ f ∷ after) w, none))
      × ((gen : ℕ)
          → gen ≢ last.gen
          → flush_write_debounce e.name gen (arm_all (e ∷ before ++ f ∷ after) w)
            ≡ (arm_all (e ∷ before ++ f ∷ after) w, none))
      × (lookup e.name (arm_all (e ∷ before ++ f ∷ after) w).delayed_writes ≡ some last)
      × ((flush_write_debounce e.name last.gen (arm_all (e ∷ before ++ f ∷ after) w)).1
          ≡ some (last_event f after))
      × (lookup e.name
            (flush_write_debounce e.name last.gen
              (arm_all (e ∷ before ++ f ∷ after) w)).0.delayed_writes
          ≡ none)
burst e before f after w first rest few up =
    let (early, found, _, small, up_still) = arm_all-lookup e before w first up in
    let w1 = arm_all (e ∷ before) w in
    let w2 = arm_all (e ∷ before ++ f ∷ after) w in
    let same : arm_all (f ∷ after) w1 ≡ w2 = sym (arm_all-append (e ∷ before) (f ∷ after) w) in
    let (last, ends, is_last, _, open_still) =
      arm_all-lookup f after w1 (AllNamed-subst e.name f.name after (sym rest.0) rest.1) up_still in
    let (again, ends_again, aged) = arm_all-gen (f ∷ after) w1 e.name early rest up_still found in
    let at : lookup e.name w2.delayed_writes ≡ some last =
      ap₂ (λ n (v : Watcher). lookup n v.delayed_writes) (sym rest.0) (sym same) ∙ ends in
    let one : last ≡ again =
      some_same (
        sym ends
        ∙ ap (λ n. lookup n (arm_all (f ∷ after) w1).delayed_writes) rest.0
        ∙ ends_again) in
    let up2 : w2.closed ≡ false = ap (λ (v : Watcher). v.closed) (sym same) ∙ open_still in
    let stale : (gen : ℕ) → gen ≢ last.gen → flush_write_debounce e.name gen w2 ≡ (w2, none) =
      λ gen ne. flush_ignored w2 e.name gen last at (other_gen w2 last gen ne) in
    let flushed = flush_due w2 e.name last.gen last at (own_gen w2 last up2) in
    (
      early,
      last,
      found,
      stale early.gen (λ h.
          later_gen-other (length after) early.gen small few
            (h ∙ ap (λ (d : DelayedWrite). d.gen) one ∙ aged)),
      stale,
      at,
      rw flushed (ap some is_last),
      rw flushed (removed e.name w2.delayed_writes),
    )
  where
    some_same : {a b : DelayedWrite} → some a ≡ some b → a ≡ b
    some_same h = cc

-- The timer of a name and generation, when its callback starts and is taken.
take_timer-start_at :
    (n : Bytes) (g : ℕ) (ts : List Timer)
    → has_timer n g ts ≡ true
    → (i : ℕ) × (t : Timer) × (us : List Timer) × (take_timer i (start_at i ts) ≡ some (t, us))
      × (t.name ≡ n)
      × (t.gen ≡ g)
      × (t.started ≡ true)
unfolding has_timer take_timer start_at
take_timer-start_at n g [] h = cc
take_timer-start_at n g (t ∷ ts) h = elim (Bool-cases (is_timer n g t)) [
  | inl this ↦ (
    0,
    record t { started = true },
    ts,
    refl,
    ground (arith, equal_iff t.name n),
    ground arith,
    refl,
  )
  | inr other ↦
      let (i, u, us, taken, named, aged, runs) = take_timer-start_at n g ts (ground arith) in
      (suc i, u, t ∷ us, ap (put_back t) taken, named, aged, runs)
]

-- A delayed write of an open watcher whose delayed writes all have their timer can always be
-- flushed: when the time of one of its timers comes and the callback runs, the event of that write
-- is sent.
pub delayed_write_flushes :
    (w : Watcher) (name : Bytes) (d : DelayedWrite)
    → IsLive w
    → w.closed ≡ false
    → lookup name w.delayed_writes ≡ some d
    → (i : ℕ) × ((fire i (expire i w)).1 ≡ some d.event)
unfolding expire
delayed_write_flushes w name d v up found =
    let (i, t, us, taken, named, aged, runs) =
      take_timer-start_at name d.gen w.timers (v.waiting name d found) in
    let w' : Watcher = record w { timers = us } in
    (
      i,
      ap (λ (r : Watcher × Option Event). r.1) (fire_started (expire i w) i t us taken runs)
          ∙ ap₂ (λ n g. (flush_write_debounce n g w').1) named aged
          ∙ ap (λ (r : Watcher × Option Event). r.1)
              (flush_due w' name d.gen d found (own_gen w' d up)),
    )
