-- ===== src/Jfs/Readers/Owned.antt =====
-- Which connections are open, and how many routines there are.
use fs_lib.Prelude.{
  ◌⊎◌, inl, inr, ℕ, zero, suc, ◌≤◌, List, [], ◌∷◌, ◌++◌, ◌≡◌, refl, sym, ap, ◌∙◌, Bool, true, false,
  if◌then◌else◌, arith, Bytes, length, length-append, append-nil,
}
use fs_lib.Event.{Event}
use fs_lib.Jfs.Chan.{done}
use fs_lib.Jfs.Watcher.{Watcher, close_watcher}
use fs_lib.Jfs.Connection.{disconnect, handle_frame}
use fs_lib.Jfs.Readers.{
  ReaderAt, selects, reads, hands, reports, WriterAt, tests, takes, tells, Pump, new_pump,
  hand_over, enter, Step, dials, wakes, enters, gets, breaks, gives, reported, polls, sends, told,
  stops, adds, removes, closes, Reach, here, next,
}
use fs_lib.Jfs.Readers.Keeps.{
  Keeps, add-Keeps, remove_watch-Keeps, write_frame-Keeps, connect-Keeps, read_fails-Keeps,
}

-- the connections from one to n
unfoldable pub dialled_to : ℕ → List ℕ
dialled_to zero = []
dialled_to (suc n) = dialled_to n ++ suc n ∷ []

-- the current connection
unfoldable pub live : Pump → List ℕ
live p = if p.watcher.connected then p.dialled ∷ [] else []

pub record Owned (p : Pump) : Type 0 where
  pub owned : p.closed ++ live p ≡ dialled_to p.dialled
  pub few_readers : length p.readers ≤ p.dialled
  pub all_writers : (length p.writers ≡ p.dialled) ⊎ (p.watcher.cancelled ≡ true)

length-swap :
    {A : Type 0} (before rs after : List A) (r : A) (all : List A)
    → all ≡ before ++ r ∷ after
    → length rs ≤ 1
    → length (before ++ rs ++ after) ≤ length all
length-swap before rs after r all e h = omega (
  arith,
  ap length e,
  length-append (before ++ rs) after,
  length-append before rs,
  length-append before (r ∷ after),
)

length-put :
    {A : Type 0} (before after : List A) (r s : A) (all : List A)
    → all ≡ before ++ r ∷ after
    → length (before ++ s ∷ after) ≡ length all
length-put before after r s all e =
    omega (arith, ap length e, length-append before (s ∷ after), length-append before (r ∷ after))

at_most : {m n : ℕ} → m ≡ n → m ≤ n
at_most h = omega arith

-- The link is as before, and there is no new routine.
module _ (p : Pump) (v : Owned p) where
  reads-Owned :
      (w : Watcher) (rs : List ReaderAt) (frames : List Bytes) (events : List Event)
      → Keeps p.watcher w
      → length rs ≤ length p.readers
      → Owned (record p { watcher = w; readers = rs; frames = frames; events = events })
  unfolding live
  reads-Owned w rs frames events k h = record {
    owned = ap (λ up. p.closed ++ (if up then p.dialled ∷ [] else [])) k.link ∙ v.owned;
    few_readers = let few = v.few_readers in omega arith;
    all_writers = elim v.all_writers [ inl all ↦ inl all | inr off ↦ inr (k.context ∙ off) ];
  }

  writes-Owned :
      (w : Watcher) (ws : List WriterAt)
      → Keeps p.watcher w
      → (length ws ≡ length p.writers) ⊎ (w.cancelled ≡ true)
      → Owned (record p { watcher = w; writers = ws })
  unfolding live
  writes-Owned w ws k h = record {
    owned = ap (λ up. p.closed ++ (if up then p.dialled ∷ [] else [])) k.link ∙ v.owned;
    few_readers = v.few_readers;
    all_writers = elim h [
      | inl kept ↦ elim v.all_writers [
        | inl all ↦ inl (kept ∙ all)
        | inr off ↦ inr (k.context ∙ off)
      ]
      | inr off ↦ inr off
    ];
  }

  dials-Owned :
      (w : Watcher)
      → p.watcher.connected ≡ false
      → Keeps (record p.watcher { connected = true }) w
      → Owned (record p {
        watcher = w;
        dialled = suc p.dialled;
        readers = p.readers ++ selects ∷ [];
        writers = p.writers ++ tests ∷ [];
      })
  unfolding live dialled_to
  dials-Owned w down k = record {
    owned =
        ap (λ up. p.closed ++ (if up then suc p.dialled ∷ [] else [])) k.link
        ∙ ap (λ ids. ids ++ suc p.dialled ∷ [])
            (sym (append-nil p.closed)
              ∙ ap (λ up. p.closed ++ (if up then p.dialled ∷ [] else [])) (sym down)
              ∙ v.owned);
    few_readers = let few = v.few_readers in omega (arith, length-append p.readers (selects ∷ []));
    all_writers = elim v.all_writers [
      | inl all ↦ inl (omega (arith, length-append p.writers (tests ∷ [])))
      | inr off ↦ inr (k.context ∙ off)
    ];
  }

  wakes-Owned :
      p.watcher.connected ≡ true
      → Owned (record p { watcher = disconnect p.watcher; closed = p.closed ++ p.dialled ∷ [] })
  unfolding live disconnect
  wakes-Owned up = record {
    owned =
        append-nil (p.closed ++ p.dialled ∷ [])
        ∙ ap (λ x. p.closed ++ (if x then p.dialled ∷ [] else [])) (sym up)
        ∙ v.owned;
    few_readers = v.few_readers;
    all_writers = v.all_writers;
  }

same : (w : Watcher) → Keeps w w
same w = record { link = refl; context = refl }

enter-one : (w : Watcher) (n : ℕ) (rs : List ReaderAt) → enter w n ≡ done rs → length rs ≤ 1
unfolding enter
enter-one w n rs h = ground arith

step-Owned : (p q : Pump) → Step p q → Owned p → Owned q
unfolding live close_watcher
step-Owned p q (dials answer {w} down on h) v =
    dials-Owned p v w down (connect-Keeps answer p.watcher w h)
step-Owned p q (wakes signal signals up e) v = wakes-Owned p v up
step-Owned p q (enters before after rs e h) v =
    reads-Owned p v p.watcher (before ++ rs ++ after) p.frames p.events (same p.watcher)
      (length-swap before rs after selects p.readers e (enter-one p.watcher p.dialled rs h))
step-Owned p q (gets before after b e up) v =
    reads-Owned p v p.watcher (before ++ hand_over (handle_frame b) ∷ after) (p.frames ++ b ∷ [])
      p.events (same p.watcher)
      (at_most (length-put before after (reads p.dialled) (hand_over (handle_frame b)) p.readers e))
step-Owned p q (breaks before after rs id e {w} at h) v =
    let (k, few) = read_fails-Keeps e p.watcher w rs h in
    reads-Owned p v w (before ++ rs ++ after) p.frames p.events k
      (length-swap before rs after (reads id) p.readers at few)
step-Owned p q (gives before after e es at) v =
    reads-Owned p v p.watcher (before ++ hand_over es ∷ after) p.frames (p.events ++ e ∷ [])
      (same p.watcher) (at_most (length-put before after (hands e es) (hand_over es) p.readers at))
step-Owned p q (reported before after e at) v =
    reads-Owned p v p.watcher (before ++ selects ∷ after) p.frames p.events (same p.watcher)
      (at_most (length-put before after (reports e) selects p.readers at))
step-Owned p q (polls before after at up) v =
    writes-Owned p v p.watcher (before ++ takes ∷ after) (same p.watcher)
      (inl (length-put before after tests takes p.writers at))
step-Owned p q (sends before after answer b q' {w} {at} e _ h) v =
    writes-Owned p v w (before ++ at ∷ after) (write_frame-Keeps answer b q' p.watcher w at h)
      (inl (length-put before after takes at p.writers e))
step-Owned p q (told before after e at) v =
    writes-Owned p v p.watcher (before ++ tests ∷ after) (same p.watcher)
      (inl (length-put before after (tells e) tests p.writers at))
step-Owned p q (stops before after at off) v =
    writes-Owned p v p.watcher (before ++ after) (same p.watcher) (inr off)
step-Owned p q (adds path {w} h) v =
    writes-Owned p v w p.writers (add-Keeps path p.watcher w h) (inl refl)
step-Owned p q (removes path {w} h) v =
    writes-Owned p v w p.writers (remove_watch-Keeps path p.watcher w h) (inl refl)
step-Owned p q closes v = record {
  owned = v.owned;
  few_readers = v.few_readers;
  all_writers = inr refl;
}

new-Owned : (w : Watcher) → w.connected ≡ false → Owned (new_pump w)
unfolding live dialled_to
new-Owned w down = record {
  owned = ap (λ (up : Bool). if up then 0 ∷ [] else []) down;
  few_readers = omega arith;
  all_writers = inl refl;
}

-- However the goroutines and the calls of a new watcher interleave: the connections closed and the
-- current one are those dialled, each once and in their order; there are no more read routines
-- than connections dialled, and until Close there are as many send routines.
pub run-Owned : (w : Watcher) (p : Pump) → w.connected ≡ false → Reach (new_pump w) p → Owned p
run-Owned w p down here = new-Owned w down
run-Owned w p down (next {q} r s) = step-Owned q p s (run-Owned w q down r)
