-- ===== src/Jfs/Readers/Handed/Drained.antt =====
-- A program that goes on taking events gets all of them.
use fs_lib.Prelude.{
  ℕ, suc, ◌+◌, List, [], ◌∷◌, ◌++◌, ◌≡◌, ◌⊎◌, inl, inr, refl, ap, ◌∙◌, false, Bool, arith, length,
  length-append,
}
use fs_lib.Event.{Event}
use fs_lib.Jfs.Watcher.{Watcher}
use fs_lib.Jfs.Connection.{received}
use fs_lib.Jfs.Readers.{
  ReaderAt, selects, reads, hands, reports, Pump, new_pump, hand_over, gives, Reach, next,
}
use fs_lib.Jfs.Readers.Handed.{count, held_at, held, held-append, held-hand_over}
use fs_lib.Jfs.Readers.Handed.Ordered.{run-KeepsEvents}

-- The program takes one event from a read routine that hands it over, and so on; nothing else
-- happens. The number is that of the events taken.
pub data Takes (p : Pump) : ℕ → Pump → Type 0 where
  none_yet : Takes p 0 p
  one_more :
      {n : ℕ} {q : Pump} (before after : List ReaderAt) (e : Event) (es : List Event)
      → Takes p n q
      → q.readers ≡ before ++ hands e es ∷ after
      → Takes p
          (suc n)
          (record q { readers = before ++ hand_over es ∷ after; events = q.events ++ e ∷ [] })

-- A read routine stands where it hands an event over.
abbrev Holds : List ReaderAt → Type 0
Holds rs =
    (before : List ReaderAt) × (after : List ReaderAt) × (e : Event) × (es : List Event) × (rs
      ≡ before ++ hands e es ∷ after)

-- The program can take one more event.
abbrev pub CanTakeOne : Pump → Type 0
CanTakeOne p = Holds p.readers

Takes-Reach : {p q r : Pump} {n : ℕ} → Reach r p → Takes p n q → Reach r q
Takes-Reach a none_yet = a
Takes-Reach a (one_more before after e es t at) =
    next (Takes-Reach a t) (gives before after e es at)

Takes-frames : {p q : Pump} {n : ℕ} → Takes p n q → q.frames ≡ p.frames
Takes-frames none_yet = refl
Takes-frames (one_more before after e es t at) = Takes-frames t

held-between :
    (before after : List ReaderAt) (r : ReaderAt)
    → length (held (before ++ r ∷ after))
      ≡ length (held before) + (length (held_at r) + length (held after))
unfolding held
held-between before after r =
    ap length (held-append before (r ∷ after))
    ∙ length-append (held before) (held_at r ++ held after)
    ∙ ap (λ n. length (held before) + n) (length-append (held_at r) (held after))

-- Each event that is taken is one less that is held.
Takes-held :
    {p q : Pump} {n : ℕ} → Takes p n q → n + length (held q.readers) ≡ length (held p.readers)
Takes-held none_yet = omega arith
Takes-held (one_more {n} {q} before after e es t at) = omega (
  arith,
  Takes-held t,
  ap (λ rs. length (held rs)) at,
  held-between before after (hands e es),
  held-between before after (hand_over es),
  ap length (held-hand_over es),
)

later : (r : ReaderAt) (rs : List ReaderAt) → Holds rs → Holds (r ∷ rs)
later r rs (before, after, e, es, at) = (r ∷ before, after, e, es, ap (λ xs. r ∷ xs) at)

idle_or :
    (r : ReaderAt) (rs : List ReaderAt)
    → held_at r ≡ []
    → Holds rs ⊎ (held rs ≡ [])
    → Holds (r ∷ rs) ⊎ (held (r ∷ rs) ≡ [])
unfolding held
idle_or r rs idle (inl h) = inl (later r rs h)
idle_or r rs idle (inr h) = inr (ap (λ es. es ++ held rs) idle ∙ h)

holds_or_idle : (rs : List ReaderAt) → Holds rs ⊎ (held rs ≡ [])
unfolding held
holds_or_idle [] = inr refl
holds_or_idle (hands e es ∷ rs) = inl ([], rs, e, es, refl)
holds_or_idle (selects ∷ rs) = idle_or selects rs refl (holds_or_idle rs)
holds_or_idle (reads id ∷ rs) = idle_or (reads id) rs refl (holds_or_idle rs)
holds_or_idle (reports e ∷ rs) = idle_or (reports e) rs refl (holds_or_idle rs)

-- Whatever state the goroutines of a new watcher are in: however the program goes on taking events,
-- while nothing else happens, each one that it takes is one less that the read routines hold; and
-- it can take a further one, or else it has taken, of the events in the frames that were read, as
-- many as there are, whatever test picks them out.
pub events_drain :
    (w : Watcher) (p q : Pump) (n : ℕ)
    → w.connected ≡ false
    → Reach (new_pump w) p
    → Takes p n q
    → (n + length (held q.readers) ≡ length (held p.readers))
      × (CanTakeOne q
          ⊎ ((test : Event → Bool) → count test q.events ≡ count test (received p.frames)))
unfolding count
events_drain w p q n down r t = (
  Takes-held t,
  elim (holds_or_idle q.readers) [
    | inl more ↦ inl more
    | inr idle ↦ inr (λ test.
        let kept = (run-KeepsEvents w q down (Takes-Reach r t)).0 test in
        let nothing : count test (held q.readers) ≡ 0 = ap (λ es. count test es) idle in
        let frames : count test (received q.frames) ≡ count test (received p.frames) =
          ap (λ fs. count test (received fs)) (Takes-frames t) in
        omega (arith, kept, nothing, frames))
  ],
)
