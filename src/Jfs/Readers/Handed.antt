-- ===== src/Jfs/Readers/Handed.antt =====
-- The events that the read routines hold for the program, and those of the frames that were read.
pub mod Counted
pub mod Ordered
pub mod Drained
use fs_lib.Prelude.{
  ℕ, suc, ◌+◌, ◌≤◌, List, [], ◌∷◌, ◌++◌, ◌≡◌, refl, sym, ap, ◌∙◌, Bool, true, false, if◌then◌else◌,
  arith, Bytes, length, length-append, append-nil, append_assoc,
}
use fs_lib.Event.{Event}
use fs_lib.Jfs.Chan.{Outcome, done, bind-done}
use fs_lib.Jfs.Watcher.{Watcher, FrameError}
use fs_lib.Jfs.Connection.{received, received-append, signal_reconnect, handle_frame}
use fs_lib.Jfs.Readers.{
  ReaderAt, selects, reads, hands, reports, Pump, new_pump, hand_over, enter, read_fails, Step,
  dials, wakes, enters, gets, breaks, gives, reported, polls, sends, told, stops, adds, removes,
  closes, Reach, here, next,
}
use fs_lib.Jfs.Readers.Owned.{Owned, run-Owned}

module _ {A : Type 0} (test : A → Bool) where
  unfoldable pub count : List A → ℕ
  count [] = 0
  count (a ∷ xs) = let n = count xs in if test a then suc n else n

  pub count-append : (xs ys : List A) → count (xs ++ ys) ≡ count xs + count ys
  unfolding count
  count-append [] ys = omega arith
  count-append (a ∷ xs) ys = ground (arith, count-append xs ys)

abbrev pub held_at : ReaderAt → List Event
held_at selects = []
held_at (reads id) = []
held_at (hands e es) = e ∷ es
held_at (reports e) = []

-- the events that the read routines have not handed over yet
unfoldable pub held : List ReaderAt → List Event
held [] = []
held (r ∷ rs) = held_at r ++ held rs

pub held-hand_over : (es : List Event) → held_at (hand_over es) ≡ es
unfolding hand_over
held-hand_over [] = refl
held-hand_over (e ∷ es) = refl

pub held-append : (rs ss : List ReaderAt) → held (rs ++ ss) ≡ held rs ++ held ss
unfolding held
held-append [] ss = refl
held-append (r ∷ rs) ss =
    ap (λ es. held_at r ++ es) (held-append rs ss)
    ∙ sym (append_assoc (held_at r) (held rs) (held ss))

pub received_one :
    (bs : List Bytes) (b : Bytes) → received (bs ++ b ∷ []) ≡ received bs ++ handle_frame b
unfolding received
received_one bs b =
    received-append bs (b ∷ []) ∙ ap (λ es. received bs ++ es) (append-nil (handle_frame b))

pub enter-held : (w : Watcher) (n : ℕ) (rs : List ReaderAt) → enter w n ≡ done rs → held rs ≡ []
unfolding enter held
enter-held w n rs h = ground arith

pub read_fails-held :
    (e : FrameError) (w w' : Watcher) (rs : List ReaderAt)
    → read_fails e w ≡ done (w', rs)
    → held rs ≡ []
unfolding read_fails signal_reconnect held
read_fails-held e w w' rs h = ground arith
