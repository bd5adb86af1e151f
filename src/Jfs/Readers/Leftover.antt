-- ===== src/Jfs/Readers/Leftover.antt =====
-- What a read routine does whose connection was closed behind its back: it panics, or joins the
-- next connection.
use fs_lib.Prelude.{ℕ, suc, List, [], ◌∷◌, ◌++◌, ◌≡◌, refl, ap, ◌∙◌, true, false, Option, arith}
use fs_lib.Event.{Event}
use fs_lib.Jfs.Chan.{done, panics}
use fs_lib.Jfs.Watcher.{Watcher, FrameError}
use fs_lib.Jfs.Connection.{connect, disconnect}
use fs_lib.Jfs.Readers.{
  selects, reads, hands, Pump, hand_over, enter, Step, dials, wakes, enters, gives, Reach, here,
  next, Crashes,
}
use fs_lib.Jfs.Readers.Keeps.{connect-Keeps}

enter_down : (w : Watcher) (n : ℕ) → w.cancelled ≡ false → w.connected ≡ false → enter w n ≡ panics
unfolding enter
enter_down w n c d = ground arith

pub enter_up :
    (w : Watcher) (n : ℕ)
    → w.cancelled ≡ false
    → w.connected ≡ true
    → enter w n ≡ done (reads n ∷ [])
unfolding enter
enter_up w n c d = ground arith

-- The only read routine holds the last event of its frame while the connection is lost, and the
-- next dial will succeed: if the program takes the event before that dial, the routine panics; if
-- it takes it afterwards, the routine reads the next connection beside that one's own.
pub old_reader :
    (p : Pump) (e : Event) (signal : ℕ) (signals : List ℕ) (answer : Option FrameError)
    (w : Watcher)
    → p.readers ≡ hands e [] ∷ []
    → p.watcher.cancelled ≡ false
    → p.watcher.connected ≡ true
    → p.watcher.reconnect.queue ≡ signal ∷ signals
    → connect answer (disconnect p.watcher) ≡ done w
    → ((q : Pump) × Reach p q × Crashes q)
      × ((q : Pump) × Reach p q
          × (q.dialled ≡ suc p.dialled)
          × (q.readers ≡ reads q.dialled ∷ reads q.dialled ∷ []))
unfolding Crashes hand_over disconnect
old_reader p e signal signals answer w at on up pending dialled =
    let lost : Step p
        (record p { watcher = disconnect p.watcher; closed = p.closed ++ p.dialled ∷ [] }) =
      wakes signal signals up pending in
    let k = connect-Keeps answer (disconnect p.watcher) w dialled in
    let again : enter w (suc p.dialled) ≡ done (reads (suc p.dialled) ∷ []) =
      enter_up w (suc p.dialled) (k.context ∙ on) k.link in
    (
      (
        _,
        next (next here lost) (gives [] [] e [] at),
        ([], [], refl, enter_down (disconnect p.watcher) p.dialled on refl),
      ),
      (
        _,
        next
            (next
              (next (next (next here lost) (dials answer refl on dialled))
                (gives [] (selects ∷ []) e [] (ap (λ rs. rs ++ selects ∷ []) at)))
              (enters [] (selects ∷ []) _ refl again))
            (enters (reads (suc p.dialled) ∷ []) [] _ refl again),
        refl,
        refl,
      ),
    )
