-- ===== src/Jfs/Readers.antt =====
-- The goroutines of `start` in jfsnotify/backend_jfs.go over all connections of a watcher: its main
-- loop, and the read and the send routine that each connection starts, interleaved in any order
-- with the calls of the program. Events and Errors have no room, so a routine stands at its send
-- until the program takes the value. ReadFrame and its connection are a step that begins, and one
-- that returns a frame or an error. A dial and its batch of tasks are one step, and a dial that fails
-- changes nothing. The main loop's `clear` is no step: it closes Errors twice, which panics.
pub mod Keeps
pub mod Owned
pub mod Handed
pub mod Leftover
pub mod Repeats
use fs_lib.Prelude.{
  ℕ, suc, List, [], ◌∷◌, ◌++◌, ◌≡◌, true, false, Option, none, some, if◌then◌else◌, Bytes,
}
use fs_lib.Event.{Event}
use fs_lib.Jfs.Chan.{Outcome, done, panics, ◌>>=◌}
use fs_lib.Jfs.Watcher.{
  Watcher, add, remove_watch, close_watcher, FrameError, is_socket_error, sync_write,
}
use fs_lib.Jfs.Connection.{signal_reconnect, after_write, connect, disconnect, handle_frame}

-- Where a read routine is: at its select, in ReadFrame of a connection, at the send of an event
-- with more behind it, or at the send of an error.
pub data ReaderAt : Type 0 where
  selects : ReaderAt
  reads : ℕ → ReaderAt
  hands : Event → List Event → ReaderAt
  reports : FrameError → ReaderAt

-- Where a send routine is: at its test of w.fconn, at its select, or at the send of an error.
pub data WriterAt : Type 0 where
  tests : WriterAt
  takes : WriterAt
  tells : FrameError → WriterAt

-- Connections have numbers from one on: `dialled` is the last one's, and the current one's while
-- the watcher is connected. The main loop waits for a signal then, and dials otherwise. `closed`
-- has the connections that were closed, `frames` those that were read, `events` what the program
-- has taken from Events.
pub record Pump : Type 0 where
  pub watcher : Watcher
  pub dialled : ℕ
  pub readers : List ReaderAt
  pub writers : List WriterAt
  pub frames : List Bytes
  pub events : List Event
  pub closed : List ℕ

abbrev pub new_pump : Watcher → Pump
new_pump w = record {
  watcher = w;
  dialled = 0;
  readers = [];
  writers = [];
  frames = [];
  events = [];
  closed = [];
}

-- `for _, ev := range evs`
unfoldable pub hand_over : List Event → ReaderAt
hand_over [] = selects
hand_over (e ∷ es) = hands e es

-- A read routine at its select: it ends with the context, or calls w.fconn.ReadFrame.
unfoldable pub enter : Watcher → ℕ → Outcome (List ReaderAt)
enter w dialled =
    if w.cancelled then done [] else if w.connected then done (reads dialled ∷ []) else panics

-- An error of ReadFrame
unfoldable pub read_fails : FrameError → Watcher → Outcome (Watcher × List ReaderAt)
read_fails e w =
    if is_socket_error e
    then (do w' ← signal_reconnect w; done (w', []))
    else done (w, reports e ∷ [])

unfoldable pub after_send : Option FrameError → WriterAt
after_send none = tests
after_send (some e) = tells e

-- A send routine behind its select, with the frame that it has taken
unfoldable pub write_frame : Option FrameError → Bytes → Watcher → Outcome (Watcher × WriterAt)
write_frame answer b w = do
  w' ← after_write (sync_write answer b w)
  done (w', after_send (sync_write answer b w).1)

-- case d := <-w.sendQ, with this queue left
abbrev pub left_queue : List Bytes → Watcher → Watcher
left_queue q w = record w { send_q = record w.send_q { queue = q } }

pub data Step (p : Pump) : Pump → Type 0 where
  dials :
      (answer : Option FrameError) {w : Watcher}
      → p.watcher.connected ≡ false
      → p.watcher.cancelled ≡ false
      → connect answer p.watcher ≡ done w
      → Step p (record p {
        watcher = w;
        dialled = suc p.dialled;
        readers = p.readers ++ selects ∷ [];
        writers = p.writers ++ tests ∷ [];
      })
  wakes :
      (signal : ℕ) (signals : List ℕ)
      → p.watcher.connected ≡ true
      → p.watcher.reconnect.queue ≡ signal ∷ signals
      → Step p (record p { watcher = disconnect p.watcher; closed = p.closed ++ p.dialled ∷ [] })
  enters :
      (before after rs : List ReaderAt)
      → p.readers ≡ before ++ selects ∷ after
      → enter p.watcher p.dialled ≡ done rs
      → Step p (record p { readers = before ++ rs ++ after })
  gets :
      (before after : List ReaderAt) (b : Bytes)
      → p.readers ≡ before ++ reads p.dialled ∷ after
      → p.watcher.connected ≡ true
      → Step p (record p {
        readers = before ++ hand_over (handle_frame b) ∷ after;
        frames = p.frames ++ b ∷ [];
      })
  breaks :
      (before after rs : List ReaderAt) (id : ℕ) (e : FrameError) {w : Watcher}
      → p.readers ≡ before ++ reads id ∷ after
      → read_fails e p.watcher ≡ done (w, rs)
      → Step p (record p { watcher = w; readers = before ++ rs ++ after })
  gives :
      (before after : List ReaderAt) (e : Event) (es : List Event)
      → p.readers ≡ before ++ hands e es ∷ after
      → Step p (record p { readers = before ++ hand_over es ∷ after; events = p.events ++ e ∷ [] })
  reported :
      (before after : List ReaderAt) (e : FrameError)
      → p.readers ≡ before ++ reports e ∷ after
      → Step p (record p { readers = before ++ selects ∷ after })
  polls :
      (before after : List WriterAt)
      → p.writers ≡ before ++ tests ∷ after
      → p.watcher.connected ≡ true
      → Step p (record p { writers = before ++ takes ∷ after })
  sends :
      (before after : List WriterAt) (answer : Option FrameError) (b : Bytes) (q : List Bytes)
      {w : Watcher} {at : WriterAt}
      → p.writers ≡ before ++ takes ∷ after
      → p.watcher.send_q.queue ≡ b ∷ q
      → write_frame answer b (left_queue q p.watcher) ≡ done (w, at)
      → Step p (record p { watcher = w; writers = before ++ at ∷ after })
  told :
      (before after : List WriterAt) (e : FrameError)
      → p.writers ≡ before ++ tells e ∷ after
      → Step p (record p { writers = before ++ tests ∷ after })
  stops :
      (before after : List WriterAt)
      → p.writers ≡ before ++ takes ∷ after
      → p.watcher.cancelled ≡ true
      → Step p (record p { writers = before ++ after })
  adds :
      (path : Bytes) {w : Watcher} → add path p.watcher ≡ done w → Step p (record p { watcher = w })
  removes :
      (path : Bytes) {w : Watcher}
      → remove_watch path p.watcher ≡ done w
      → Step p (record p { watcher = w })
  closes : Step p (record p { watcher = close_watcher p.watcher })

pub data Reach (p : Pump) : Pump → Type 0 where
  here : Reach p p
  next : {q r : Pump} → Reach p q → Step q r → Reach p r

-- A read routine is at its select and its next step is a panic, which ends the program.
pub Crashes : Pump → Type 0
Crashes p =
    (before after : List ReaderAt) × (p.readers ≡ before ++ selects ∷ after)
    × (enter p.watcher p.dialled ≡ panics)
