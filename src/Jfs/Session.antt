-- ===== src/Jfs/Session.antt =====
-- One connection of the client library (jfsnotify/backend_jfs.go): the caller's Add and Remove, the
-- tasks of `start` and its send routine, interleaved in any order, while no write fails. Add
-- is two steps, since it sends its frame before it takes the lock under which it appends the path;
-- Remove is one, since it holds that lock throughout, and the replay reads the list under it. The
-- send routine takes a frame in one step and writes it in another. A send routine that an earlier
-- connection has left behind goes on taking frames, since it ends only with the context.
pub mod Told
pub mod Agrees
pub mod Kept
pub mod Quiet
pub mod Reorder
pub mod LostAdd
use fs_lib.Prelude.{List, [], ◌∷◌, ◌++◌, ◌≡◌, ◌⊎◌, Bool, true, Option, none, some, Bytes}
use fs_lib.Wire.Codec.{Fits}
use fs_lib.Jfs.Chan.{done}
use fs_lib.Wire.Message.{msg_watch}
use fs_lib.Jfs.Watcher.{InitTask, add_watch, Watcher, send, remove_watch, sync_write}
use fs_lib.Jfs.Connection.{run_task}

-- `hand` has the frame that the send routine has taken, `old_hand` that of an earlier routine;
-- `adding` has the path of an Add that has sent its frame and not yet appended the path.
pub record Session : Type 0 where
  pub watcher : Watcher
  pub hand : Option Bytes
  pub old_hand : Option Bytes
  pub adding : Option Bytes

-- case d := <-w.sendQ
abbrev pub with_queue : List Bytes → Watcher → Watcher
with_queue q w = record w { send_q = record w.send_q { queue = q } }

-- case t := <-w.initTask
abbrev pub with_tasks : List InitTask → Watcher → Watcher
with_tasks ts w = record w { init_task = record w.init_task { queue = ts } }

-- A new connection up to its tasks: the frames that it has written are none, and w.initTask gets
-- the replay.
abbrev pub begin : Watcher → Session
begin w = record {
  watcher =
      with_tasks (w.init_task.queue ++ add_watch ∷ []) (record w { connected = true; wire = [] });
  hand = none;
  old_hand = none;
  adding = none;
}

-- The last line of Add
abbrev pub append_watch : Bytes → Watcher → Watcher
append_watch path w = record w { watches = w.watches ++ path ∷ [] }

-- No Add stands between its parts, unless that is let happen.
abbrev pub MayGo : Bool → Session → Type 0
MayGo overlap s = (overlap ≡ true) ⊎ (s.adding ≡ none)

-- `old` says that an earlier connection has left its send routine behind, `overlap` that a Remove or
-- a task may come between the two parts of an Add.
pub data Step (old overlap : Bool) (s : Session) : Session → Type 0 where
  add_sends :
      (path : Bytes) {w : Watcher}
      → Fits 255 path
      → s.adding ≡ none
      → send msg_watch (path ∷ []) s.watcher ≡ done w
      → Step old overlap s (record s { watcher = w; adding = some path })
  add_appends :
      (path : Bytes)
      → s.adding ≡ some path
      → Step old overlap s (record s { watcher = append_watch path s.watcher; adding = none })
  removes :
      (path : Bytes) {w : Watcher}
      → Fits 255 path
      → MayGo overlap s
      → remove_watch path s.watcher ≡ done w
      → Step old overlap s (record s { watcher = w })
  runs :
      (t : InitTask) (ts : List InitTask) {w : Watcher}
      → s.watcher.init_task.queue ≡ t ∷ ts
      → MayGo overlap s
      → run_task none t (with_tasks ts s.watcher) ≡ done w
      → Step old overlap s (record s { watcher = w })
  takes :
      (b : Bytes) (q : List Bytes)
      → s.hand ≡ none
      → s.watcher.send_q.queue ≡ b ∷ q
      → Step old overlap s (record s { watcher = with_queue q s.watcher; hand = some b })
  writes :
      (b : Bytes) {w : Watcher}
      → s.hand ≡ some b
      → sync_write none b s.watcher ≡ (w, none)
      → Step old overlap s (record s { watcher = w; hand = none })
  old_takes :
      (b : Bytes) (q : List Bytes)
      → old ≡ true
      → s.old_hand ≡ none
      → s.watcher.send_q.queue ≡ b ∷ q
      → Step old overlap s (record s { watcher = with_queue q s.watcher; old_hand = some b })
  old_writes :
      (b : Bytes) {w : Watcher}
      → old ≡ true
      → s.old_hand ≡ some b
      → sync_write none b s.watcher ≡ (w, none)
      → Step old overlap s (record s { watcher = w; old_hand = none })

pub data Reach (old overlap : Bool) (s : Session) : Session → Type 0 where
  here : Reach old overlap s s
  next : {t u : Session} → Reach old overlap s t → Step old overlap t u → Reach old overlap s u

abbrev pub held : Option Bytes → List Bytes
held none = []
held (some b) = b ∷ []

-- The frames on their way to the peer, and those with the frames that it got, in their order.
abbrev pub due : Session → List Bytes
due s = held s.hand ++ s.watcher.send_q.queue

abbrev pub frames : Session → List Bytes
frames s = s.watcher.wire ++ due s
