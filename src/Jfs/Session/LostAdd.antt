-- ===== src/Jfs/Session/LostAdd.antt =====
-- Add across a new connection: internelAddWith sends its frame before it takes the lock under which
-- it appends the path, so that the tasks of a connection may run between the two.
use fs_lib.Prelude.{
  [], ◌∷◌, ◌++◌, ◌≡◌, refl, true, false, some, none, Bytes, member, equal_refl, ap, ◌||◌,
}
use fs_lib.Wire.Message.{msg_watch}
use fs_lib.Jfs.Chan.{Outcome, done, ◌>>=◌, send_to}
use fs_lib.Jfs.Watcher.{Watcher, new_watcher, send, add, FrameError, other_error, sync_write}
use fs_lib.Jfs.Connection.{connect, disconnect, send_round, run_tasks, run_task, push_task}
use fs_lib.Jfs.Session.{append_watch}
use fs_lib.Jfs.Session.Told.{told, mention}

-- The two parts of Add make it up.
pub add_parts :
    (path : Bytes) (w : Watcher)
    → add path w ≡ (do w' ← send msg_watch (path ∷ []) w; done (append_watch path w'))
unfolding add
add_parts path w = refl

-- Add, with the loss of the connection and a new one between its parts.
unfoldable pub add_across : FrameError → Bytes → Watcher → Outcome Watcher
unfolding send send_round connect
add_across lost path w = do
  w1 ← send msg_watch (path ∷ []) w
  w2 ← send_round (some lost) w1
  w3 ← connect none (disconnect w2)
  done (append_watch path w3)

-- On a connected new watcher, for every path and name: if the write of Add's frame fails and the
-- new connection replays the watches before Add appends the path, then Add returns and the path is
-- in the list, but neither the new connection nor the queue has a frame that names it.
pub add_is_lost :
    (namespace name path : Bytes)
    → (w : Watcher) × (add_across other_error path
          (record (new_watcher namespace name) { connected = true })
        ≡ done w)
      × (member path w.watches ≡ true)
      × (told (w.wire ++ w.send_q.queue) path ≡ false)
unfolding add_across send_to run_tasks run_task push_task sync_write member mention disconnect
add_is_lost namespace name path = (_, refl, ap (λ b. b || false) (equal_refl path), refl)
