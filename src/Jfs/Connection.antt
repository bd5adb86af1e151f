-- ===== src/Jfs/Connection.antt =====
-- The goroutines of `start` in jfsnotify/backend_jfs.go: what happens on a connection, when it is
-- made, when it is lost, and with each frame that arrives. Times and logs are left out.
pub mod Replay
use fs_lib.Prelude.{
  ◌++◌, ◌≡◌, refl, ap, ◌∙◌, sym, append_assoc, List, [], ◌∷◌, true, false, not, ◌&&◌, Option, none,
  some, ◌==◌, if◌then◌else◌, Bytes, ok, err, length,
}
use fs_lib.Event.{Event}
use fs_lib.Wire.Codec.{field}
use fs_lib.Wire.Message.{package_msg, unpack_msg, msg_watch, msg_clear, msg_event}
use fs_lib.Wire.Frames.{unpack_event}
use fs_lib.Jfs.Chan.{Outcome, done, blocked, send_to, ◌>>=◌}
use fs_lib.Jfs.Watcher.{
  InitTask, clear_first, add_watch, Watcher, full_name, send, FrameError, is_socket_error,
  sync_write,
}

-- w.initTask <- t
unfoldable pub push_task : InitTask → Watcher → Outcome Watcher
push_task t w = do q ← send_to 10 t w.init_task; done (record w { init_task = q })

-- w.reconnect <- 1
unfoldable pub signal_reconnect : Watcher → Outcome Watcher
signal_reconnect w = do q ← send_to 10 1 w.reconnect; done (record w { reconnect = q })

-- What a failed write does next.
unfoldable pub after_write : Watcher × Option FrameError → Outcome Watcher
unfolding signal_reconnect
after_write (w, none) = done w
after_write (w, some e) = if is_socket_error e then signal_reconnect w else done w

-- The closures that are sent to initTask; `answer` is that of the write of the CLEAR.
unfoldable pub run_task : Option FrameError → InitTask → Watcher → Outcome Watcher
unfolding after_write
run_task answer clear_first w =
    if w.connected
    then after_write (sync_write answer (package_msg msg_clear (field 255 (full_name w))) w)
    else done w
run_task answer add_watch w =
    if w.connected && not (length w.watches == 0) then send msg_watch w.watches w else done w

-- The batch loop: it takes tasks until there is none.
unfoldable pub run_tasks : Option FrameError → List InitTask → Watcher → Outcome Watcher
unfolding run_task
run_tasks answer [] w = done w
run_tasks answer (t ∷ ts) w = do w' ← run_task answer t w; run_tasks answer ts w'

-- The head of `start`
unfoldable pub start : Watcher → Outcome Watcher
unfolding push_task
start w = push_task clear_first w

-- The branch of a successful dial, up to the wait for a signal to reconnect
unfoldable pub connect : Option FrameError → Watcher → Outcome Watcher
unfolding push_task run_tasks
connect answer w = do
  w1 ← push_task add_watch (record w { connected = true })
  run_tasks answer w1.init_task.queue (record w1 { init_task = record w1.init_task { queue = [] } })

-- The end of that branch: all signals are taken, and the connection is closed.
unfoldable pub disconnect : Watcher → Watcher
disconnect w = record w { reconnect = record w.reconnect { queue = [] }; connected = false }

send_first : Option FrameError → List Bytes → Watcher → Outcome Watcher
unfolding after_write
send_first answer [] w = blocked
send_first answer (b ∷ q) w =
    after_write (sync_write answer b (record w { send_q = record w.send_q { queue = q } }))

-- One round of the send routine; it blocks on an empty queue.
unfoldable pub send_round : Option FrameError → Watcher → Outcome Watcher
unfolding send_first
send_round answer w = send_first answer w.send_q.queue w

-- The events that the read routine sends on Events for one frame; what it cannot read it logs.
unfoldable pub handle_frame : Bytes → List Event
handle_frame b = elim (unpack_msg b) [
  | err e ↦ []
  | ok (msg_type, content) ↦
      if msg_type == msg_event
      then elim (unpack_event content) [ err e ↦ [] | ok events ↦ events ]
      else []
]

-- The events that the read routine of the client library sends on for frames in a row.
unfoldable pub received : List Bytes → List Event
received [] = []
received (b ∷ bs) = handle_frame b ++ received bs

pub received-append : (xs ys : List Bytes) → received (xs ++ ys) ≡ received xs ++ received ys
unfolding received
received-append [] ys = refl
received-append (x ∷ xs) ys =
    ap (λ l. handle_frame x ++ l) (received-append xs ys)
    ∙ sym (append_assoc (handle_frame x) (received xs) (received ys))
