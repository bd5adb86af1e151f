-- ===== src/Jfs/Readers/Keeps.antt =====
-- What keeps the link and the context of a watcher.
use fs_lib.Prelude.{◌≤◌, List, [], ◌∷◌, ◌≡◌, ◌∙◌, true, Option, arith, Bytes, length}
use fs_lib.Jfs.Chan.{done, send_to, bind-done}
use fs_lib.Jfs.Watcher.{
  InitTask, clear_first, add_watch, Watcher, send, add, remove_watch, FrameError, sync_write,
}
use fs_lib.Jfs.Connection.{push_task, signal_reconnect, after_write, run_task, run_tasks, connect}
use fs_lib.Jfs.Readers.{ReaderAt, WriterAt, read_fails, write_frame, left_queue}

-- The link and the context are as before.
pub record Keeps (v w : Watcher) : Type 0 where
  pub link : w.connected ≡ v.connected
  pub context : w.cancelled ≡ v.cancelled

Keeps-trans : (u v w : Watcher) → Keeps u v → Keeps v w → Keeps u w
Keeps-trans u v w k l = record { link = l.link ∙ k.link; context = l.context ∙ k.context }

pub signal_reconnect-Keeps : (w w' : Watcher) → signal_reconnect w ≡ done w' → Keeps w w'
unfolding signal_reconnect send_to
signal_reconnect-Keeps w w' h = ground arith

pub add-Keeps : (path : Bytes) (w w' : Watcher) → add path w ≡ done w' → Keeps w w'
unfolding add send send_to
add-Keeps path w w' h = ground arith

pub remove_watch-Keeps :
    (path : Bytes) (w w' : Watcher) → remove_watch path w ≡ done w' → Keeps w w'
unfolding remove_watch send send_to
remove_watch-Keeps path w w' h = ground arith

pub write_frame-Keeps :
    (answer : Option FrameError) (b : Bytes) (q : List Bytes) (w w' : Watcher) (at : WriterAt)
    → write_frame answer b (left_queue q w) ≡ done (w', at)
    → Keeps w w'
unfolding write_frame after_write sync_write signal_reconnect send_to
write_frame-Keeps answer b q w w' at h = ground arith

run_task-Keeps :
    (answer : Option FrameError) (t : InitTask) (w w' : Watcher)
    → run_task answer t w ≡ done w'
    → Keeps w w'
unfolding run_task after_write signal_reconnect sync_write send_to send
run_task-Keeps answer clear_first w w' h = ground arith
run_task-Keeps answer add_watch w w' h = ground arith

run_tasks-Keeps :
    (answer : Option FrameError) (ts : List InitTask) (w w' : Watcher)
    → run_tasks answer ts w ≡ done w'
    → Keeps w w'
unfolding run_tasks
run_tasks-Keeps answer [] w w' h = ground arith
run_tasks-Keeps answer (t ∷ ts) w w' h =
    let (v, ran, rest) = bind-done (run_task answer t w) (run_tasks answer ts) h in
    Keeps-trans w v w' (run_task-Keeps answer t w v ran) (run_tasks-Keeps answer ts v w' rest)

push_task-Keeps : (t : InitTask) (w w' : Watcher) → push_task t w ≡ done w' → Keeps w w'
unfolding push_task send_to
push_task-Keeps t w w' h = ground arith

pub connect-Keeps :
    (answer : Option FrameError) (w w' : Watcher)
    → connect answer w ≡ done w'
    → Keeps (record w { connected = true }) w'
unfolding connect
connect-Keeps answer w w' h =
    let up : Watcher = record w { connected = true } in
    let (w1, pushed, rest) = bind-done (push_task add_watch up) _ h in
    let ran =
      run_tasks-Keeps answer w1.init_task.queue
        (record w1 { init_task = record w1.init_task { queue = [] } }) w' rest in
    Keeps-trans up w1 w' (push_task-Keeps add_watch up w1 pushed)
      (record { link = ran.link; context = ran.context })

pub read_fails-Keeps :
    (e : FrameError) (w w' : Watcher) (rs : List ReaderAt)
    → read_fails e w ≡ done (w', rs)
    → Keeps w w' × (length rs ≤ 1)
unfolding read_fails signal_reconnect send_to
read_fails-Keeps e w w' rs h = ground arith
