-- ===== src/Jfs/Connection/Replay.antt =====
-- A new connection replays the watches.
use mathlib.Core.Path.{ap₂}
use fs_lib.Prelude.{
  ◌≤◌, List, [], ◌∷◌, ◌++◌, ◌≡◌, ◌≢◌, refl, sym, ap, ◌∙◌, subst, true, false, Option, ◌==◌, arith,
  Bytes, length,
}
use fs_lib.Wire.Message.{package_msg, msg_watch}
use fs_lib.Jfs.Chan.{done, send_to, bind-done}
use fs_lib.Jfs.Watcher.{
  InitTask, clear_first, add_watch, Watcher, full_name, layout, send, FrameError, sync_write,
}
use fs_lib.Jfs.Watcher.Watches.{frame, send-queued, ReadsAs, frame-ReadsAs}
use fs_lib.Jfs.Connection.{push_task, signal_reconnect, after_write, run_task, run_tasks, connect}

-- What the tasks leave alone.
record SameWatches (v w : Watcher) : Type 0 where
  same_list : w.watches ≡ v.watches
  same_name : full_name w ≡ full_name v
  same_link : w.connected ≡ v.connected

run_task-SameWatches :
    (answer : Option FrameError) (t : InitTask) (w w' : Watcher)
    → run_task answer t w ≡ done w'
    → SameWatches w w'
unfolding run_task after_write signal_reconnect sync_write send_to send
run_task-SameWatches answer clear_first w w' h = ground arith
run_task-SameWatches answer add_watch w w' h = ground arith

-- The last frame of the queue is the WATCH of the watches of `v`.
abbrev pub Replays : Watcher → Watcher → Type 0
Replays v w = (front : List Bytes) × (w.send_q.queue ≡ front ++ frame msg_watch v.watches v ∷ [])

some_watches : (w : Watcher) → w.watches ≢ [] → (length w.watches == 0) ≡ false
some_watches w h = ground (arith, h)

run_add_watch :
    (answer : Option FrameError) (w w' : Watcher)
    → w.connected ≡ true
    → w.watches ≢ []
    → run_task answer add_watch w ≡ done w'
    → Replays w w'
unfolding run_task
run_add_watch answer w w' up ne h = (
  w.send_q.queue,
  ap (λ (x : Watcher). x.send_q.queue)
      (send-queued msg_watch w.watches w w' (ground (arith, some_watches w ne))),
)

Replays-SameWatches : (v w x : Watcher) → SameWatches v w → Replays w x → Replays v x
Replays-SameWatches v w x same (front, e) = (
  front,
  e
      ∙ ap (λ b. front ++ b ∷ [])
          (ap₂ (λ ps n. package_msg msg_watch (layout n ps)) same.same_list same.same_name),
)

run_tasks-Replays :
    (answer : Option FrameError) (ts : List InitTask) (w w' : Watcher)
    → w.connected ≡ true
    → w.watches ≢ []
    → run_tasks answer (ts ++ add_watch ∷ []) w ≡ done w'
    → Replays w w'
unfolding run_tasks
run_tasks-Replays answer [] w w' up ne h =
    let (v, ran, rest) = bind-done (run_task answer add_watch w) done h in
    run_add_watch answer w w' up ne (ran ∙ rest)
run_tasks-Replays answer (t ∷ ts) w w' up ne h =
    let (v, ran, rest) =
      bind-done (run_task answer t w) (run_tasks answer (ts ++ add_watch ∷ [])) h in
    let same = run_task-SameWatches answer t w v ran in
    Replays-SameWatches w v w' same (
      run_tasks-Replays answer ts v w' (same.same_link ∙ up)
        (λ none_left. ne (sym same.same_list ∙ none_left)) rest)

push_task-queue :
    (t : InitTask) (w w' : Watcher)
    → push_task t w ≡ done w'
    → w' ≡ record w { init_task = record w.init_task { queue = w.init_task.queue ++ t ∷ [] } }
unfolding push_task send_to
push_task-queue t w w' h = ground arith

-- When a dial succeeds and the batch of tasks ends, and the watcher has watches, the last frame in
-- its queue is a WATCH of all of them, whatever was queued or pending before; the proxy reads it
-- as this watcher's, if the watcher's full name has at most 255 bytes.
pub connect-Replays :
    (answer : Option FrameError) (w w' : Watcher)
    → length (full_name w) ≤ 255
    → w.watches ≢ []
    → connect answer w ≡ done w'
    → (front : List Bytes) × (b : Bytes) × (w'.send_q.queue ≡ front ++ b ∷ [])
      × ReadsAs b msg_watch (full_name w) w.watches
unfolding connect
connect-Replays answer w w' short ne h =
    let (w1, pushed, rest) = bind-done (push_task add_watch (record w { connected = true })) _ h in
    let at = push_task-queue add_watch (record w { connected = true }) w1 pushed in
    let start : Watcher = record w {
      connected = true;
      init_task = record w.init_task { queue = [] };
    } in
    let ran : run_tasks answer (w.init_task.queue ++ add_watch ∷ []) start ≡ done w' =
      subst
        (λ (x : Watcher).
          run_tasks answer x.init_task.queue
            (record x { init_task = record x.init_task { queue = [] } })
          ≡ done w')
        at rest in
    let (front, e) = run_tasks-Replays answer w.init_task.queue start w' refl ne ran in
    (front, frame msg_watch w.watches w, e, frame-ReadsAs msg_watch w.watches w (omega arith) short)
