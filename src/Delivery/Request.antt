-- ===== src/Delivery/Request.antt =====
-- The way of a watched path from a pod to JuiceFS: Add of the client library, processWatcherMessage
-- of the proxy, the cluster's object, and SyncWatches of the daemon.
use fs_lib.Prelude.{
  ◌≤◌, List, [], ◌∷◌, ◌++◌, ◌≡◌, sym, ap, ◌∙◌, subst, not, ◌&&◌, some, arith, Bytes, ok, length,
  keys, member, IsRangeOrder,
}
use fs_lib.Api.{FsWatcher, Kube}
use fs_lib.Wire.Message.{msg_watch}
use fs_lib.Jfs.Chan as Chan
use fs_lib.Jfs.Watcher as Jfs
use fs_lib.Jfs.Watcher.Watches.{frame, frame-ReadsAs}
use fs_lib.Jfs.Session.Agrees.{add-queued}
use fs_lib.Proxy.Watcher as Proxy
use fs_lib.Proxy.App.{done, Handled, process_watcher_message}
use fs_lib.Proxy.App.Mirror.{StoresObjects, Mirrors, process_watcher_message-Mirrors}
use fs_lib.Daemon.Controller.{add}
use fs_lib.Daemon.Sync.{IpcMessage, wrote, sync_watches}
use fs_lib.Daemon.Sync.Paths.{Names, watched_elsewhere, sync_watches-add_delete}

module _ (kube : Kube) (order : List Bytes → List Bytes) (range : IsRangeOrder order)
    (laws : StoresObjects kube) where
  -- An Add that returns has queued one frame. If the proxy answers it without an error, then the
  -- object under the names of the proxy's watcher is in the cluster, and the daemon, when that is
  -- added to the objects that it lists, writes one WATCH in the object's name, of exactly the node
  -- paths in the proxy's map that no other object lists. The API server is assumed to read back
  -- what it stored, and the full name of the pod's watcher has at most 255 bytes.
  pub request_reaches_daemon :
      (path : Bytes) (w w' : Jfs.Watcher) (watcher : Proxy.Watcher) (s : kube.World)
      (h : Handled kube order) (ls : List FsWatcher)
      → length (Jfs.full_name w) ≤ 255
      → Jfs.add path w ≡ Chan.done w'
      → h ≡ process_watcher_message kube order watcher s (frame msg_watch (path ∷ []) w)
      → h.reply ≡ done
      → (w'.send_q.queue ≡ w.send_q.queue ++ frame msg_watch (path ∷ []) w ∷ [])
        × (obj : FsWatcher) × (m : IpcMessage) × (paths : List Bytes) × (kube.get_watcher h.world
              h.watcher.cr_namespace h.watcher.cr_name
            ≡ ok obj)
        × (sync_watches {E = Unit} add (some obj) (ok ls) ≡ wrote (m ∷ []))
        × Names m msg_watch obj paths
        × ((p : Bytes)
            → member p paths
              ≡ (member p (keys h.watcher.pod_path_map) && not (watched_elsewhere obj ls p)))
  request_reaches_daemon path w w' watcher s h ls short added handled answered =
      let (content, unpacked, parsed) = frame-ReadsAs msg_watch (path ∷ []) w (omega arith) short in
      let (obj, read, listed) = subst (Mirrors kube order laws) (sym handled) (
        process_watcher_message-Mirrors kube order laws watcher s (frame msg_watch (path ∷ []) w)
          msg_watch content unpacked (omega arith)
          (ap (λ (x : Handled kube order). x.reply) (sym handled) ∙ answered)) in
      let (paths, m, _, wrote_one, _, names, _, own) = sync_watches-add_delete {E = Unit} obj ls in
      (
        ap (λ (x : Jfs.Watcher). x.send_q.queue) (add-queued path w w' added),
        obj,
        m,
        paths,
        read,
        wrote_one,
        names,
        λ p.
            own p
            ∙ ap (λ b. b && not (watched_elsewhere obj ls p))
                (ap (member p) listed ∙ range.same p (keys h.watcher.pod_path_map)),
      )
