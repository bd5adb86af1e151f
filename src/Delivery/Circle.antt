-- ===== src/Delivery/Circle.antt =====
-- The whole way of a watch: from Add in a pod through the proxy and the cluster to fsnotify, and from
-- fsnotify's event back to the pod.
use fs_lib.Prelude.{
  ℕ, ◌&&◌, take, is_some, member-lookup, ◌≤◌, List, [], ◌∷◌, ◌++◌, ◌≡◌, refl, sym, ap, ◌∙◌, subst,
  Bool, true, false, Option, none, some, arith, Bytes, ok, length, ◌==◌, if◌then◌else◌, lookup,
  keys, member, member-append, distinct, IsRangeOrder,
}
use fs_lib.Api.{FsWatcher, Kube}
use fs_lib.Event
use fs_lib.Event.{Op, Event}
use fs_lib.Strings.{contains}
use fs_lib.Wire.Message.{msg_watch}
use fs_lib.Wire.RoundTrip.{as_read}
use fs_lib.Multicast.Server.{Server}
use fs_lib.Jfs.Chan as Chan
use fs_lib.Jfs.Connection.{received}
use fs_lib.Jfs.Watcher as Jfs
use fs_lib.Jfs.Watcher.Watches.{frame, frame-ReadsAs}
use fs_lib.Jfs.Session.Agrees.{add-queued}
use fs_lib.Proxy.Watcher as Proxy
use fs_lib.Proxy.Sender.{ProxyClient}
use fs_lib.Proxy.Sender.Batch.{arm_writes}
use fs_lib.Proxy.App.{done, Handled, process_watcher_message}
use fs_lib.Proxy.App.Mirror.{StoresObjects, Mirrors, process_watcher_message-Mirrors}
use fs_lib.Daemon.Inotify.{paths_of, sync_watches, fs_event, run}
use fs_lib.Daemon.Inotify.Watched.{handles, take_turn, add_to, add_all, add_all-member}
use fs_lib.Delivery.{serve, published}
use fs_lib.Wire.Codec.{trim, Fits}
use fs_lib.Jfs.Session.Told.{map-AllFit}
use fs_lib.Proxy.Channel.{formating_chan_id, PodId, get_pod_name}
use fs_lib.Proxy.Paths.Laws.{ends_slash}
use fs_lib.Proxy.Paths.Mount.{one_mount}
use fs_lib.Proxy.Sender.Pipeline.{node_key}
use fs_lib.Delivery.Mapped.{watch_maps}
use fs_lib.Delivery.Reaches.{CanTake}
use fs_lib.Delivery.Fsnotify.{in_directory, pod_sees, fsnotify_event_reaches_pods}

member-paths_of :
    (p : Bytes) (before after : List FsWatcher) (obj : FsWatcher)
    → member p obj.spec.paths ≡ true
    → member p (paths_of (before ++ obj ∷ after)) ≡ true
unfolding paths_of
member-paths_of p [] after obj h = ground (arith, member-append p obj.spec.paths (paths_of after))
member-paths_of p (l ∷ before) after obj h = ground (
  arith,
  member-append p l.spec.paths (paths_of (before ++ obj ∷ after)),
  member-paths_of p before after obj h,
)

handles-watches :
    (accepts : Bytes → Bool) (p : Bytes) (before after : List FsWatcher) (obj : FsWatcher)
    (watched : List Bytes)
    → accepts p ≡ true
    → member p obj.spec.paths ≡ true
    → (all : List Bytes) × (take_turn {E = Unit}
          (handles accepts true (ok (before ++ obj ∷ after)))
          (some watched)
        ≡ some all)
      × (member p all ≡ true)
unfolding take_turn sync_watches add_to
handles-watches accepts p before after obj watched accepted listed =
    let paths = paths_of (before ++ obj ∷ after) in
    (
      add_all accepts paths watched,
      refl,
      ground (
        arith,
        add_all-member accepts p paths watched,
        member-paths_of p before after obj listed,
      ),
    )

module _ (kube : Kube) (order : List Bytes → List Bytes) (range : IsRangeOrder order)
    (laws : StoresObjects kube) (encode : List Event → Option Bytes)
    (decode : Bytes → Option (List Event)) (accepts : Bytes → Bool) where
  -- An Add of a path under the mount of its pod, whose only container mounts one directory of the
  -- node, returns and has queued one frame. If the proxy answers that frame without an error, the
  -- object under the names of the proxy's watcher is in the cluster, and a daemon over fsnotify that
  -- handles a change while it lists that object watches the path's directory on the node, if fsnotify
  -- accepts it. An event other than a plain WRITE that fsnotify gives for a file in the directory is
  -- then published as one payload, and, if redis carries that and the decoder reads it back, the
  -- watcher's open client with room in its queue gets frames that the library reads as that one
  -- event, named by the path that was added and the file, its texts and mask as the format keeps
  -- them. The API server is assumed to read back what it stored; the full name of the pod's watcher
  -- has at most 255 bytes, and the path fits its field; and the rest of the path does not begin with
  -- a slash where the node's directory ends in one.
  pub watched_directory_comes_back :
      (mount : Bytes) (x : ℕ) (sub : Bytes) (n : ℕ) (node volume : Bytes) (id : PodId)
      (w w' : Jfs.Watcher) (watcher : Proxy.Watcher) (s : kube.World) (h : Handled kube order)
      (before after : List FsWatcher) (watched : List Bytes) (file payload j : Bytes) (op : Op)
      (table : Server Proxy.Watcher) (c : ProxyClient)
      → length (Jfs.full_name w) ≤ 255
      → Fits 255 (mount ++ x ∷ sub)
      → get_pod_name (formating_chan_id (trim (take 255 (Jfs.full_name w)))) ≡ ok id
      → kube.get_pod s id.namespace id.podname
        ≡ ok (one_mount id.containername volume (n ∷ node) mount)
      → (ends_slash (n ∷ node) && x == b'/') ≡ false
      → Jfs.add (mount ++ x ∷ sub) w ≡ Chan.done w'
      → h
        ≡ process_watcher_message kube order watcher s (frame msg_watch ((mount ++ x ∷ sub) ∷ []) w)
      → h.reply ≡ done
      → accepts (node_key (n ∷ node) x sub) ≡ true
      → contains b'/' file ≡ false
      → (op == Event.write) ≡ false
      → encode (in_directory (node_key (n ∷ node) x sub) file op ∷ []) ≡ some payload
      → decode payload ≡ some (in_directory (node_key (n ∷ node) x sub) file op ∷ [])
      → distinct (keys table) ≡ true
      → lookup j table ≡ some c
      → CanTake c h.watcher 1
      → (w'.send_q.queue ≡ w.send_q.queue ++ frame msg_watch ((mount ++ x ∷ sub) ∷ []) w ∷ [])
        × (obj : FsWatcher) × (all : List Bytes) × (frames : List Bytes) × (kube.get_watcher h.world
              h.watcher.cr_namespace h.watcher.cr_name
            ≡ ok obj)
        × (take_turn {E = Unit} (handles accepts true (ok (before ++ obj ∷ after))) (some watched)
            ≡ some all)
        × (member (node_key (n ∷ node) x sub) all ≡ true)
        × (run encode (fs_event ((node_key (n ∷ node) x sub) ++ b'/' ∷ file) op ∷ [])
            ≡ (none, payload ∷ []))
        × (lookup j (serve decode order (published payload) table)
            ≡ some (record c {
              send_q = c.send_q ++ frames;
              helper =
                  some
                    (arm_writes (in_directory (node_key (n ∷ node) x sub) file op ∷ []) h.watcher);
            }))
        × (received frames
            ≡ as_read (record {
              name = (mount ++ x ∷ sub) ++ b'/' ∷ file;
              op = op;
              key = (node_key (n ∷ node) x sub);
            })
              ∷ [])
  watched_directory_comes_back mount x sub n node volume id w w' watcher s h before after watched
        file payload j op table c short fits is_pod got no_slash added handled answered accepted
        plain no_write encoded decoded once found v =
      let path = mount ++ x ∷ sub in
      let dir = node_key (n ∷ node) x sub in
      let dir_in_pod = path in
      let (content, unpacked, parsed) = frame-ReadsAs msg_watch (path ∷ []) w (omega arith) short in
      let done_so : (process_watcher_message kube order watcher s
            (frame msg_watch (path ∷ []) w)).reply
          ≡ done =
        ap (λ (x : Handled kube order). x.reply) (sym handled) ∙ answered in
      let mapped : lookup dir h.watcher.pod_path_map ≡ some path =
        ap (λ (y : Handled kube order). lookup dir y.watcher.pod_path_map) handled
        ∙ watch_maps kube order watcher s (frame msg_watch (path ∷ []) w) content mount x sub n node
            volume id unpacked
            (ap (λ (y : Bytes × List Bytes). get_pod_name (formating_chan_id y.0)) parsed ∙ is_pod)
            (ap (λ (y : Bytes × List Bytes). y.1) parsed ∙ map-AllFit (path ∷ []) (fits, tt)) got
            no_slash done_so in
      let (obj, read, listed) = subst (Mirrors kube order laws) (sym handled) (
        process_watcher_message-Mirrors kube order laws watcher s (frame msg_watch (path ∷ []) w)
          msg_watch content unpacked (omega arith) done_so) in
      let m = h.watcher.pod_path_map in
      let in_object : member dir obj.spec.paths ≡ true =
        ap (member dir) listed
        ∙ range.same dir (keys m)
        ∙ member-lookup dir m
        ∙ ap is_some mapped in
      let (all, handles_it, watches) =
        handles-watches accepts dir before after obj watched accepted in_object in
      let (frames, publishes, reaches, sees) =
        fsnotify_event_reaches_pods encode decode order dir file payload j op table c h.watcher
          range plain encoded decoded once found v in
      (
        ap (λ (x : Jfs.Watcher). x.send_q.queue) (add-queued path w w' added),
        obj,
        all,
        frames,
        read,
        handles_it,
        watches,
        publishes,
        reaches,
        sees
            ∙ ap (λ o. pod_sees o dir file op) mapped
            ∙ ap
                (λ b.
                  if b
                  then []
                  else as_read (record { name = dir_in_pod ++ b'/' ∷ file; op = op; key = dir })
                    ∷ [])
                no_write,
      )
