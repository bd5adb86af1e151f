-- ===== src/Proxy/App/Mirror.antt =====
-- The end of processWatcherMessage in k8s/cmd/fsnotify-proxy/app/app.go, and the paths that the
-- cluster's object lists behind it.
use fs_lib.Prelude.{
  ℕ, List, ◌≡◌, ◌≢◌, refl, ap, inl, inr, false, some, ◌==◌, ==_iff, Bool-cases, Option-cases, arith,
  Bytes, Result, ok, err, Result-cases, length, Map, keys,
}
use fs_lib.Api.{FsWatcherSpec, FsWatcher, Pod, Kube}
use fs_lib.Wire.Message.{msg_watch, msg_unwatch, msg_clear, unpack_msg}
use fs_lib.Proxy.Channel.{
  parse_msg, formating_chan_id, PodId, get_pod_name, watcher_name, watcher_name-get_pod_name,
}
use fs_lib.Proxy.Paths.{Change, watch, unwatch, apply_pod}
use fs_lib.Proxy.Watcher.{Watcher}
use fs_lib.Proxy.App.{
  done, Handled, answer, publish, store_paths, map_keys, change_watcher, new_object, dispatch,
  process_watcher_message,
}

-- What an API server documents of its writes: the object that was written is read back, with
-- its specification.
pub record StoresObjects (kube : Kube) : Type 0 where
  pub created :
      (s : kube.World) (ns : Bytes) (o : FsWatcher)
      → (kube.create_watcher s ns o).0 ≡ ok tt
      → (obj : FsWatcher) × (kube.get_watcher (kube.create_watcher s ns o).1 ns o.name ≡ ok obj)
        × (obj.spec ≡ o.spec)
  pub updated :
      (s : kube.World) (ns : Bytes) (o : FsWatcher)
      → (kube.update_watcher s ns o).0 ≡ ok tt
      → (obj : FsWatcher) × (kube.get_watcher (kube.update_watcher s ns o).1 ns o.name ≡ ok obj)
        × (obj.spec ≡ o.spec)
  pub named :
      (s : kube.World) (ns name : Bytes) (o : FsWatcher)
      → kube.get_watcher s ns name ≡ ok o
      → o.name ≡ name

module _ (kube : Kube) (order : List Bytes → List Bytes) (laws : StoresObjects kube) where
  open kube use {
    World, ApiError, get_watcher, create_watcher, update_watcher, get_pod, is_not_found,
  }

  abbrev pub Mirrors : Handled kube order → Type 0
  Mirrors h =
      (obj : FsWatcher) × (get_watcher h.world h.watcher.cr_namespace h.watcher.cr_name ≡ ok obj)
      × (obj.spec.paths ≡ order (keys h.watcher.pod_path_map))

  answer-done :
      (w : Watcher) (p : Result ApiError Unit × World)
      → (answer kube order w p).reply ≡ done
      → (p.0 ≡ ok tt) × (answer kube order w p ≡ record { watcher = w; world = p.1; reply = done })
  unfolding answer
  answer-done w (ok u, s) h = (refl, refl)
  answer-done w (err e, s) h = cc

  publish-Mirrors :
      (w : Watcher) (s : World) (id : PodId)
      → w.cr_namespace ≡ id.namespace
      → (r : Result ApiError FsWatcher) → get_watcher s id.namespace w.cr_name ≡ r
      → (publish kube order w s id w.cr_name (order (keys w.pod_path_map)) r).reply ≡ done
      → Mirrors (publish kube order w s id w.cr_name (order (keys w.pod_path_map)) r)
  unfolding publish
  publish-Mirrors w s id ns (ok obj) got h =
      let o : FsWatcher = record obj {
        spec = record obj.spec { paths = order (keys w.pod_path_map) };
      } in
      let (accepted, answered) = answer-done w (update_watcher s id.namespace o) h in
      let (obj', read, spec) = laws.updated s id.namespace o accepted in
      rw (answered, ns, ← laws.named s id.namespace w.cr_name obj got)
        (obj', read, ap (λ (x : FsWatcherSpec). x.paths) spec)
  publish-Mirrors w s id ns (err e) got h = elim (Bool-cases (is_not_found e)) [
    | inr other ↦ ground arith
    | inl missing ↦
        let o = new_object kube order id w.cr_name (order (keys w.pod_path_map)) in
        let p = create_watcher s id.namespace o in
        let (accepted, answered) = answer-done w p (rw missing at h) in
        let (obj', read, spec) = laws.created s id.namespace o accepted in
        rw (missing, answered, ns) (obj', read, ap (λ (x : FsWatcherSpec). x.paths) spec)
  ]

  store_paths_named :
      (w : Watcher) (s : World) (id : PodId) (channel name : Bytes)
      → (length (order (keys w.pod_path_map)) == 0) ≡ false
      → watcher_name channel ≡ ok (id.namespace, name)
      → store_paths kube order w s id channel
        ≡ publish kube order
            (record w { cr_name = name; cr_namespace = id.namespace })
            s
            id
            name
            (order (keys w.pod_path_map))
            (get_watcher s id.namespace name)
  unfolding store_paths
  store_paths_named w s id channel name some_left named = rw (some_left, named) refl

  store_paths-Mirrors :
      (w : Watcher) (s : World) (id : PodId) (channel : Bytes)
      → get_pod_name channel ≡ ok id
      → (store_paths kube order w s id channel).reply ≡ done
      → Mirrors (store_paths kube order w s id channel)
  store_paths-Mirrors w s id channel parsed h =
      elim (Bool-cases (length (order (keys w.pod_path_map)) == 0)) [
        | inl none_left ↦ unfold store_paths in ground arith
        | inr some_left ↦
            let (name, named) = watcher_name-get_pod_name channel id parsed in
            let w' : Watcher = record w { cr_name = name; cr_namespace = id.namespace } in
            let stored = store_paths_named w s id channel name some_left named in
            rw stored
              (publish-Mirrors w' s id refl (get_watcher s id.namespace name) refl (rw stored at h))
      ]

  map_keys_applied :
      (change : Change) (w : Watcher) (s : World) (id : PodId) (channel : Bytes) (ps : List Bytes)
      (pod : Pod) (m : Map Bytes)
      → apply_pod change pod id.containername ps w.pod_path_map ≡ some m
      → map_keys kube order change w s id channel ps (ok pod)
        ≡ store_paths kube order (record w { pod_path_map = m }) s id channel
  unfolding map_keys
  map_keys_applied change w s id channel ps pod m e = rw (e, map_keys) refl

  map_keys-Mirrors :
      (change : Change) (w : Watcher) (s : World) (id : PodId) (channel : Bytes) (ps : List Bytes)
      → get_pod_name channel ≡ ok id
      → (r : Result ApiError Pod) → (map_keys kube order change w s id channel ps r).reply ≡ done
      → Mirrors (map_keys kube order change w s id channel ps r)
  map_keys-Mirrors change w s id channel ps parsed (err e) h = unfold map_keys in cc
  map_keys-Mirrors change w s id channel ps parsed (ok pod) h =
      elim (Option-cases (apply_pod change pod id.containername ps w.pod_path_map)) [
        | inl stuck ↦ unfold map_keys in ground arith
        | inr (m, e) ↦
            let applied = map_keys_applied change w s id channel ps pod m e in
            rw applied (
              store_paths-Mirrors (record w { pod_path_map = m }) s id channel parsed
                (rw applied at h))
      ]

  abbrev identified : Watcher → PodId → Bytes → Watcher
  identified w id channel = record w {
    channel_id = channel;
    pod_ns = id.namespace;
    pod_name = id.podname;
    container = id.containername;
  }

  change_watcher_parsed :
      (change : Change) (w : Watcher) (s : World) (jfs_msg : Bytes) (id : PodId)
      → get_pod_name (formating_chan_id (parse_msg jfs_msg).0) ≡ ok id
      → change_watcher kube order change w s jfs_msg
        ≡ map_keys kube order change
            (identified w id (formating_chan_id (parse_msg jfs_msg).0))
            s
            id
            (formating_chan_id (parse_msg jfs_msg).0)
            (parse_msg jfs_msg).1
            (get_pod s id.namespace id.podname)
  unfolding change_watcher
  change_watcher_parsed change w s jfs_msg id e = rw (e, change_watcher) refl

  change_watcher-Mirrors :
      (change : Change) (w : Watcher) (s : World) (jfs_msg : Bytes)
      → (change_watcher kube order change w s jfs_msg).reply ≡ done
      → Mirrors (change_watcher kube order change w s jfs_msg)
  change_watcher-Mirrors change w s jfs_msg h =
      elim (Result-cases (get_pod_name (formating_chan_id (parse_msg jfs_msg).0))) [
        | inr (e, refused) ↦ unfold change_watcher in ground arith
        | inl (id, parsed) ↦
            let step = change_watcher_parsed change w s jfs_msg id parsed in
            rw step (map_keys-Mirrors change _ s id _ _ parsed _ (rw step at h))
      ]

  process_unpacked :
      (w : Watcher) (s : World) (msg : Bytes) (msg_type : ℕ) (jfs_msg : Bytes)
      → unpack_msg msg ≡ ok (msg_type, jfs_msg)
      → process_watcher_message kube order w s msg ≡ dispatch kube order w s msg_type jfs_msg
  unfolding process_watcher_message
  process_unpacked w s msg msg_type jfs_msg e = rw (e, process_watcher_message) refl

  dispatch-Mirrors :
      (w : Watcher) (s : World) (msg_type : ℕ) (jfs_msg : Bytes)
      → msg_type ≢ msg_clear
      → (dispatch kube order w s msg_type jfs_msg).reply ≡ done
      → Mirrors (dispatch kube order w s msg_type jfs_msg)
  unfolding dispatch
  dispatch-Mirrors w s msg_type jfs_msg other h = elim (Bool-cases (msg_type == msg_clear)) [
    | inl clear ↦ absurd (other ((==_iff msg_type msg_clear).0 clear))
    | inr ne ↦ elim (Bool-cases (msg_type == msg_unwatch)) [
      | inl e ↦ rw (ne, e) (change_watcher-Mirrors unwatch w s jfs_msg (rw (ne, e) at h))
      | inr nu ↦ elim (Bool-cases (msg_type == msg_watch)) [
        | inl e ↦ rw (ne, nu, e) (change_watcher-Mirrors watch w s jfs_msg (rw (ne, nu, e) at h))
        | inr unknown ↦ ground arith
      ]
    ]
  ]

  -- When a message that is not a CLEAR is answered without an error, the object under the
  -- watcher's names is in the cluster, and its paths are the keys of the watcher's path map, in
  -- the order in which they were visited. The API server is assumed to read back what it stored.
  pub process_watcher_message-Mirrors :
      (w : Watcher) (s : World) (msg : Bytes) (msg_type : ℕ) (jfs_msg : Bytes)
      → unpack_msg msg ≡ ok (msg_type, jfs_msg)
      → msg_type ≢ msg_clear
      → (process_watcher_message kube order w s msg).reply ≡ done
      → Mirrors (process_watcher_message kube order w s msg)
  process_watcher_message-Mirrors w s msg msg_type jfs_msg unpacked other h =
      let step = process_unpacked w s msg msg_type jfs_msg unpacked in
      rw step (dispatch-Mirrors w s msg_type jfs_msg other (rw step at h))
