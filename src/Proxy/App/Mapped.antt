-- ===== src/Proxy/App/Mapped.antt =====
-- What a WATCH that processWatcherMessage of k8s/cmd/fsnotify-proxy/app/app.go answers without an error
-- has made of the watcher's path map.
use fs_lib.Prelude.{
  List, ◌≡◌, refl, sym, ap, ◌∙◌, inl, inr, some, ◌==◌, Bool-cases, Option-cases, arith, Bytes,
  Result, ok, err, Result-cases, length, keys,
}
use fs_lib.Api.{FsWatcher, Pod, Kube}
use fs_lib.Wire.Message.{msg_watch, unpack_msg}
use fs_lib.Proxy.Channel.{parse_msg, formating_chan_id, PodId, get_pod_name, watcher_name}
use fs_lib.Proxy.Paths.{watch, apply_pod}
use fs_lib.Proxy.Watcher.{Watcher}
use fs_lib.Proxy.App.{
  done, answer, publish, store_paths, map_keys, change_watcher, dispatch, process_watcher_message,
}

module _ (kube : Kube) (order : List Bytes → List Bytes) where
  open kube use {World, ApiError, get_watcher, get_pod, is_not_found}

  answer-watcher :
      (w : Watcher) (p : Result ApiError Unit × World) → (answer kube order w p).watcher ≡ w
  unfolding answer
  answer-watcher w (ok u, s) = refl
  answer-watcher w (err e, s) = refl

  pub publish-watcher :
      (w : Watcher) (s : World) (id : PodId) (name : Bytes) (ps : List Bytes)
      (r : Result ApiError FsWatcher)
      → (publish kube order w s id name ps r).watcher ≡ w
  unfolding publish
  publish-watcher w s id name ps (ok obj) = answer-watcher w _
  publish-watcher w s id name ps (err e) = elim (Bool-cases (is_not_found e)) [
    | inl missing ↦ rw missing (answer-watcher w _)
    | inr other ↦ rw other refl
  ]

  store_paths-map :
      (w : Watcher) (s : World) (id : PodId) (channel : Bytes)
      → (store_paths kube order w s id channel).watcher.pod_path_map ≡ w.pod_path_map
  unfolding store_paths
  store_paths-map w s id channel = elim (Bool-cases (length (order (keys w.pod_path_map)) == 0)) [
    | inl none_left ↦ rw none_left refl
    | inr some_left ↦ elim (Result-cases (watcher_name channel)) [
      | inr (e, refused) ↦ rw (some_left, refused, store_paths) refl
      | inl ((ns, name), named) ↦
          rw (some_left, named, store_paths)
            (ap (λ (x : Watcher). x.pod_path_map) (publish-watcher _ s id name _ _))
    ]
  ]

  map_keys-map :
      (w : Watcher) (s : World) (id : PodId) (channel : Bytes) (ps : List Bytes) (pod : Pod)
      → (map_keys kube order watch w s id channel ps (ok pod)).reply ≡ done
      → apply_pod watch pod id.containername ps w.pod_path_map
        ≡ some (map_keys kube order watch w s id channel ps (ok pod)).watcher.pod_path_map
  unfolding map_keys
  map_keys-map w s id channel ps pod h =
      elim (Option-cases (apply_pod watch pod id.containername ps w.pod_path_map)) [
        | inl stuck ↦ absurd (ground (arith, h, stuck))
        | inr (m, e) ↦
            e
            ∙ rw (e, map_keys)
                (ap some (sym (store_paths-map (record w { pod_path_map = m }) s id channel)))
      ]

  -- A WATCH that is answered without an error has put the paths of its message through the mounts of
  -- its pod into the watcher's map.
  pub watch-mapped :
      (w : Watcher) (s : World) (msg jfs_msg : Bytes) (id : PodId) (pod : Pod)
      → unpack_msg msg ≡ ok (msg_watch, jfs_msg)
      → get_pod_name (formating_chan_id (parse_msg jfs_msg).0) ≡ ok id
      → get_pod s id.namespace id.podname ≡ ok pod
      → (process_watcher_message kube order w s msg).reply ≡ done
      → apply_pod watch pod id.containername (parse_msg jfs_msg).1 w.pod_path_map
        ≡ some (process_watcher_message kube order w s msg).watcher.pod_path_map
  unfolding process_watcher_message dispatch change_watcher
  watch-mapped w s msg jfs_msg id pod unpacked parsed got h =
      let answered = rw (unpacked, process_watcher_message, parsed, change_watcher, got) at h in
      rw (unpacked, process_watcher_message, parsed, change_watcher, got)
        (map_keys-map _ s id _ (parse_msg jfs_msg).1 pod answered)
