-- ===== src/Proxy/App/Failures.antt =====
-- What the proxy leaves alone when it does not answer a message with success.
use fs_lib.Prelude.{
  ℕ, List, ◌≡◌, refl, inl, inr, Bool, true, false, ◌==◌, Bool-cases, Option-cases, arith, Bytes,
  Result, ok, err, Result-cases, length, keys,
}
use fs_lib.Api.{FsWatcher, Pod, Kube}
use fs_lib.Wire.Codec.{trim}
use fs_lib.Wire.Message.{unpack_msg}
use fs_lib.Proxy.Channel.{parse_msg, formating_chan_id, PodId, get_pod_name, watcher_name}
use fs_lib.Proxy.Paths.{Change, watch, unwatch, apply_pod}
use fs_lib.Proxy.Watcher.{Watcher}
use fs_lib.Proxy.App.{
  Reply, done, api_error, Handled, answer, publish, store_paths, map_keys, change_watcher,
  clear_watcher, clear_found, dispatch, process_watcher_message,
}

-- An answer that the program gives without the API server.
abbrev pub is_refusal : {E : Type 0} → Reply E → Bool
is_refusal done = false
is_refusal (api_error e) = false
is_refusal _ = true

module _ (kube : Kube) (order : List Bytes → List Bytes) where
  open kube use {
    World, ApiError, get_watcher, create_watcher, update_watcher, get_pod, is_not_found,
  }

  -- A refusal has written nothing to the API server.
  abbrev pub KeepsWorld : World → Handled kube order → Type 0
  KeepsWorld s h = is_refusal h.reply ≡ true → h.world ≡ s

  answer-KeepsWorld :
      (w : Watcher) (s : World) (p : Result ApiError Unit × World)
      → KeepsWorld s (answer kube order w p)
  unfolding answer
  answer-KeepsWorld w s (ok u, t) h = cc
  answer-KeepsWorld w s (err e, t) h = cc

  publish-KeepsWorld :
      (w : Watcher) (s : World) (id : PodId) (name : Bytes) (ps : List Bytes)
      (r : Result ApiError FsWatcher)
      → KeepsWorld s (publish kube order w s id name ps r)
  unfolding publish
  publish-KeepsWorld w s id name ps (ok obj) h = answer-KeepsWorld w s _ h
  publish-KeepsWorld w s id name ps (err e) h = elim (Bool-cases (is_not_found e)) [
    | inl missing ↦ rw missing (answer-KeepsWorld w s _ (rw missing at h))
    | inr other ↦ ground arith
  ]

  store_paths-KeepsWorld :
      (w : Watcher) (s : World) (id : PodId) (channel : Bytes)
      → KeepsWorld s (store_paths kube order w s id channel)
  unfolding store_paths
  store_paths-KeepsWorld w s id channel h =
      elim (Bool-cases (length (order (keys w.pod_path_map)) == 0)) [
        | inl none_left ↦ ground arith
        | inr some_left ↦ elim (Result-cases (watcher_name channel)) [
          | inr (e, refused) ↦ ground arith
          | inl ((ns, name), named) ↦
              rw (some_left, named, store_paths)
                (publish-KeepsWorld _ s id name _ _ (rw (some_left, named, store_paths) at h))
        ]
      ]

  map_keys-KeepsWorld :
      (change : Change) (w : Watcher) (s : World) (id : PodId) (channel : Bytes) (ps : List Bytes)
      (r : Result ApiError Pod)
      → KeepsWorld s (map_keys kube order change w s id channel ps r)
  unfolding map_keys
  map_keys-KeepsWorld change w s id channel ps (err e) h = refl
  map_keys-KeepsWorld change w s id channel ps (ok pod) h =
      elim (Option-cases (apply_pod change pod id.containername ps w.pod_path_map)) [
        | inl stuck ↦ ground arith
        | inr (m, e) ↦
            rw (e, map_keys)
              (store_paths-KeepsWorld (record w { pod_path_map = m }) s id channel
                (rw (e, map_keys) at h))
      ]

  change_watcher-KeepsWorld :
      (change : Change) (w : Watcher) (s : World) (jfs_msg : Bytes)
      → KeepsWorld s (change_watcher kube order change w s jfs_msg)
  unfolding change_watcher
  change_watcher-KeepsWorld change w s jfs_msg h =
      elim (Result-cases (get_pod_name (formating_chan_id (parse_msg jfs_msg).0))) [
        | inr (e, refused) ↦ ground arith
        | inl (id, parsed) ↦
            rw (parsed, change_watcher)
              (map_keys-KeepsWorld change _ s id _ _ _ (rw (parsed, change_watcher) at h))
      ]

  clear_watcher-KeepsWorld :
      (w : Watcher) (s : World) (jfs_msg : Bytes)
      → KeepsWorld s (clear_watcher kube order w s jfs_msg)
  unfolding clear_watcher clear_found
  clear_watcher-KeepsWorld w s jfs_msg h =
      elim (Result-cases (watcher_name (formating_chan_id (trim jfs_msg)))) [
        | inr (e, refused) ↦ ground arith
        | inl ((ns, name), named) ↦ elim (Result-cases (get_watcher s ns name)) [
          | inl (obj, got) ↦
              rw (named, got, clear_watcher, clear_found)
                (answer-KeepsWorld w s _ (rw (named, got, clear_watcher, clear_found) at h))
          | inr (e, got) ↦ ground arith
        ]
      ]

  dispatch-KeepsWorld :
      (w : Watcher) (s : World) (msg_type : ℕ) (jfs_msg : Bytes)
      → KeepsWorld s (dispatch kube order w s msg_type jfs_msg)
  unfolding dispatch
  dispatch-KeepsWorld w s msg_type jfs_msg h = ground (
    arith,
    clear_watcher-KeepsWorld w s jfs_msg,
    change_watcher-KeepsWorld unwatch w s jfs_msg,
    change_watcher-KeepsWorld watch w s jfs_msg,
  )

  -- A message that is answered with an error of the proxy's own (a malformed message, an unknown
  -- type, an invalid channel id, no mapped path, or a panic) has changed nothing in the cluster.
  pub process_watcher_message-KeepsWorld :
      (w : Watcher) (s : World) (msg : Bytes)
      → is_refusal (process_watcher_message kube order w s msg).reply ≡ true
      → (process_watcher_message kube order w s msg).world ≡ s
  unfolding process_watcher_message
  process_watcher_message-KeepsWorld w s msg h = elim (Result-cases (unpack_msg msg)) [
    | inr (e, refused) ↦ ground arith
    | inl ((t, jfs_msg), unpacked) ↦
        rw (unpacked, process_watcher_message)
          (dispatch-KeepsWorld w s t jfs_msg (rw (unpacked, process_watcher_message) at h))
  ]
