-- ===== src/Proxy/App/Successor.antt =====
-- Two connections with one channel id, one after the other, in k8s/cmd/fsnotify-proxy/app/app.go: the
-- names that processWatcherMessage gives their watchers, and the deletion that the Close of the first
-- one starts.
use fs_lib.Prelude.{
  ℕ, List, [], ◌∷◌, ◌++◌, ◌≡◌, ◌≢◌, sym, ap, ◌∙◌, subst, inl, inr, false, ◌==◌, ==_iff, Bool-cases,
  Option-cases, arith, Bytes, Result, ok, err, Result-cases, length, keys,
}
use fs_lib.Api.{Pod, Kube}
use fs_lib.Wire.Message.{msg_watch, msg_unwatch, msg_clear, unpack_msg}
use fs_lib.Proxy.Channel.{parse_msg, formating_chan_id, PodId, get_pod_name, watcher_name}
use fs_lib.Proxy.Paths.{Change, watch, unwatch, apply_pod}
use fs_lib.Proxy.Watcher.{Watcher}
use fs_lib.Proxy.Debounce.{close_watcher}
use fs_lib.Proxy.App.{
  done, Handled, store_paths, map_keys, change_watcher, dispatch, process_watcher_message,
}
use fs_lib.Proxy.App.Mirror.{StoresObjects, Mirrors, process_watcher_message-Mirrors}
use fs_lib.Proxy.App.Mapped.{publish-watcher}
use fs_lib.Proxy.App.Teardown.{tear_down, IsGone, DeletesObjects, close-deletions}

-- The watcher has the names that its channel id gives.
IsNamed : Bytes → Watcher → Type 0
IsNamed channel w =
    (id : PodId) × (names : Bytes × Bytes) × (get_pod_name channel ≡ ok id)
    × (watcher_name channel ≡ ok names)
    × (w.cr_namespace ≡ id.namespace)
    × (w.cr_name ≡ names.1)

same_ok : {E A : Type 0} {a b : A} (r : Result E A) → r ≡ ok a → r ≡ ok b → a ≡ b
same_ok r h k = cc

one_name :
    (channel : Bytes) (v w : Watcher)
    → IsNamed channel v
    → IsNamed channel w
    → (v.cr_namespace ≡ w.cr_namespace) × (v.cr_name ≡ w.cr_name)
unfolding IsNamed
one_name channel v w (id, names, parsed, named, ns, name)
      (id', names', parsed', named', ns', name') =
    (
      ns
          ∙ ap (λ (i : PodId). i.namespace) (same_ok (get_pod_name channel) parsed parsed')
          ∙ sym ns',
      name
          ∙ ap (λ (p : Bytes × Bytes). p.1) (same_ok (watcher_name channel) named named')
          ∙ sym name',
    )

module _ (kube : Kube) (order : List Bytes → List Bytes) where
  open kube use {World, ApiError, get_watcher, get_pod}

  store_paths-IsNamed :
      (w : Watcher) (s : World) (id : PodId) (channel : Bytes)
      → get_pod_name channel ≡ ok id
      → (store_paths kube order w s id channel).reply ≡ done
      → IsNamed channel (store_paths kube order w s id channel).watcher
  unfolding IsNamed store_paths
  store_paths-IsNamed w s id channel parsed h =
      elim (Bool-cases (length (order (keys w.pod_path_map)) == 0)) [
        | inl none_left ↦ ground arith
        | inr some_left ↦ elim (Result-cases (watcher_name channel)) [
          | inr (e, refused) ↦ absurd (ground (arith, h, some_left, refused))
          | inl (names, named) ↦
              let same : (store_paths kube order w s id channel).watcher
                  ≡ record w { cr_name = names.1; cr_namespace = id.namespace } =
                rw (some_left, named, store_paths)
                  (publish-watcher kube order _ s id names.1 _ _) in
              (
                id,
                names,
                parsed,
                named,
                ap (λ (x : Watcher). x.cr_namespace) same,
                ap (λ (x : Watcher). x.cr_name) same,
              )
        ]
      ]

  map_keys-IsNamed :
      (change : Change) (w : Watcher) (s : World) (id : PodId) (channel : Bytes) (ps : List Bytes)
      → get_pod_name channel ≡ ok id
      → (r : Result ApiError Pod) → (map_keys kube order change w s id channel ps r).reply ≡ done
      → IsNamed channel (map_keys kube order change w s id channel ps r).watcher
  unfolding map_keys
  map_keys-IsNamed change w s id channel ps parsed (err e) h = cc
  map_keys-IsNamed change w s id channel ps parsed (ok pod) h =
      elim (Option-cases (apply_pod change pod id.containername ps w.pod_path_map)) [
        | inl stuck ↦ ground arith
        | inr (m, e) ↦
            rw (e, map_keys)
              (store_paths-IsNamed (record w { pod_path_map = m }) s id channel parsed
                (rw (e, map_keys) at h))
      ]

  change_watcher-IsNamed :
      (change : Change) (w : Watcher) (s : World) (jfs_msg : Bytes)
      → (change_watcher kube order change w s jfs_msg).reply ≡ done
      → IsNamed
          (formating_chan_id (parse_msg jfs_msg).0)
          (change_watcher kube order change w s jfs_msg).watcher
  unfolding change_watcher
  change_watcher-IsNamed change w s jfs_msg h =
      elim (Result-cases (get_pod_name (formating_chan_id (parse_msg jfs_msg).0))) [
        | inr (e, refused) ↦ ground arith
        | inl (id, parsed) ↦
            rw (parsed, change_watcher)
              (map_keys-IsNamed change
                (record w {
                  channel_id = formating_chan_id (parse_msg jfs_msg).0;
                  pod_ns = id.namespace;
                  pod_name = id.podname;
                  container = id.containername;
                })
                s id (formating_chan_id (parse_msg jfs_msg).0) (parse_msg jfs_msg).1 parsed
                (get_pod s id.namespace id.podname) (rw (parsed, change_watcher) at h))
      ]

  dispatch-IsNamed :
      (w : Watcher) (s : World) (msg_type : ℕ) (jfs_msg : Bytes)
      → msg_type ≢ msg_clear
      → (dispatch kube order w s msg_type jfs_msg).reply ≡ done
      → IsNamed
          (formating_chan_id (parse_msg jfs_msg).0)
          (dispatch kube order w s msg_type jfs_msg).watcher
  unfolding dispatch
  dispatch-IsNamed w s msg_type jfs_msg other h = elim (Bool-cases (msg_type == msg_clear)) [
    | inl clear ↦ absurd (other ((==_iff msg_type msg_clear).0 clear))
    | inr ne ↦ elim (Bool-cases (msg_type == msg_unwatch)) [
      | inl e ↦ rw (ne, e) (change_watcher-IsNamed unwatch w s jfs_msg (rw (ne, e) at h))
      | inr nu ↦ elim (Bool-cases (msg_type == msg_watch)) [
        | inl e ↦ rw (ne, nu, e) (change_watcher-IsNamed watch w s jfs_msg (rw (ne, nu, e) at h))
        | inr unknown ↦ ground arith
      ]
    ]
  ]

  process-IsNamed :
      (w : Watcher) (s : World) (msg : Bytes) (msg_type : ℕ) (jfs_msg : Bytes)
      → unpack_msg msg ≡ ok (msg_type, jfs_msg)
      → msg_type ≢ msg_clear
      → (process_watcher_message kube order w s msg).reply ≡ done
      → IsNamed
          (formating_chan_id (parse_msg jfs_msg).0)
          (process_watcher_message kube order w s msg).watcher
  unfolding process_watcher_message
  process-IsNamed w s msg msg_type jfs_msg unpacked other h =
      rw (unpacked, process_watcher_message)
        (dispatch-IsNamed w s msg_type jfs_msg other (rw (unpacked, process_watcher_message) at h))

  module _ (laws : StoresObjects kube) (deletes : DeletesObjects kube) where
    -- Two watchers, each with a message that is not a CLEAR, whose messages come under one channel
    -- id and are answered without an error, the second one in any state of the cluster. If the first
    -- watcher is closed, the deletion that this starts, when it runs behind the second answer and the
    -- API server accepts it, takes the object that the second message has stored, with the paths of
    -- the second watcher's map, out of the cluster.
    pub teardown_hits_successor :
        (w v : Watcher) (s t : World) (msg next : Bytes) (msg_type next_type : ℕ)
        (jfs_msg next_msg : Bytes) (h g : Handled kube order)
        → h ≡ process_watcher_message kube order w s msg
        → g ≡ process_watcher_message kube order v t next
        → unpack_msg msg ≡ ok (msg_type, jfs_msg)
        → unpack_msg next ≡ ok (next_type, next_msg)
        → msg_type ≢ msg_clear
        → next_type ≢ msg_clear
        → formating_chan_id (parse_msg jfs_msg).0 ≡ formating_chan_id (parse_msg next_msg).0
        → h.reply ≡ done
        → g.reply ≡ done
        → h.watcher.closed ≡ false
        → (kube.delete_watcher g.world g.watcher.cr_namespace g.watcher.cr_name).0 ≡ ok tt
        → Mirrors kube order laws g
          × (pending : Bytes × Bytes) × ((close_watcher h.watcher).deletions
              ≡ h.watcher.deletions ++ pending ∷ [])
          × IsGone kube (tear_down kube pending g.world) g.watcher.cr_namespace g.watcher.cr_name
    unfolding tear_down
    teardown_hits_successor w v s t msg next msg_type next_type jfs_msg next_msg h g handled
          handled' unpacked unpacked' other other' same answered answered' up accepted =
        let first =
          process-IsNamed w s msg msg_type jfs_msg unpacked other
            (ap (λ (x : Handled kube order). x.reply) (sym handled) ∙ answered) in
        let again : (process_watcher_message kube order v t next).reply ≡ done =
          ap (λ (x : Handled kube order). x.reply) (sym handled') ∙ answered' in
        let second = process-IsNamed v t next next_type next_msg unpacked' other' again in
        let (ns, name) =
          one_name (formating_chan_id (parse_msg next_msg).0) h.watcher g.watcher
            (subst (λ c. IsNamed c h.watcher) same
              (subst
                (λ (x : Handled kube order).
                  IsNamed (formating_chan_id (parse_msg jfs_msg).0) x.watcher)
                (sym handled) first))
            (subst
              (λ (x : Handled kube order).
                IsNamed (formating_chan_id (parse_msg next_msg).0) x.watcher)
              (sym handled') second) in
        (
          subst (Mirrors kube order laws) (sym handled') (
              process_watcher_message-Mirrors kube order laws v t next next_type next_msg unpacked'
                other' again),
          (g.watcher.cr_namespace, g.watcher.cr_name),
          (close-deletions h.watcher up).0 ∙ (λ i. h.watcher.deletions ++ (ns i, name i) ∷ []),
          deletes g.world g.watcher.cr_namespace g.watcher.cr_name accepted,
        )
