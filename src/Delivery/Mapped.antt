-- ===== src/Delivery/Mapped.antt =====
-- The entry of the proxy's path map behind a WATCH of one path under a mount of its pod
-- (k8s/cmd/fsnotify-proxy/app/app.go).
use fs_lib.Prelude.{
  ℕ, List, [], ◌∷◌, ◌++◌, ◌≡◌, sym, ap, ◌∙◌, false, ◌&&◌, some, ◌==◌, Bytes, ok, lookup,
}
use fs_lib.Api.{Kube}
use fs_lib.Wire.Message.{msg_watch, unpack_msg}
use fs_lib.Proxy.Channel.{parse_msg, formating_chan_id, PodId, get_pod_name}
use fs_lib.Proxy.Paths.{watch, apply_pod}
use fs_lib.Proxy.Paths.Laws.{ends_slash}
use fs_lib.Proxy.Paths.Mount.{one_mount, apply_pod-one_mount}
use fs_lib.Proxy.Watcher.{Watcher}
use fs_lib.Proxy.Sender.Pipeline.{node_key, watched_key, kept_key}
use fs_lib.Proxy.App.{done, process_watcher_message}
use fs_lib.Proxy.App.Mapped.{watch-mapped}

module _ (kube : Kube) (order : List Bytes → List Bytes) where
  -- It has the path itself at the path's directory on the node.
  pub watch_maps :
      (watcher : Watcher) (s : kube.World) (msg content mount : Bytes) (x : ℕ) (sub : Bytes) (n : ℕ)
      (node volume : Bytes) (id : PodId)
      → unpack_msg msg ≡ ok (msg_watch, content)
      → get_pod_name (formating_chan_id (parse_msg content).0) ≡ ok id
      → (parse_msg content).1 ≡ (mount ++ x ∷ sub) ∷ []
      → kube.get_pod s id.namespace id.podname
        ≡ ok (one_mount id.containername volume (n ∷ node) mount)
      → (ends_slash (n ∷ node) && x == b'/') ≡ false
      → (process_watcher_message kube order watcher s msg).reply ≡ done
      → lookup
          (node_key (n ∷ node) x sub)
          (process_watcher_message kube order watcher s msg).watcher.pod_path_map
        ≡ some (mount ++ x ∷ sub)
  watch_maps watcher s msg content mount x sub n node volume id unpacked is_pod one got no_slash
        answered =
      let pod = one_mount id.containername volume (n ∷ node) mount in
      let old = watcher.pod_path_map in
      watched_key n node mount x sub old _ (
        sym (apply_pod-one_mount watch id.containername volume (n ∷ node) mount _ old)
        ∙ ap (λ ks. apply_pod watch pod id.containername ks old) (sym one)
        ∙ watch-mapped kube order watcher s msg content id pod unpacked is_pod got answered)
      ∙ ap some (kept_key n node mount x sub no_slash)
