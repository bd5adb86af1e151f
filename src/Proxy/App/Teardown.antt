-- ===== src/Proxy/App/Teardown.antt =====
-- Remove of newApp in k8s/cmd/fsnotify-proxy/app/app.go: the goroutine that deletes the object of a
-- closed watcher, beside the messages of other connections.
use fs_lib.Prelude.{
  ℕ, List, [], ◌∷◌, ◌++◌, ◌≡◌, ◌≢◌, refl, ap, ◌∙◌, sym, subst, true, false, Bytes, ok, err,
}
use fs_lib.Api.{Kube}
use fs_lib.Wire.Message.{msg_clear, unpack_msg}
use fs_lib.Proxy.Watcher.{Watcher}
use fs_lib.Proxy.Debounce.{close_watcher}
use fs_lib.Proxy.App.{done, Handled, process_watcher_message}
use fs_lib.Proxy.App.Mirror.{StoresObjects, Mirrors, process_watcher_message-Mirrors}

module _ (kube : Kube) where
  open kube use {World, ApiError, is_not_found, get_watcher, delete_watcher}

  -- The goroutine that Remove starts, with the names that it was given; an error is logged.
  unfoldable pub tear_down : Bytes × Bytes → World → World
  tear_down (namespace, name) s = (delete_watcher s namespace name).1

  abbrev pub IsGone : World → Bytes → Bytes → Type 0
  IsGone s namespace name =
      (e : ApiError) × (get_watcher s namespace name ≡ err e) × (is_not_found e ≡ true)

-- What an API server documents of a Delete without finalizers: the object is no longer found.
abbrev pub DeletesObjects : Kube → Type 0
DeletesObjects kube =
    (s : kube.World) (ns name : Bytes)
    → (kube.delete_watcher s ns name).0 ≡ ok tt
    → IsGone kube (kube.delete_watcher s ns name).1 ns name

pub close-deletions :
    (w : Watcher)
    → w.closed ≡ false
    → ((close_watcher w).deletions ≡ w.deletions ++ (w.cr_namespace, w.cr_name) ∷ [])
      × ((close_watcher w).closed ≡ true)
unfolding close_watcher
close-deletions w up = (rw up refl, rw up refl)

close_twice : (w : Watcher) → w.closed ≡ true → (close_watcher w).deletions ≡ w.deletions
unfolding close_watcher
close_twice w shut = rw shut refl

module _ (kube : Kube) (order : List Bytes → List Bytes) (laws : StoresObjects kube)
    (deletes : DeletesObjects kube) where
  -- When a message that is not a CLEAR was answered without an error, a Close of its watcher starts
  -- one deletion, a second Close starts none, and the deletion takes the object that the message
  -- has stored out of the cluster, if the API server accepts it.
  pub teardown_removes :
      (w : Watcher) (s : kube.World) (msg : Bytes) (msg_type : ℕ) (jfs_msg : Bytes)
      (h : Handled kube order)
      → h ≡ process_watcher_message kube order w s msg
      → unpack_msg msg ≡ ok (msg_type, jfs_msg)
      → msg_type ≢ msg_clear
      → h.reply ≡ done
      → h.watcher.closed ≡ false
      → (kube.delete_watcher h.world h.watcher.cr_namespace h.watcher.cr_name).0 ≡ ok tt
      → Mirrors kube order laws h
        × (pending : Bytes × Bytes) × ((close_watcher h.watcher).deletions
            ≡ h.watcher.deletions ++ pending ∷ [])
        × ((close_watcher (close_watcher h.watcher)).deletions
            ≡ (close_watcher h.watcher).deletions)
        × IsGone kube (tear_down kube pending h.world) h.watcher.cr_namespace h.watcher.cr_name
  unfolding tear_down
  teardown_removes w s msg msg_type jfs_msg h handled unpacked other answered up accepted =
      let (started, shut) = close-deletions h.watcher up in
      (
        subst (Mirrors kube order laws) (sym handled) (
            process_watcher_message-Mirrors kube order laws w s msg msg_type jfs_msg unpacked other
              (ap (λ (x : Handled kube order). x.reply) (sym handled) ∙ answered)),
        (h.watcher.cr_namespace, h.watcher.cr_name),
        started,
        close_twice (close_watcher h.watcher) shut,
        deletes h.world h.watcher.cr_namespace h.watcher.cr_name accepted,
      )
