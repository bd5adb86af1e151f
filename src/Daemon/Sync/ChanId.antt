-- ===== src/Daemon/Sync/ChanId.antt =====
-- The channel id that the daemon rebuilds from a watcher object (getChanId), against the one that
-- the proxy made the object's name from (getWatcher).
use fs_lib.Prelude.{
  [], ◌∷◌, ◌++◌, ◌≡◌, ◌≢◌, refl, sym, ap, ◌∙◌, false, some, arith, Bytes, ok, length, length-append,
  append_assoc,
}
use fs_lib.Api.{FsWatcher}
use fs_lib.Strings.{contains, split, join, index, replace_first}
use fs_lib.Strings.Laws.{split-append, split-free, replace_first-append, replace_first-at}
use fs_lib.Proxy.Channel.{PodId, get_pod_name, watcher_name}
use fs_lib.Daemon.Sync.{get_chan_id}

-- The channel id of a watcher of a container of a pod.
abbrev pub channel_id : PodId → Bytes → Bytes
channel_id id name = id.namespace ++ b'/' ∷ (id.podname ++ b'/' ∷ (id.containername ++ b'/' ∷ name))

-- No part of the id holds a slash.
pub record IsPlain (id : PodId) (name : Bytes) : Type 0 where
  pub plain_namespace : contains b'/' id.namespace ≡ false
  pub plain_pod : contains b'/' id.podname ≡ false
  pub plain_container : contains b'/' id.containername ≡ false
  pub plain_name : contains b'/' name ≡ false

-- An object as the proxy creates it for the channel id.
pub record IsCreatedFor (id : PodId) (name : Bytes) (w : FsWatcher) : Type 0 where
  pub created_namespace : w.namespace ≡ id.namespace
  pub created_pod : w.spec.pod ≡ id.podname
  pub created_container : w.spec.container ≡ id.containername
  pub created_name : watcher_name (channel_id id name) ≡ ok (id.namespace, w.name)

split-channel_id :
    (id : PodId) (name : Bytes)
    → IsPlain id name
    → split b'/' (channel_id id name) ≡ id.namespace ∷ id.podname ∷ id.containername ∷ name ∷ []
split-channel_id id name h =
    split-append b'/' id.namespace _ h.plain_namespace
    ∙ ap (λ l. id.namespace ∷ l)
        (split-append b'/' id.podname _ h.plain_pod
          ∙ ap (λ l. id.podname ∷ l)
              (split-append b'/' id.containername _ h.plain_container
                ∙ ap (λ l. id.containername ∷ l) (split-free b'/' name h.plain_name)))

-- The proxy reads back the namespace, the pod and the container of a channel id whose parts hold
-- no slash, and names the object pod-container-name.
pub channel_id-parts :
    (id : PodId) (name : Bytes)
    → IsPlain id name
    → (get_pod_name (channel_id id name) ≡ ok id)
      × (watcher_name (channel_id id name)
          ≡ ok (id.namespace, id.podname ++ b'-' ∷ (id.containername ++ b'-' ∷ name)))
unfolding get_pod_name watcher_name join
channel_id-parts id name h = (
  rw (split-channel_id id name h, get_pod_name) refl,
  rw (split-channel_id id name h, watcher_name) refl,
)

-- The id after the first replacement, which puts a slash behind the pod.
half_id : PodId → Bytes → Bytes
half_id id name =
    (id.namespace ++ b'/' ∷ (id.podname ++ b'/' ∷ [])) ++ ((id.containername ++ b'-' ∷ []) ++ name)

object_name :
    (id : PodId) (name : Bytes) (w : FsWatcher)
    → IsPlain id name
    → IsCreatedFor id name w
    → w.name ≡ (id.podname ++ b'-' ∷ []) ++ (id.containername ++ b'-' ∷ name)
object_name id name w h made =
    cc (made.created_name, (channel_id-parts id name h).1)
    ∙ sym (append_assoc id.podname (b'-' ∷ []) (id.containername ++ b'-' ∷ name))

abbrev chan_of : Bytes → Bytes → Bytes → Bytes → Bytes
chan_of namespace name pod container =
    replace_first (namespace ++ b'/' ∷ replace_first name (pod ++ b'-' ∷ []) (pod ++ b'/' ∷ []))
      (container ++ b'-' ∷ []) (container ++ b'/' ∷ [])

get_chan_id-half :
    (id : PodId) (name : Bytes) (w : FsWatcher)
    → IsPlain id name
    → IsCreatedFor id name w
    → get_chan_id w
      ≡ replace_first
          (half_id id name)
          (id.containername ++ b'-' ∷ [])
          (id.containername ++ b'/' ∷ [])
unfolding get_chan_id half_id
get_chan_id-half id name w h made =
    (λ i.
      chan_of (made.created_namespace i) (object_name id name w h made i) (made.created_pod i)
        (made.created_container i))
    ∙ ap
        (λ s.
          replace_first (id.namespace ++ b'/' ∷ s) (id.containername ++ b'-' ∷ [])
            (id.containername ++ b'/' ∷ []))
        (replace_first-append (id.podname ++ b'-' ∷ []) (id.podname ++ b'/' ∷ [])
          (id.containername ++ b'-' ∷ name))
    ∙ ap (λ s. replace_first s (id.containername ++ b'-' ∷ []) (id.containername ++ b'/' ∷ []))
        (simp append_assoc)

-- For an object that the proxy created for a channel id without slashes in its parts, the daemon
-- rebuilds that channel id, if the container's name and a dash are not found earlier than in
-- their place behind the pod's name.
pub get_chan_id-created :
    (id : PodId) (name : Bytes) (w : FsWatcher)
    → IsPlain id name
    → IsCreatedFor id name w
    → index
        ((id.namespace ++ b'/' ∷ (id.podname ++ b'/' ∷ []))
          ++ ((id.containername ++ b'-' ∷ []) ++ name))
        (id.containername ++ b'-' ∷ [])
      ≡ some (length (id.namespace ++ b'/' ∷ (id.podname ++ b'/' ∷ [])))
    → get_chan_id w ≡ channel_id id name
get_chan_id-created id name w h made first =
    get_chan_id-half id name w h made
    ∙ unfold half_id in
      replace_first-at _ _ (id.containername ++ b'/' ∷ []) name first ∙ simp append_assoc

half_id-prefixed :
    (id : PodId) (suffix name : Bytes)
    → id.podname ≡ (id.containername ++ b'-' ∷ []) ++ suffix
    → half_id id name
      ≡ (id.namespace ++ b'/' ∷ [])
        ++ ((id.containername ++ b'-' ∷ []) ++ (suffix ++ b'/' ∷ (id.containername ++ b'-' ∷ name)))
unfolding half_id
half_id-prefixed id suffix name e =
    ap (λ p. (id.namespace ++ b'/' ∷ (p ++ b'/' ∷ [])) ++ ((id.containername ++ b'-' ∷ []) ++ name))
      e
    ∙ regrouped
  where
    regrouped :
        (id.namespace ++ b'/' ∷ (((id.containername ++ b'-' ∷ []) ++ suffix) ++ b'/' ∷ []))
          ++ ((id.containername ++ b'-' ∷ []) ++ name)
        ≡ (id.namespace ++ b'/' ∷ [])
          ++ ((id.containername ++ b'-' ∷ [])
              ++ (suffix ++ b'/' ∷ (id.containername ++ b'-' ∷ name)))
    regrouped = simp append_assoc

abbrev pub shifted_id : PodId → Bytes → Bytes → Bytes
shifted_id id suffix name =
    id.namespace
    ++ b'/' ∷ (id.containername ++ b'/' ∷ (suffix ++ b'/' ∷ (id.containername ++ b'-' ∷ name)))

prefixed_id :
    (id : PodId) (suffix name : Bytes)
    → (id.namespace ++ b'/' ∷ [])
        ++ ((id.containername ++ b'/' ∷ []) ++ (suffix ++ b'/' ∷ (id.containername ++ b'-' ∷ name)))
      ≡ shifted_id id suffix name
prefixed_id id suffix name = simp append_assoc

split-shifted_id :
    (id : PodId) (suffix name : Bytes)
    → IsPlain id name
    → split b'/' (shifted_id id suffix name)
      ≡ id.namespace
        ∷ id.containername
        ∷ split b'/' (suffix ++ b'/' ∷ (id.containername ++ b'-' ∷ name))
split-shifted_id id suffix name h =
    split-append b'/' id.namespace _ h.plain_namespace
    ∙ ap (λ l. id.namespace ∷ l) (split-append b'/' id.containername _ h.plain_container)

other_pod :
    (id : PodId) (suffix name : Bytes)
    → IsPlain id name
    → id.podname ≡ (id.containername ++ b'-' ∷ []) ++ suffix
    → shifted_id id suffix name ≢ channel_id id name
other_pod id suffix name h prefixed same =
    let tokens =
      sym (split-shifted_id id suffix name h) ∙ ap (split b'/') same ∙ split-channel_id id name h in
    let shorter : id.containername ≡ id.podname = cc tokens in
    omega (
      arith,
      ap length shorter,
      ap length prefixed,
      length-append (id.containername ++ b'-' ∷ []) suffix,
      length-append id.containername (b'-' ∷ []),
    )

-- Where the pod's name begins with the container's name and a dash, and these are not found
-- earlier, the daemon's id has the container's name in the place of the pod's, and is not the
-- channel id.
pub get_chan_id-prefixed :
    (id : PodId) (suffix name : Bytes) (w : FsWatcher)
    → IsPlain id name
    → IsCreatedFor id name w
    → id.podname ≡ (id.containername ++ b'-' ∷ []) ++ suffix
    → index
        ((id.namespace ++ b'/' ∷ [])
          ++ ((id.containername ++ b'-' ∷ [])
              ++ (suffix ++ b'/' ∷ (id.containername ++ b'-' ∷ name))))
        (id.containername ++ b'-' ∷ [])
      ≡ some (length (id.namespace ++ b'/' ∷ []))
    → (get_chan_id w ≡ shifted_id id suffix name) × (get_chan_id w ≢ channel_id id name)
get_chan_id-prefixed id suffix name w h made prefixed first =
    let rebuilt =
      get_chan_id-half id name w h made
      ∙ ap (λ s. replace_first s (id.containername ++ b'-' ∷ []) (id.containername ++ b'/' ∷ []))
          (half_id-prefixed id suffix name prefixed)
      ∙ replace_first-at (id.namespace ++ b'/' ∷ []) (id.containername ++ b'-' ∷ [])
          (id.containername ++ b'/' ∷ []) (suffix ++ b'/' ∷ (id.containername ++ b'-' ∷ name)) first
      ∙ prefixed_id id suffix name in
    (rebuilt, λ same. other_pod id suffix name h prefixed (sym rebuilt ∙ same))
