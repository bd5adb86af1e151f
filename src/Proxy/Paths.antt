-- ===== src/Proxy/Paths.antt =====
-- From a path in a pod to the path on its node: the volume map and the three loops in
-- processWatcherMessage of k8s/cmd/fsnotify-proxy/app/app.go. `none` is a panic.
pub mod Laws
pub mod Mount
use fs_lib.Prelude.{
  ℕ, ◌+◌, ◌/◌, List, [], ◌∷◌, ◌++◌, Bool, true, false, not, ◌&&◌, Option, none, some, ltb, ◌==◌,
  if◌then◌else◌, Bytes, equal, length, drop, Map, lookup, insert, remove,
}
use fs_lib.Api.{
  HostPathType, directory, directory_or_create, other_type, HostPath, Volume, VolumeMount,
  Container, Pod,
}
use fs_lib.Strings.{has_prefix}

is_directory : HostPathType → Bool
is_directory directory = true
is_directory directory_or_create = true
is_directory other_type = false

-- One round of the loop over the volumes; `*v.HostPath.Type` panics on a nil type.
add_volume : Bytes → Option HostPath → Map Bytes → Option (Map Bytes)
unfolding is_directory
add_volume name none m = some m
add_volume name (some h) m = elim h.kind [
  | none ↦ none
  | some kind ↦ some (if is_directory kind then insert name h.path m else m)
]

volumes_onto : Map Bytes → List Volume → Option (Map Bytes)
unfolding add_volume
volumes_onto m [] = some m
volumes_onto m (v ∷ vs) = elim (add_volume v.name v.host_path m) [
  | none ↦ none
  | some m' ↦ volumes_onto m' vs
]

-- volumeMap
unfoldable pub volume_map : List Volume → Option (Map Bytes)
unfolding volumes_onto
volume_map = volumes_onto []

-- s[len(s)-1], `none` on an empty string
unfoldable pub last : Bytes → Option ℕ
last [] = none
last (x ∷ []) = some x
last (x ∷ y ∷ ys) = last (y ∷ ys)

abbrev is_slash : Option ℕ → Bool
is_slash none = false
is_slash (some c) = c == b'/'

-- The two tests on the slash between the node path and `sub`, the rest of the key.
join_sub : Bytes → Bytes → Bytes → Bytes × Bytes
unfolding last
join_sub node_path pod_path sub =
    let sub_slash = is_slash (elim sub [ [] ↦ none | x ∷ xs ↦ some x ]) in
    let watch_path =
      if not (is_slash (last node_path)) && not sub_slash
      then node_path ++ b'/' ∷ []
      else node_path in
    let sub' = if is_slash (last watch_path) && sub_slash then drop 1 sub else sub in
    (watch_path ++ sub', pod_path ++ sub')

-- watchPath and podWatchPath of a key that begins with `pod_path`
unfoldable pub translate : Bytes → Bytes → Bytes → Option (Bytes × Bytes)
unfolding join_sub
translate node_path pod_path k =
    if ltb (length pod_path) (length k)
    then elim (last node_path) [
      | none ↦ none
      | some c ↦ some (join_sub node_path pod_path (drop (length pod_path) k))
    ]
    else some (node_path, pod_path)

pub data Change : Type 0 where
  watch unwatch : Change

-- The switch on the message type.
unfoldable pub change_path : Change → Bytes × Bytes → Map Bytes → Map Bytes
change_path watch (watch_path, pod_watch_path) m = insert watch_path pod_watch_path m
change_path unwatch (watch_path, pod_watch_path) m = remove watch_path m

-- One round of the loop over the keys.
unfoldable pub apply_key : Change → Bytes → Bytes → Bytes → Map Bytes → Option (Map Bytes)
unfolding change_path
apply_key change node_path pod_path k m =
    if has_prefix k pod_path
    then elim (translate node_path pod_path k) [
      | none ↦ none
      | some p ↦ some (change_path change p m)
    ]
    else some m

unfoldable pub apply_keys : Change → Bytes → Bytes → List Bytes → Map Bytes → Option (Map Bytes)
apply_keys change node_path pod_path [] m = some m
apply_keys change node_path pod_path (k ∷ ks) m = elim (apply_key change node_path pod_path k m) [
  | none ↦ none
  | some m' ↦ apply_keys change node_path pod_path ks m'
]

-- One round of the loop over the volume mounts.
apply_mount : Change → Option Bytes → Bytes → List Bytes → Map Bytes → Option (Map Bytes)
apply_mount change none pod_path ks m = some m
apply_mount change (some node_path) pod_path ks m = apply_keys change node_path pod_path ks m

unfoldable pub apply_mounts :
    Change → Map Bytes → List VolumeMount → List Bytes → Map Bytes → Option (Map Bytes)
unfolding apply_mount
apply_mounts change volumes [] ks m = some m
apply_mounts change volumes (v ∷ vs) ks m =
    elim (apply_mount change (lookup v.name volumes) v.mount_path ks m) [
      | none ↦ none
      | some m' ↦ apply_mounts change volumes vs ks m'
    ]

-- The loop over the containers of the pod.
unfoldable pub apply_containers :
    Change → Map Bytes → Bytes → List Container → List Bytes → Map Bytes → Option (Map Bytes)
apply_containers change volumes name [] ks m = some m
apply_containers change volumes name (c ∷ cs) ks m =
    let skipped = apply_containers change volumes name cs ks m in
    if equal c.name name
    then elim (apply_mounts change volumes c.volume_mounts ks m) [
      | none ↦ none
      | some m' ↦ apply_containers change volumes name cs ks m'
    ]
    else skipped

-- The new podPathMap: all of the above for one message.
unfoldable pub apply_pod : Change → Pod → Bytes → List Bytes → Map Bytes → Option (Map Bytes)
apply_pod change pod name ks m = elim (volume_map pod.volumes) [
  | none ↦ none
  | some volumes ↦ apply_containers change volumes name pod.containers ks m
]
