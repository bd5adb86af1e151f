-- ===== src/Proxy/Paths/Mount.antt =====
-- The three loops of processWatcherMessage in k8s/cmd/fsnotify-proxy/app/app.go for a pod whose only
-- container mounts one directory of its node.
use fs_lib.Prelude.{
  List, [], ◌∷◌, ◌≡◌, refl, inl, inr, some, Option-cases, Bytes, equal_refl, Map, lookup, insert,
}
use fs_lib.Api.{directory, Pod}
use fs_lib.Proxy.Paths.{
  is_directory, add_volume, volumes_onto, volume_map, Change, apply_keys, apply_mount, apply_mounts,
  apply_containers, apply_pod,
}

-- The pod with this one container, which mounts the directory `node` of its node at `mount`.
abbrev pub one_mount : Bytes → Bytes → Bytes → Bytes → Pod
one_mount container volume node mount = record {
  volumes =
      record { name = volume; host_path = some (record { path = node; kind = some directory }) }
      ∷ [];
  containers =
      record { name = container; volume_mounts = record { name = volume; mount_path = mount } ∷ [] }
      ∷ [];
}

pub apply_pod-one_mount :
    (change : Change) (container volume node mount : Bytes) (ks : List Bytes) (m : Map Bytes)
    → apply_pod change (one_mount container volume node mount) container ks m
      ≡ apply_keys change node mount ks m
unfolding apply_pod volume_map volumes_onto add_volume is_directory apply_containers apply_mounts
    apply_mount insert lookup
apply_pod-one_mount change container volume node mount ks m =
    elim (Option-cases (apply_keys change node mount ks m)) [
      | inl stuck ↦ rw (equal_refl container, equal_refl volume, stuck) refl
      | inr (m', e) ↦ rw (equal_refl container, equal_refl volume, e) refl
    ]
