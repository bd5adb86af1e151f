-- ===== src/Api.antt =====
-- The objects of the cluster that the program reads and writes: FSWatcher of
-- k8s/pkg/apis/sys/v1alpha1/types.go, and the fields of a pod that the proxy looks at. The API
-- server itself is a parameter, `Kube`.
use fs_lib.Prelude.{ℕ, List, [], Bool, Option, none, Bytes, Result}

-- FSWatcherSpec
pub record FsWatcherSpec : Type 0 where
  pub description : Bytes
  pub pod : Bytes
  pub container : Bytes
  pub paths : List Bytes

-- FSWatcherStatus, its two times as optional values of the API's clock
pub record FsWatcherStatus : Type 0 where
  pub state : Bytes
  pub update_time : Option ℕ
  pub status_time : Option ℕ

-- FSWatcher; of the metadata, the name and the namespace
pub record FsWatcher : Type 0 where
  pub name : Bytes
  pub namespace : Bytes
  pub spec : FsWatcherSpec
  pub status : FsWatcherStatus

abbrev pub empty_status : FsWatcherStatus
empty_status = record { state = []; update_time = none; status_time = none }

-- corev1.HostPathType, as far as the proxy tells it apart
pub data HostPathType : Type 0 where
  directory directory_or_create other_type : HostPathType

pub record HostPath : Type 0 where
  pub path : Bytes
  pub kind : Option HostPathType

pub record Volume : Type 0 where
  pub name : Bytes
  pub host_path : Option HostPath

pub record VolumeMount : Type 0 where
  pub name : Bytes
  pub mount_path : Bytes

pub record Container : Type 0 where
  pub name : Bytes
  pub volume_mounts : List VolumeMount

pub record Pod : Type 0 where
  pub volumes : List Volume
  pub containers : List Container

-- The two client sets: the calls that the program makes, over the state of the API server.
pub record Kube : Type 1 where
  pub World : Type 0
  pub ApiError : Type 0
  pub is_not_found : ApiError → Bool
  pub get_pod : World → Bytes → Bytes → Result ApiError Pod
  pub get_watcher : World → Bytes → Bytes → Result ApiError FsWatcher
  pub create_watcher : World → Bytes → FsWatcher → Result ApiError Unit × World
  pub update_watcher : World → Bytes → FsWatcher → Result ApiError Unit × World
  pub delete_watcher : World → Bytes → Bytes → Result ApiError Unit × World
