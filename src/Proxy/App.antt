-- ===== src/Proxy/App.antt =====
-- processWatcherMessage of k8s/cmd/fsnotify-proxy/app/app.go, over an API server that is a
-- parameter. `order` is the order in which Go's `range` visits the keys of the path map.
pub mod Mirror
pub mod Failures
pub mod Teardown
pub mod Mapped
pub mod Successor
use fs_lib.Prelude.{
  ℕ, List, [], none, some, ◌==◌, if◌then◌else◌, Bytes, Result, ok, err, length, keys,
}
use fs_lib.Api.{FsWatcher, empty_status, Pod, Kube}
use fs_lib.Wire.Codec.{trim}
use fs_lib.Wire.Message.{msg_watch, msg_unwatch, msg_clear, unpack_msg}
use fs_lib.Proxy.Channel.{parse_msg, formating_chan_id, PodId, get_pod_name, watcher_name}
use fs_lib.Proxy.Paths.{Change, watch, unwatch, apply_pod}
use fs_lib.Proxy.Watcher.{Watcher}

pub data Reply (E : Type 0) : Type 0 where
  done : Reply E
  invalid_message : Reply E
  unknown_msg : ℕ → Reply E
  invalid_channel : Reply E
  unmapped : Reply E
  api_error : E → Reply E
  panics : Reply E

module _ (kube : Kube) (order : List Bytes → List Bytes) where
  open kube use {
    World, ApiError, is_not_found, get_pod, get_watcher, create_watcher, update_watcher,
    delete_watcher,
  }

  pub record Handled : Type 0 where
    pub watcher : Watcher
    pub world : World
    pub reply : Reply ApiError

  -- What the caller gets of an API call.
  unfoldable pub answer : Watcher → Result ApiError Unit × World → Handled
  answer w (ok u, s) = record { watcher = w; world = s; reply = done }
  answer w (err e, s) = record { watcher = w; world = s; reply = api_error e }

  abbrev pub stop : Watcher → World → Reply ApiError → Handled
  stop w s r = record { watcher = w; world = s; reply = r }

  -- case jfsnotify.MSG_CLEAR, behind the API's answer to Get
  clear_found : Watcher → World → Result ApiError FsWatcher → Handled
  unfolding answer
  clear_found w s (ok obj) = answer w (delete_watcher s obj.namespace obj.name)
  clear_found w s (err e) = if is_not_found e then stop w s done else stop w s (api_error e)

  -- case jfsnotify.MSG_CLEAR
  pub clear_watcher : Watcher → World → Bytes → Handled
  unfolding clear_found
  clear_watcher w s jfs_msg = elim (watcher_name (formating_chan_id (trim jfs_msg))) [
    | err e ↦ stop w s invalid_channel
    | ok (namespace, name) ↦ clear_found w s (get_watcher s namespace name)
  ]

  -- The object that is created for a watcher.
  abbrev pub new_object : PodId → Bytes → List Bytes → FsWatcher
  new_object id name paths = record {
    name = name;
    namespace = [];
    spec = record {
      description = [];
      pod = id.podname;
      container = id.containername;
      paths = paths;
    };
    status = empty_status;
  }

  -- The end of the function, behind the API's answer to Get: create or update the object.
  unfoldable pub publish :
      Watcher → World → PodId → Bytes → List Bytes → Result ApiError FsWatcher → Handled
  unfolding answer
  publish w s id name paths (ok obj) =
      answer w
        (update_watcher s id.namespace (record obj { spec = record obj.spec { paths = paths } }))
  publish w s id name paths (err e) =
      if is_not_found e
      then answer w (create_watcher s id.namespace (new_object id name paths))
      else stop w s (api_error e)

  -- From `var currentPath []string` on.
  unfoldable pub store_paths : Watcher → World → PodId → Bytes → Handled
  unfolding publish
  store_paths w s id channel_id =
      let current_path = order (keys w.pod_path_map) in
      if length current_path == 0 then stop w s unmapped else elim (watcher_name channel_id) [
        | err e ↦ stop (record w { cr_name = []; cr_namespace = id.namespace }) s invalid_channel
        | ok (namespace, name) ↦
            publish (record w { cr_name = name; cr_namespace = id.namespace }) s id name
              current_path (get_watcher s namespace name)
      ]

  -- From the answer to Get of the pod on.
  unfoldable pub map_keys :
      Change → Watcher → World → PodId → Bytes → List Bytes → Result ApiError Pod → Handled
  unfolding store_paths
  map_keys change w s id channel_id paths (err e) = stop w s (api_error e)
  map_keys change w s id channel_id paths (ok pod) =
      elim (apply_pod change pod id.containername paths w.pod_path_map) [
        | none ↦ stop w s panics
        | some m ↦ store_paths (record w { pod_path_map = m }) s id channel_id
      ]

  -- case jfsnotify.MSG_WATCH, jfsnotify.MSG_UNWATCH and what follows the switch
  unfoldable pub change_watcher : Change → Watcher → World → Bytes → Handled
  unfolding map_keys
  change_watcher change w s jfs_msg =
      let (cid, paths) = parse_msg jfs_msg in
      let channel_id = formating_chan_id cid in
      elim (get_pod_name channel_id) [
        | err e ↦ stop w s invalid_channel
        | ok id ↦
            map_keys change
              (record w {
                channel_id = channel_id;
                pod_ns = id.namespace;
                pod_name = id.podname;
                container = id.containername;
              })
              s id channel_id paths (get_pod s id.namespace id.podname)
      ]

  -- The switch on the message type.
  unfoldable pub dispatch : Watcher → World → ℕ → Bytes → Handled
  dispatch w s msg_type jfs_msg =
      if msg_type == msg_clear
      then clear_watcher w s jfs_msg
      else if msg_type == msg_unwatch
      then change_watcher unwatch w s jfs_msg
      else if msg_type == msg_watch
      then change_watcher watch w s jfs_msg
      else stop w s (unknown_msg msg_type)

  unfoldable pub process_watcher_message : Watcher → World → Bytes → Handled
  unfolding dispatch
  process_watcher_message w s msg = elim (unpack_msg msg) [
    | err e ↦ stop w s invalid_message
    | ok (msg_type, jfs_msg) ↦ dispatch w s msg_type jfs_msg
  ]
