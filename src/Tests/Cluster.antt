-- ===== src/Tests/Cluster.antt =====
-- The object of the cluster that k8s/cmd/fsnotify-proxy/app keeps for a watcher.
use fs_lib.Prelude.{
  ◌++◌, false, List, [], ◌∷◌, ◌≡◌, refl, Bool, true, Option, none, some, if◌then◌else◌, arith,
  Bytes, codes, equal, equal_iff, equal_refl, Result, ok, err, take, drop, Map, lookup, insert,
}
use fs_lib.Strings.{to_lower, has_prefix, split, join}
use fs_lib.Api.{FsWatcher, directory, Pod, Kube}
use fs_lib.Wire.Codec.{fields, trim}
use fs_lib.Wire.Message.{package_msg, unpack_msg, msg_watch}
use fs_lib.Proxy.Watcher.{new_watcher}
use fs_lib.Proxy.Channel.{parse_msg, formating_chan_id, get_pod_name, watcher_name}
use fs_lib.Proxy.Paths.{
  apply_keys, apply_key, volume_map, apply_containers, apply_mounts, apply_pod, translate,
}
use fs_lib.Wire.Message.{unpack_msg-package_msg}
use fs_lib.Proxy.Channel.{parse_msg-fields}
use fs_lib.Proxy.App.{
  done, answer, publish, store_paths, map_keys, change_watcher, dispatch, process_watcher_message,
}
use fs_lib.Proxy.App.Mirror.{StoresObjects, Mirrors, process_watcher_message-Mirrors}
use fs_lib.Proxy.App.Failures.{is_refusal, process_watcher_message-KeepsWorld}
use fs_lib.Proxy.Debounce.{close_watcher}
use fs_lib.Proxy.App.{Handled}
use fs_lib.Proxy.Channel.{PodId}
use fs_lib.Proxy.App.{new_object}
use fs_lib.Proxy.App.Successor.{teardown_hits_successor}
use fs_lib.Proxy.App.Teardown.{tear_down, IsGone, DeletesObjects, teardown_removes}

abbrev pub node : Bytes
node = codes "/var/n"

abbrev pub pod_path : Bytes
pod_path = codes "/data"

abbrev mapped : Map Bytes
mapped = (codes "/var/n/x", codes "/data/x") ∷ []

-- An API server that holds at most one object.
abbrev pub held_object : Bytes → Option FsWatcher → Result Bool FsWatcher
held_object name none = err true
held_object name (some o) = if equal o.name name then ok o else err true

abbrev pub app_pod : Pod
app_pod = record {
  volumes =
      record { name = codes "v"; host_path = some (record { path = node; kind = some directory }) }
      ∷ [];
  containers =
      record {
        name = codes "c";
        volume_mounts = record { name = codes "v"; mount_path = pod_path } ∷ [];
      }
      ∷ [];
}

abbrev pub one_object : Kube
one_object = record {
  World = Option FsWatcher;
  ApiError = Bool;
  is_not_found = λ e. e;
  get_pod = λ s ns name. ok app_pod;
  get_watcher = λ s ns name. held_object name s;
  create_watcher = λ s ns o. (ok tt, some o);
  update_watcher = λ s ns o. (ok tt, some o);
  delete_watcher = λ s ns name. (ok tt, none);
}

held_itself : (o : FsWatcher) → held_object o.name (some o) ≡ ok o
held_itself o = rw (equal_refl o.name) refl

held_named :
    (name : Bytes) (s : Option FsWatcher) (o : FsWatcher)
    → held_object name s ≡ ok o
    → o.name ≡ name
held_named name none o h = cc
held_named name (some p) o h = ground (arith, equal_iff p.name name)

pub one_object-StoresObjects : StoresObjects one_object
one_object-StoresObjects = record {
  created = λ s ns o h. (o, held_itself o, refl);
  updated = λ s ns o h. (o, held_itself o, refl);
  named = λ s ns name o h. held_named name s o h;
}

abbrev pub any_order : List Bytes → List Bytes
any_order paths = paths

abbrev path_data : Bytes
path_data = fields (codes "ns/p/c/w" ∷ codes "/data/x" ∷ [])

path_data_parsed : parse_msg path_data ≡ (codes "ns/p/c/w", codes "/data/x" ∷ [])
unfolding trim take
path_data_parsed = parse_msg-fields (codes "ns/p/c/w") (codes "/data/x" ∷ [])

abbrev watch_data : Bytes
watch_data = package_msg msg_watch path_data

watch_data_unpacked : unpack_msg watch_data ≡ ok (msg_watch, path_data)
watch_data_unpacked = unpack_msg-package_msg msg_watch path_data

watch_data_open :
    (process_watcher_message one_object any_order new_watcher none watch_data).watcher.closed
    ≡ false
unfolding process_watcher_message dispatch change_watcher map_keys store_paths publish answer
    get_pod_name formating_chan_id split to_lower watcher_name join apply_pod apply_keys apply_key
    has_prefix translate drop volume_map apply_containers equal apply_mounts lookup insert
watch_data_open =
    rw (watch_data_unpacked, process_watcher_message)
      (rw (path_data_parsed, change_watcher)
        (rw (path_data_parsed, map_keys) (rw (path_data_parsed, store_paths) refl)))

watch_data_done :
    (process_watcher_message one_object any_order new_watcher none watch_data).reply ≡ done
unfolding process_watcher_message dispatch change_watcher map_keys store_paths publish answer
    get_pod_name formating_chan_id split to_lower watcher_name join apply_pod apply_keys apply_key
    has_prefix translate drop volume_map apply_containers equal apply_mounts lookup insert
watch_data_done =
    rw (watch_data_unpacked, process_watcher_message)
      (rw (path_data_parsed, change_watcher)
        (rw (path_data_parsed, map_keys) (rw (path_data_parsed, store_paths) refl)))

process_watcher_message-Mirrors_example :
    Mirrors one_object any_order one_object-StoresObjects
      (process_watcher_message one_object any_order new_watcher none watch_data)
process_watcher_message-Mirrors_example =
    process_watcher_message-Mirrors one_object any_order one_object-StoresObjects new_watcher none
      watch_data msg_watch path_data watch_data_unpacked (omega arith) watch_data_done

short_refused :
    is_refusal (process_watcher_message one_object any_order new_watcher none (codes "x")).reply
    ≡ true
unfolding process_watcher_message unpack_msg
short_refused = refl

process_watcher_message-KeepsWorld_example :
    (process_watcher_message one_object any_order new_watcher none (codes "x")).world ≡ none
process_watcher_message-KeepsWorld_example =
    process_watcher_message-KeepsWorld one_object any_order new_watcher none (codes "x")
      short_refused

one_object-DeletesObjects : DeletesObjects one_object
one_object-DeletesObjects s ns name h = (true, refl, refl)

abbrev handled : Handled one_object any_order
handled = process_watcher_message one_object any_order new_watcher none watch_data

teardown_removes_example :
    Mirrors one_object any_order one_object-StoresObjects handled
    × (pending : Bytes × Bytes) × ((close_watcher handled.watcher).deletions
        ≡ handled.watcher.deletions ++ pending ∷ [])
    × ((close_watcher (close_watcher handled.watcher)).deletions
        ≡ (close_watcher handled.watcher).deletions)
    × IsGone one_object
        (tear_down one_object pending handled.world)
        handled.watcher.cr_namespace
        handled.watcher.cr_name
teardown_removes_example =
    teardown_removes one_object any_order one_object-StoresObjects one_object-DeletesObjects
      new_watcher none watch_data msg_watch path_data handled refl watch_data_unpacked (omega arith)
      watch_data_done watch_data_open refl

-- The pod has reconnected, and its new connection watches another path.
abbrev next_path_data : Bytes
next_path_data = fields (codes "ns/p/c/w" ∷ codes "/data/y" ∷ [])

next_path_data_parsed : parse_msg next_path_data ≡ (codes "ns/p/c/w", codes "/data/y" ∷ [])
unfolding trim take
next_path_data_parsed = parse_msg-fields (codes "ns/p/c/w") (codes "/data/y" ∷ [])

abbrev next_data : Bytes
next_data = package_msg msg_watch next_path_data

next_data_unpacked : unpack_msg next_data ≡ ok (msg_watch, next_path_data)
next_data_unpacked = unpack_msg-package_msg msg_watch next_path_data

abbrev pod_id : PodId
pod_id = record { namespace = codes "ns"; podname = codes "p"; containername = codes "c" }

abbrev first_stored : Option FsWatcher
first_stored = some (new_object one_object any_order pod_id (codes "p-c-w") (codes "/var/n/x" ∷ []))

abbrev handled_next : Handled one_object any_order
handled_next = process_watcher_message one_object any_order new_watcher first_stored next_data

next_data_done : handled_next.reply ≡ done
unfolding process_watcher_message dispatch change_watcher map_keys store_paths publish answer
    get_pod_name formating_chan_id split to_lower watcher_name join apply_pod apply_keys apply_key
    has_prefix translate drop volume_map apply_containers equal apply_mounts lookup insert
next_data_done =
    rw (next_data_unpacked, process_watcher_message)
      (rw (next_path_data_parsed, change_watcher)
        (rw (next_path_data_parsed, map_keys) (rw (next_path_data_parsed, store_paths) refl)))

same_channel :
    formating_chan_id (parse_msg path_data).0 ≡ formating_chan_id (parse_msg next_path_data).0
same_channel = rw (path_data_parsed, next_path_data_parsed) refl

teardown_hits_successor_example :
    Mirrors one_object any_order one_object-StoresObjects handled_next
    × (pending : Bytes × Bytes) × ((close_watcher handled.watcher).deletions
        ≡ handled.watcher.deletions ++ pending ∷ [])
    × IsGone one_object
        (tear_down one_object pending handled_next.world)
        handled_next.watcher.cr_namespace
        handled_next.watcher.cr_name
teardown_hits_successor_example =
    teardown_hits_successor one_object any_order one_object-StoresObjects one_object-DeletesObjects
      new_watcher new_watcher none first_stored watch_data next_data msg_watch msg_watch path_data
      next_path_data handled handled_next refl refl watch_data_unpacked next_data_unpacked
      (omega arith) (omega arith) same_channel watch_data_done next_data_done watch_data_open refl

-- The object that the second message finds is the one that the first has stored.
first_is_stored : handled.world ≡ first_stored
unfolding process_watcher_message dispatch change_watcher map_keys store_paths publish answer
    get_pod_name formating_chan_id split to_lower watcher_name join apply_pod apply_keys apply_key
    has_prefix translate drop volume_map apply_containers equal apply_mounts lookup insert
first_is_stored =
    rw (watch_data_unpacked, process_watcher_message)
      (rw (path_data_parsed, change_watcher)
        (rw (path_data_parsed, map_keys) (rw (path_data_parsed, store_paths) refl)))
