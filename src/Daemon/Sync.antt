-- ===== src/Daemon/Sync.antt =====
-- SyncWatches, addWatchers and readEvent of k8s/cmd/fsnotify-daemon/app/app.go. What is written
-- to the IPC client is the list of messages; an error of a write is logged only. `order` is the
-- order in which Go's `range` visits the path set.
pub mod ChanId
pub mod Paths
pub mod Reconnect
pub mod Follow
pub mod Changes
pub mod Course
pub mod Shared
pub mod Lag
pub mod Ownership
pub mod Settles
pub mod Lags
pub mod Unshared
use fs_lib.Prelude.{
  ℕ, ◌+◌, ◌-◌, ◌/◌, List, [], ◌∷◌, ◌++◌, Bool, ◌&&◌, Option, none, some, ◌==◌, if◌then◌else◌, Bytes,
  codes, equal, Result, ok, err, Map, lookup, insert, keys,
}
use fs_lib.Event.{Event}
use fs_lib.Strings.{replace_first}
use fs_lib.Api.{FsWatcher}
use fs_lib.Wire.Codec.{field}
use fs_lib.Wire.Message.{msg_watch, msg_unwatch, msg_clear, msg_event}
use fs_lib.Wire.Frames.{unpack_event}
use fs_lib.Daemon.Controller.{Action, unknown, add, update, delete}

-- ipc.Message, with the two fields that the program sets
pub record IpcMessage : Type 0 where
  pub msg_type : ℕ
  pub content : Bytes

pub data Synced (E : Type 0) : Type 0 where
  wrote : List IpcMessage → Synced E
  list_failed : E → Synced E
  panics : Synced E

-- a set of paths as a map[string]int
abbrev pub PathSet : Type 0
PathSet = Map ℕ

unfoldable pub add_paths : List Bytes → PathSet → PathSet
add_paths [] m = m
add_paths (p ∷ ps) m = add_paths ps (insert p 1 m)

-- l.Name == watcher.Name && l.Namespace == watcher.Namespace
abbrev pub is_self : FsWatcher → FsWatcher → Bool
is_self watcher l = equal l.name watcher.name && equal l.namespace watcher.namespace

-- The loop over the list: watchedPaths of the other objects, and watcherSelf.
unfoldable pub scan :
    FsWatcher → List FsWatcher → PathSet × Option FsWatcher → PathSet × Option FsWatcher
unfolding add_paths
scan watcher [] s = s
scan watcher (l ∷ ls) (m, self) =
    scan watcher ls (if is_self watcher l then (m, some l) else (add_paths l.spec.paths m, self))

-- getChanId
unfoldable pub get_chan_id : FsWatcher → Bytes
get_chan_id watcher =
    let pod = watcher.spec.pod in
    let container = watcher.spec.container in
    let id =
      watcher.namespace
      ++ b'/' ∷ replace_first watcher.name (pod ++ b'-' ∷ []) (pod ++ b'/' ∷ []) in
    replace_first id (container ++ b'-' ∷ []) (container ++ b'/' ∷ [])

-- The paths of a watcher that are not in the set.
unfoldable pub own_paths : PathSet → List Bytes → List Bytes
own_paths watched [] = []
own_paths watched (p ∷ ps) =
    let rest = own_paths watched ps in elim (lookup p watched) [ none ↦ p ∷ rest | some n ↦ rest ]

-- One field for each path, behind what was there.
unfoldable pub append_fields : Bytes → List Bytes → Bytes
append_fields b [] = b
append_fields b (p ∷ ps) = append_fields (b ++ field 255 p) ps

-- addWatch and delWatch; their buffer is never empty.
unfoldable pub watch_message : ℕ → PathSet → FsWatcher → IpcMessage
unfolding own_paths append_fields get_chan_id
watch_message msg_type watched watcher = record {
  msg_type = msg_type;
  content = append_fields (field 255 (get_chan_id watcher)) (own_paths watched watcher.spec.paths);
}

-- The switch; addWatch of a nil watcherSelf panics.
unfoldable pub sync_action :
    {E : Type 0} → Action → FsWatcher → PathSet × Option FsWatcher → Synced E
unfolding watch_message
sync_action add watcher (watched, self) = wrote (watch_message msg_watch watched watcher ∷ [])
sync_action delete watcher (watched, self) = wrote (watch_message msg_unwatch watched watcher ∷ [])
sync_action update watcher (watched, none) = panics
sync_action update watcher (watched, some self) =
    wrote (watch_message msg_unwatch watched watcher ∷ watch_message msg_watch watched self ∷ [])
sync_action unknown watcher (watched, self) = wrote []

sync_listed : {E : Type 0} → Action → FsWatcher → Result E (List FsWatcher) → Synced E
unfolding scan sync_action
sync_listed action watcher (err e) = list_failed e
sync_listed action watcher (ok list) = sync_action action watcher (scan watcher list ([], none))

-- SyncWatches; `none` is an object of another type, and `listed` the answer of the lister.
unfoldable pub sync_watches :
    {E : Type 0} → Action → Option FsWatcher → Result E (List FsWatcher) → Synced E
unfolding sync_listed
sync_watches action none listed = wrote []
sync_watches action (some watcher) listed = sync_listed action watcher listed

unfoldable pub path_set : List FsWatcher → PathSet → PathSet
unfolding add_paths
path_set [] m = m
path_set (w ∷ ws) m = path_set ws (add_paths w.spec.paths m)

-- The two messages of addWatchers: the CLEAR before it lists the objects, and the WATCH behind that
abbrev pub clear_all : IpcMessage
clear_all = record { msg_type = msg_clear; content = [] }

unfoldable pub watch_all : (List Bytes → List Bytes) → List FsWatcher → IpcMessage
unfolding path_set append_fields
watch_all order watchers = record {
  msg_type = msg_watch;
  content = append_fields (field 255 (codes "cluster")) (order (keys (path_set watchers [])));
}

-- addWatchers: the messages that it writes, the lister's answer given
unfoldable pub add_watchers :
    {E : Type 0} → (List Bytes → List Bytes) → Result E (List FsWatcher) → List IpcMessage
unfolding watch_all
add_watchers order (err e) = clear_all ∷ []
add_watchers order (ok watchers) = clear_all ∷ watch_all order watchers ∷ []

-- readEvent: what it publishes; `encode` is json.Marshal, with `none` for an error
unfoldable pub read_event : (List Event → Option Bytes) → IpcMessage → Option Bytes
read_event encode msg =
    if msg.msg_type == msg_event
    then elim (unpack_event msg.content) [ err e ↦ none | ok events ↦ encode events ]
    else none
