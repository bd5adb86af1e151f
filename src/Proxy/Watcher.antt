-- ===== src/Proxy/Watcher.antt =====
-- The `watcher` of k8s/cmd/fsnotify-proxy/app/helper.go: what the proxy keeps for one client.
use fs_lib.Prelude.{ℕ, List, [], Bool, false, Bytes, Map}
use fs_lib.Event.{Event}

-- delayedWrite; its timer is the one below of this name and generation.
pub record DelayedWrite : Type 0 where
  pub event : Event
  pub gen : ℕ

-- A time.AfterFunc that has not run its callback yet, by what the callback closes over. After
-- `started` the callback runs in its own goroutine and waits for the lock.
pub record Timer : Type 0 where
  pub name : Bytes
  pub gen : ℕ
  pub started : Bool

-- `deletions` are the namespaces and names that `Remove` has sent off to be deleted.
-- `pod_path_map` is { pathInNode: pathInPod }. The client and its queue are those of Multicast.
pub record Watcher : Type 0 where
  pub pod_path_map : Map Bytes
  pub cr_name : Bytes
  pub cr_namespace : Bytes
  pub channel_id : Bytes
  pub pod_ns : Bytes
  pub pod_name : Bytes
  pub container : Bytes
  pub delayed_writes : Map DelayedWrite
  pub timers : List Timer
  pub closed : Bool
  pub deletions : List (Bytes × Bytes)

-- NewWatcher
abbrev pub new_watcher : Watcher
new_watcher = record {
  pod_path_map = [];
  cr_name = [];
  cr_namespace = [];
  channel_id = [];
  pod_ns = [];
  pod_name = [];
  container = [];
  delayed_writes = [];
  timers = [];
  closed = false;
  deletions = [];
}
