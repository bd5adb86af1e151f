-- ===== src/Tests/Request.antt =====
-- A path that a pod watches, up to the daemon's message.
use fs_lib.Prelude.{
  List, [], ◌∷◌, ◌++◌, ◌≡◌, refl, not, ◌&&◌, none, some, arith, Bytes, codes, ok, take, drop, equal,
  lookup, insert, keys, member, id-IsRangeOrder,
}
use fs_lib.Strings.{to_lower, has_prefix, split, join}
use fs_lib.Api.{FsWatcher}
use fs_lib.Wire.Codec.{trim, Fits}
use fs_lib.Wire.Message.{msg_watch, unpack_msg}
use fs_lib.Jfs.Chan as Chan
use fs_lib.Jfs.Chan.{send_to}
use fs_lib.Jfs.Watcher as Jfs
use fs_lib.Jfs.Watcher.Watches.{frame, queued, frame-ReadsAs}
use fs_lib.Proxy.Watcher as Proxy
use fs_lib.Proxy.Channel.{parse_msg, formating_chan_id, PodId, get_pod_name, watcher_name}
use fs_lib.Proxy.Paths.{
  apply_keys, apply_key, volume_map, apply_containers, apply_mounts, apply_pod, translate, last,
}
use fs_lib.Proxy.App.{
  done, Handled, answer, publish, store_paths, map_keys, change_watcher, dispatch,
  process_watcher_message,
}
use fs_lib.Daemon.Controller.{add}
use fs_lib.Daemon.Sync.{IpcMessage, wrote, sync_watches}
use fs_lib.Daemon.Sync.Paths.{Names, watched_elsewhere}
use fs_lib.Event.{Event}
use fs_lib.Strings.{contains}
use fs_lib.Prelude.{Option, true, false, distinct}
use fs_lib.Wire.RoundTrip.{as_read}
use fs_lib.Multicast.Client.{new_client}
use fs_lib.Multicast.Server.{Server}
use fs_lib.Proxy.Sender.{ProxyClient}
use fs_lib.Proxy.Sender.Batch.{arm_writes}
use fs_lib.Jfs.Connection.{received}
use fs_lib.Daemon.Inotify.{fs_event, run}
use fs_lib.Daemon.Inotify.Watched.{handles, take_turn}
use fs_lib.Delivery.{serve, published}
use fs_lib.Delivery.Reaches.{CanTake}
use fs_lib.Delivery.Fsnotify.{in_directory}
use fs_lib.Delivery.Circle.{watched_directory_comes_back}
use fs_lib.Delivery.Request.{request_reaches_daemon}
use fs_lib.Tests.Cluster.{one_object, any_order, one_object-StoresObjects}

abbrev fresh : Jfs.Watcher
fresh = Jfs.new_watcher (codes "ns") (codes "p/c/w")

abbrev path : Bytes
path = codes "/data/x"

abbrev request : Bytes
request = frame msg_watch (path ∷ []) fresh

abbrev added : Jfs.Watcher
added = record (queued request fresh) { watches = path ∷ [] }

fresh-add : Jfs.add path fresh ≡ Chan.done added
unfolding Jfs.add Jfs.send send_to
fresh-add = refl

abbrev content : Bytes
content = (frame-ReadsAs msg_watch (path ∷ []) fresh (omega arith) (omega arith)).0

request_unpacked : unpack_msg request ≡ ok (msg_watch, content)
request_unpacked = (frame-ReadsAs msg_watch (path ∷ []) fresh (omega arith) (omega arith)).1

content_parsed : parse_msg content ≡ (codes "ns/p/c/w", path ∷ [])
unfolding trim take
content_parsed = (frame-ReadsAs msg_watch (path ∷ []) fresh (omega arith) (omega arith)).2

abbrev handled : Handled one_object any_order
handled = process_watcher_message one_object any_order Proxy.new_watcher none request

handled_facts :
    (handled.reply ≡ done)
    × (lookup (codes "/var/n/x") handled.watcher.pod_path_map ≡ some (codes "/data/x"))
    × (handled.watcher.closed ≡ false)
unfolding process_watcher_message dispatch change_watcher map_keys store_paths publish answer
    get_pod_name formating_chan_id split to_lower watcher_name join apply_pod apply_keys apply_key
    has_prefix translate drop volume_map apply_containers equal apply_mounts lookup insert
handled_facts =
    rw (request_unpacked, process_watcher_message)
      (rw (content_parsed, change_watcher)
        (rw (content_parsed, map_keys) (rw (content_parsed, store_paths) (refl, refl, refl))))

request_done : handled.reply ≡ done
request_done = handled_facts.0

request_reaches_daemon_example :
    (added.send_q.queue ≡ fresh.send_q.queue ++ request ∷ [])
    × (obj : FsWatcher) × (m : IpcMessage) × (paths : List Bytes) × (one_object.get_watcher
          handled.world handled.watcher.cr_namespace handled.watcher.cr_name
        ≡ ok obj)
    × (sync_watches {E = Unit} add (some obj) (ok []) ≡ wrote (m ∷ []))
    × Names m msg_watch obj paths
    × ((p : Bytes)
        → member p paths
          ≡ (member p (keys handled.watcher.pod_path_map) && not (watched_elsewhere obj [] p)))
request_reaches_daemon_example =
    request_reaches_daemon one_object any_order id-IsRangeOrder one_object-StoresObjects path fresh
      added Proxy.new_watcher none handled [] (omega arith) fresh-add refl request_done

abbrev pod_id : PodId
pod_id = record { namespace = codes "ns"; podname = codes "p"; containername = codes "c" }

fresh-pod : get_pod_name (formating_chan_id (trim (take 255 (Jfs.full_name fresh)))) ≡ ok pod_id
unfolding trim take get_pod_name formating_chan_id split to_lower
fresh-pod = refl

path-Fits : Fits 255 path
unfolding trim
path-Fits = record { short = omega arith; clean = refl }

abbrev moved : Event
moved = in_directory (codes "/var/n/x") (codes "y") 4

abbrev encode : List Event → Option Bytes
encode es = some (codes "json")

abbrev decode : Bytes → Option (List Event)
decode msg = some (moved ∷ [])

abbrev client : ProxyClient
client = record new_client { cid = codes "1"; helper = some handled.watcher; published = true }

abbrev clients : Server Proxy.Watcher
clients = (codes "1", client) ∷ []

clients-distinct : distinct (keys clients) ≡ true
unfolding distinct member equal
clients-distinct = refl

client-CanTake : CanTake client handled.watcher 1
client-CanTake = record {
  has_watcher = refl;
  is_published = refl;
  is_open = handled_facts.2;
  is_live = refl;
  has_room = omega arith;
}

watched_directory_comes_back_example :
    (added.send_q.queue ≡ fresh.send_q.queue ++ request ∷ [])
    × (obj : FsWatcher) × (all : List Bytes) × (frames : List Bytes) × (one_object.get_watcher
          handled.world handled.watcher.cr_namespace handled.watcher.cr_name
        ≡ ok obj)
    × (take_turn {E = Unit} (handles (λ p. true) true (ok (obj ∷ []))) (some []) ≡ some all)
    × (member (codes "/var/n/x") all ≡ true)
    × (run encode (fs_event (codes "/var/n/x/y") 4 ∷ []) ≡ (none, codes "json" ∷ []))
    × (lookup (codes "1") (serve decode any_order (published (codes "json")) clients)
        ≡ some (record client {
          send_q = client.send_q ++ frames;
          helper = some (arm_writes (moved ∷ []) handled.watcher);
        }))
    × (received frames
        ≡ as_read (record { name = codes "/data/x/y"; op = 4; key = codes "/var/n/x" }) ∷ [])
unfolding lookup equal contains last
watched_directory_comes_back_example =
    watched_directory_comes_back one_object any_order id-IsRangeOrder one_object-StoresObjects
      encode decode (λ p. true) (codes "/data") b'/' (codes "x") b'/' (codes "var/n") (codes "v")
      pod_id fresh added Proxy.new_watcher none handled [] [] [] (codes "y") (codes "json")
      (codes "1") 4 clients client (omega arith) path-Fits fresh-pod refl refl fresh-add refl
      request_done refl refl refl refl refl clients-distinct refl client-CanTake
