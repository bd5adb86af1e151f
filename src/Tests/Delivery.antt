-- ===== src/Tests/Delivery.antt =====
-- Events on their way to a pod, and what the peer of a client gets.
use fs_lib.Prelude.{
  ◌≤◌, List, [], ◌∷◌, ◌++◌, ◌≡◌, refl, true, false, Option, none, some, arith, Bytes, codes, length,
  lookup, keys, distinct, id-IsRangeOrder, map, equal, member,
}
use fs_lib.Event.{Event}
use fs_lib.Strings.{contains}
use fs_lib.Wire.Message.{msg_event}
use fs_lib.Wire.RoundTrip.{as_read, pack_all}
use fs_lib.Multicast.Client.{new_client, send_queue_depth}
use fs_lib.Multicast.Client.Line.{Line, new_line, Reach, here, next, checks, queues, takes, writes}
use fs_lib.Multicast.Client.Delivery.{Prefix, peer_gets_prefix}
use fs_lib.Multicast.Server.{Server}
use fs_lib.Proxy.Watcher.{DelayedWrite, Watcher, new_watcher}
use fs_lib.Proxy.Debounce.{close_watcher}
use fs_lib.Proxy.Sender.{ProxyClient, renamed, flush_and_send}
use fs_lib.Proxy.Sender.Batch.{arm_writes}
use fs_lib.Daemon.Sync.{read_event}
use fs_lib.Delivery.{serve, published}
use fs_lib.Jfs.Connection.{received}
use fs_lib.Delivery.Fsnotify.{in_directory, fsnotify_event_reaches_pods}
use fs_lib.Daemon.Inotify.{run, fs_event}
use fs_lib.Delivery.Reaches.{CanTake, pod_events, event_reaches_pods}
use fs_lib.Delivery.Delayed.{without_write, delayed_write_reaches_pod}

abbrev created : Event
created = record { name = codes "/var/n/x"; op = 1; key = codes "/var/n" }

abbrev written : Event
written = record { name = codes "/var/n/y"; op = 2; key = codes "/var/n" }

abbrev batch : List Event
batch = map as_read (created ∷ written ∷ [])

abbrev encode : List Event → Option Bytes
encode es = some (codes "json")

abbrev decode : Bytes → Option (List Event)
decode msg = some batch

abbrev pod_watcher : Watcher
pod_watcher = record new_watcher { pod_path_map = (codes "/var/n", codes "/data") ∷ [] }

abbrev pod : ProxyClient
pod = record new_client { cid = codes "1"; helper = some pod_watcher; published = true }

abbrev table : Server Watcher
table = (codes "1", pod) ∷ []

table-distinct : distinct (keys table) ≡ true
unfolding distinct member equal
table-distinct = refl

pod-CanTake : CanTake pod pod_watcher (length batch)
pod-CanTake = record {
  has_watcher = refl;
  is_published = refl;
  is_open = refl;
  is_live = refl;
  has_room = omega arith;
}

event_reaches_pods_example :
    (frames : List Bytes) × (read_event encode
        (record { msg_type = msg_event; content = pack_all (created ∷ written ∷ []) })
      ≡ some (codes "json"))
    × (lookup (codes "1") (serve decode (λ cids. cids) (published (codes "json")) table)
        ≡ some (record pod {
          send_q = pod.send_q ++ frames;
          helper = some (arm_writes batch pod_watcher);
        }))
    × (received frames ≡ map as_read (pod_events pod_watcher.pod_path_map batch))
unfolding lookup equal
event_reaches_pods_example =
    event_reaches_pods encode decode (λ cids. cids) id-IsRangeOrder created (written ∷ [])
      (codes "json") (codes "1") table pod pod_watcher refl refl table-distinct refl pod-CanTake

abbrev delayed : DelayedWrite
delayed = record { event = written; gen = 7 }

abbrev waiting_watcher : Watcher
waiting_watcher = record pod_watcher { delayed_writes = (written.name, delayed) ∷ [] }

abbrev waiting : ProxyClient
waiting = record pod { helper = some waiting_watcher }

delayed_write_reaches_pod_example :
    (b : Bytes) × (flush_and_send written.name 7 waiting ≡ record waiting {
      send_q = waiting.send_q ++ b ∷ [];
      helper = some (without_write written.name waiting_watcher);
    })
    × (received (b ∷ []) ≡ as_read (renamed written (codes "/data")) ∷ [])
unfolding lookup equal
delayed_write_reaches_pod_example =
    delayed_write_reaches_pod waiting waiting_watcher written.name delayed (codes "/data") refl refl
      refl (omega arith) refl refl

abbrev frame_a : Bytes
frame_a = codes "a"

abbrev frame_b : Bytes
frame_b = codes "b"

-- Two frames are accepted, one of them is written.
abbrev half_way : Line Watcher
half_way = record {
  client = record pod { send_q = frame_b ∷ []; wire = frame_a ∷ [] };
  checked = 0;
  hand = none;
  running = true;
  sent = frame_a ∷ frame_b ∷ [];
}

half_way-Reach : Reach close_watcher (new_line pod) half_way
half_way-Reach =
    next
      (next
        (next
          (next (next (next here (checks refl)) (queues frame_a 0 refl (omega arith)))
            (checks refl))
          (queues frame_b 0 refl (omega arith)))
        (takes frame_a (frame_b ∷ []) refl refl refl))
      (writes frame_a refl refl)

peer_gets_prefix_example :
    Prefix half_way.client.wire half_way.sent
    × (half_way.running ≡ true
        → half_way.hand ≡ none
        → half_way.client.send_q ≡ []
        → half_way.sent ≡ half_way.client.wire)
    × (length half_way.client.send_q ≤ send_queue_depth)
    × (half_way.client.done ≡ true → half_way.client.conn_open ≡ false)
peer_gets_prefix_example = peer_gets_prefix close_watcher pod half_way refl refl refl half_way-Reach

abbrev moved : Event
moved = in_directory (codes "/var/n") (codes "x") 4

abbrev decode_moved : Bytes → Option (List Event)
decode_moved msg = some (moved ∷ [])

pod-CanTake_one : CanTake pod pod_watcher 1
pod-CanTake_one = record {
  has_watcher = refl;
  is_published = refl;
  is_open = refl;
  is_live = refl;
  has_room = omega arith;
}

fsnotify_event_reaches_pods_example :
    (frames : List Bytes) × (run encode (fs_event (codes "/var/n/x") 4 ∷ [])
      ≡ (none, codes "json" ∷ []))
    × (lookup (codes "1") (serve decode_moved (λ cids. cids) (published (codes "json")) table)
        ≡ some (record pod {
          send_q = pod.send_q ++ frames;
          helper = some (arm_writes (moved ∷ []) pod_watcher);
        }))
    × (received frames
        ≡ as_read (record { name = codes "/data/x"; op = 4; key = codes "/var/n" }) ∷ [])
unfolding lookup equal contains
fsnotify_event_reaches_pods_example =
    fsnotify_event_reaches_pods encode decode_moved (λ cids. cids) (codes "/var/n") (codes "x")
      (codes "json") (codes "1") 4 table pod pod_watcher id-IsRangeOrder refl refl refl
      table-distinct refl pod-CanTake_one
