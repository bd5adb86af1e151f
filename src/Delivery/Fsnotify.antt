-- ===== src/Delivery/Fsnotify.antt =====
-- The way of an event from fsnotify to a pod, through the daemon that watches with it
-- (k8s/cmd/fsnotify-daemon/app/v2).
use fs_lib.Prelude.{
  List, [], ◌∷◌, ◌++◌, ◌≡◌, refl, ◌∙◌, map, true, false, Option, none, some, inl, inr, ◌==◌,
  if◌then◌else◌, arith, Bytes, Option-cases, Map, lookup, keys, distinct, IsRangeOrder,
}
use fs_lib.Event
use fs_lib.Event.{Op, Event}
use fs_lib.Strings.{contains}
use fs_lib.Strings.Laws.{replace_first-append}
use fs_lib.Wire.RoundTrip.{as_read}
use fs_lib.Multicast.Server.{Server}
use fs_lib.Proxy.Watcher.{Watcher}
use fs_lib.Proxy.Sender.{ProxyClient}
use fs_lib.Proxy.Sender.Batch.{frames_of, arm_writes}
use fs_lib.Daemon.Inotify.{fs_event, run, event_of-key}
use fs_lib.Jfs.Connection.{received}
use fs_lib.Delivery.{serve, published}
use fs_lib.Delivery.Reaches.{pod_events, CanTake, serve-lookup, received-frames_of}

-- An event of a file in a directory, as the daemon publishes it
abbrev pub in_directory : Bytes → Bytes → Op → Event
in_directory dir file op = record { name = dir ++ b'/' ∷ file; op = op; key = dir }

-- What a pod sees of it at once, by what its path map has for the directory
abbrev pub pod_sees : Option Bytes → Bytes → Bytes → Op → List Event
pod_sees none dir file op = []
pod_sees (some dir_in_pod) dir file op =
    if op == Event.write
    then []
    else as_read (record { name = dir_in_pod ++ b'/' ∷ file; op = op; key = dir }) ∷ []

pod_events-pod_sees :
    (m : Map Bytes) (dir file : Bytes) (op : Op)
    → map as_read (pod_events m (in_directory dir file op ∷ []))
      ≡ pod_sees (lookup dir m) dir file op
pod_events-pod_sees m dir file op = elim (Option-cases (lookup dir m)) [
  | inl unmapped ↦ ground arith
  | inr (k, mapped) ↦ ground (arith, replace_first-append dir k (b'/' ∷ file))
]

run-published :
    (encode : List Event → Option Bytes) (dir file payload : Bytes) (op : Op)
    → contains b'/' file ≡ false
    → encode (in_directory dir file op ∷ []) ≡ some payload
    → run encode (fs_event (dir ++ b'/' ∷ file) op ∷ []) ≡ (none, payload ∷ [])
unfolding run
run-published encode dir file payload op plain encoded =
    rw (event_of-key dir file op plain) (rw encoded refl)

-- An event that fsnotify gives for a file in a directory is published as one payload, with the
-- directory as its key. If redis carries it and the JSON decoder reads it back, then each open
-- client in the proxy's table with room in its queue gets frames behind those queued, which the
-- library in its pod reads as one event, named by the directory in the pod and the file, its texts
-- and mask as the format keeps them (a text cut at 255 bytes and trimmed), if the client's path map
-- has that directory and the event is no plain WRITE. A plain WRITE is delayed; of a directory that
-- the map does not have, the pod sees nothing, even if it watches the file.
pub fsnotify_event_reaches_pods :
    (encode : List Event → Option Bytes) (decode : Bytes → Option (List Event))
    (order : List Bytes → List Bytes) (dir file payload j : Bytes) (op : Op) (s : Server Watcher)
    (c : ProxyClient) (w : Watcher)
    → IsRangeOrder order
    → contains b'/' file ≡ false
    → encode (in_directory dir file op ∷ []) ≡ some payload
    → decode payload ≡ some (in_directory dir file op ∷ [])
    → distinct (keys s) ≡ true
    → lookup j s ≡ some c
    → CanTake c w 1
    → (frames : List Bytes) × (run encode (fs_event (dir ++ b'/' ∷ file) op ∷ [])
        ≡ (none, payload ∷ []))
      × (lookup j (serve decode order (published payload) s)
          ≡ some (record c {
            send_q = c.send_q ++ frames;
            helper = some (arm_writes (in_directory dir file op ∷ []) w);
          }))
      × (received frames ≡ pod_sees (lookup dir w.pod_path_map) dir file op)
fsnotify_event_reaches_pods encode decode order dir file payload j op s c w range plain encoded
      decoded once found v =
    let event = in_directory dir file op in
    (
      frames_of w.pod_path_map (event ∷ []),
      run-published encode dir file payload op plain encoded,
      serve-lookup encode decode order range payload j (event ∷ []) s c w decoded once found v,
      received-frames_of w.pod_path_map (event ∷ [])
          ∙ pod_events-pod_sees w.pod_path_map dir file op,
    )
