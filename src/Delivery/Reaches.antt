-- ===== src/Delivery/Reaches.antt =====
-- The events of a JuiceFS message in a pod.
use fs_lib.Prelude.{
  ℕ, ◌+◌, ◌≤◌, List, [], ◌∷◌, ◌++◌, ◌≡◌, refl, sym, ap, ◌∙◌, map, true, false, Option, none, some,
  inl, inr, ◌==◌, if◌then◌else◌, arith, Bytes, Bool-cases, Option-cases, length, Map, lookup, keys,
  distinct, IsRangeOrder, equal,
}
use fs_lib.Event
use fs_lib.Event.{Event}
use fs_lib.Wire.Message.{msg_event}
use fs_lib.Wire.RoundTrip.{as_read, pack_all, unpack_event-pack_all}
use fs_lib.Multicast.Client.{send_queue_depth}
use fs_lib.Multicast.Server.{Server, has_helper, writes, written, deliver-lookup}
use fs_lib.Producer.{new_subscriber}
use fs_lib.Proxy.Watcher.{Watcher}
use fs_lib.Proxy.Sender.{ProxyClient, translate_event, renamed, watcher_writer}
use fs_lib.Proxy.Sender.Batch.{frame_list, frames_of, arm_writes, delivered, write_msg-delivered}
use fs_lib.Proxy.Sender.Pipeline.{handle_frame-translate_event}
use fs_lib.Daemon.Sync.{read_event}
use fs_lib.Delivery.{serve, published}
use fs_lib.Jfs.Connection.{received, received-append}

-- The event in the pod's names, if its key is mapped.
abbrev pub in_pod_at : Event → Option Bytes → List Event
in_pod_at e none = []
in_pod_at e (some key_in_pod) = renamed e key_in_pod ∷ []

abbrev pub in_pod : Map Bytes → Event → List Event
in_pod m e = in_pod_at e (lookup e.key m)

-- What a pod is to see at once: the mapped events that are no plain WRITE, in their order.
abbrev pub pod_events : Map Bytes → List Event → List Event
pod_events m [] = []
pod_events m (e ∷ es) = (if e.op == Event.write then [] else in_pod m e) ++ pod_events m es

map_append : (xs ys : List Event) → map as_read (xs ++ ys) ≡ map as_read xs ++ map as_read ys
map_append [] ys = refl
map_append (x ∷ xs) ys = ap (λ l. as_read x ∷ l) (map_append xs ys)

pub received-frame :
    (m : Map Bytes) (e : Event)
    → received (frame_list (translate_event m e)) ≡ map as_read (in_pod m e)
unfolding received
received-frame m e = elim (Option-cases (lookup e.key m)) [
  | inl unmapped ↦ unfold translate_event in ground arith
  | inr (k, mapped) ↦
      let (b, translated, read) = handle_frame-translate_event m e k mapped in
      ap (λ o. received (frame_list o)) translated
      ∙ ap (λ l. l ++ []) read
      ∙ ap (λ o. map as_read (in_pod_at e o)) (sym mapped)
]

pub received-frames_of :
    (m : Map Bytes) (es : List Event) → received (frames_of m es) ≡ map as_read (pod_events m es)
unfolding received
received-frames_of m [] = refl
received-frames_of m (e ∷ es) = elim (Bool-cases (e.op == Event.write)) [
  | inl plain ↦ rw plain (received-frames_of m es)
  | inr other ↦ rw other (
      received-append (frame_list (translate_event m e)) (frames_of m es)
      ∙ (λ i. received-frame m e i ++ received-frames_of m es i)
      ∙ sym (map_append (in_pod m e) (pod_events m es)))
]

read_event-published :
    (encode : List Event → Option Bytes) (e : Event) (es : List Event)
    → read_event encode (record { msg_type = msg_event; content = pack_all (e ∷ es) })
      ≡ encode (map as_read (e ∷ es))
unfolding read_event
read_event-published encode e es = rw (unpack_event-pack_all e es, read_event) refl

-- The client that takes part in the fan-out, with room for the batch.
pub record CanTake (c : ProxyClient) (w : Watcher) (n : ℕ) : Type 0 where
  pub has_watcher : c.helper ≡ some w
  pub is_published : c.published ≡ true
  pub is_open : w.closed ≡ false
  pub is_live : c.done ≡ false
  pub has_room : length c.send_q + n ≤ send_queue_depth

module _ (encode : List Event → Option Bytes) (decode : Bytes → Option (List Event))
    (order : List Bytes → List Bytes) (range : IsRangeOrder order) where
  pub serve-lookup :
      (payload j : Bytes) (es : List Event) (s : Server Watcher) (c : ProxyClient) (w : Watcher)
      → decode payload ≡ some es
      → distinct (keys s) ≡ true
      → lookup j s ≡ some c
      → CanTake c w (length es)
      → lookup j (serve decode order (published payload) s) ≡ some (delivered c w es)
  unfolding serve new_subscriber equal has_helper
  serve-lookup payload j es s c w decoded once found v =
      let taken : writes (watcher_writer decode) order (lookup j s) ≡ true =
        rw found (ground (arith, v.has_watcher, v.is_published)) in
      deliver-lookup (watcher_writer decode) order range payload j s once
      ∙ (λ i. written (watcher_writer decode) order payload (taken i) (found i))
      ∙ ap (λ (r : ProxyClient × Option _). some r.0)
          (write_msg-delivered decode payload es w c decoded v.has_watcher v.is_open v.is_live
            v.has_room)

  -- A JuiceFS message with at least one event is published as one payload. If redis carries it and
  -- the JSON decoder reads it back, then each open client in the proxy's table with room in its
  -- queue gets frames behind those queued, which the library in its pod reads as the mapped events
  -- that are no plain WRITE, in their order, under the pod's names, with texts and masks as the
  -- format keeps them; the plain WRITEs are delayed.
  pub event_reaches_pods :
      (e : Event) (es : List Event) (payload j : Bytes) (s : Server Watcher) (c : ProxyClient)
      (w : Watcher)
      → encode (map as_read (e ∷ es)) ≡ some payload
      → decode payload ≡ some (map as_read (e ∷ es))
      → distinct (keys s) ≡ true
      → lookup j s ≡ some c
      → CanTake c w (length (map as_read (e ∷ es)))
      → (frames : List Bytes) × (read_event encode
            (record { msg_type = msg_event; content = pack_all (e ∷ es) })
          ≡ some payload)
        × (lookup j (serve decode order (published payload) s)
            ≡ some (record c {
              send_q = c.send_q ++ frames;
              helper = some (arm_writes (map as_read (e ∷ es)) w);
            }))
        × (received frames ≡ map as_read (pod_events w.pod_path_map (map as_read (e ∷ es))))
  event_reaches_pods e es payload j s c w encoded decoded once found v = (
    frames_of w.pod_path_map (map as_read (e ∷ es)),
    read_event-published encode e es ∙ encoded,
    serve-lookup payload j (map as_read (e ∷ es)) s c w decoded once found v,
    received-frames_of w.pod_path_map (map as_read (e ∷ es)),
  )
