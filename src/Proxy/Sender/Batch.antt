-- ===== src/Proxy/Sender/Batch.antt =====
-- What one message of the fan-out puts into the queue of a client.
use mathlib.Core.Path.{ap₂}
use fs_lib.Prelude.{
  ◌+◌, ◌≤◌, ◌<◌, List, [], ◌∷◌, ◌++◌, ◌≡◌, refl, sym, ap, ◌∙◌, inl, inr, true, false, Option, none,
  some, ◌==◌, lt→ltb, Bool-cases, if◌then◌else◌, arith, Bytes, length, length-append, append_assoc,
  append-nil, Map,
}
use fs_lib.Event
use fs_lib.Event.{Event}
use fs_lib.Multicast.Client.{queued, send_queue_depth, send_bytes}
use fs_lib.Proxy.Watcher.{Watcher}
use fs_lib.Proxy.Debounce.{arm_write_debounce, close_watcher}
use fs_lib.Proxy.Sender.{
  ProxyClient, translate_event, send_data, send_event, write_event, stop_or_go, write_events,
  write_msg, write_with, write_decoded,
}

-- The frames that go out at once: those of the mapped events that are no plain WRITE, in order.
abbrev pub frame_list : Option Bytes → List Bytes
frame_list none = []
frame_list (some b) = b ∷ []

abbrev pub frames_of : Map Bytes → List Event → List Bytes
frames_of m [] = []
frames_of m (e ∷ es) =
    (if e.op == Event.write then [] else frame_list (translate_event m e)) ++ frames_of m es

-- The watcher after the batch: its plain WRITEs are armed, in order.
abbrev pub arm_writes : List Event → Watcher → Watcher
arm_writes [] w = w
arm_writes (e ∷ es) w = arm_writes es (if e.op == Event.write then arm_write_debounce e w else w)

arm-pod_path_map :
    (e : Event) (w : Watcher) → (arm_write_debounce e w).pod_path_map ≡ w.pod_path_map
unfolding arm_write_debounce
arm-pod_path_map e w = ground arith

pub send_bytes-room :
    (b : Bytes) (c : ProxyClient)
    → c.done ≡ false
    → length c.send_q < send_queue_depth
    → send_bytes close_watcher b c ≡ (record c { send_q = c.send_q ++ b ∷ [] }, queued)
unfolding send_bytes
send_bytes-room b c up room = ground (arith, lt→ltb (length c.send_q) send_queue_depth room)

abbrev pub delivered : ProxyClient → Watcher → List Event → ProxyClient
delivered c w es = record c {
  send_q = c.send_q ++ frames_of w.pod_path_map es;
  helper = some (arm_writes es w);
}

-- What one event adds to the queue and does to the watcher.
abbrev frames_at : Map Bytes → Event → List Bytes
frames_at m e = if e.op == Event.write then [] else frame_list (translate_event m e)

abbrev arm_at : Event → Watcher → Watcher
arm_at e w = if e.op == Event.write then arm_write_debounce e w else w

abbrev moved : Event → Watcher → ProxyClient → ProxyClient
moved e w c = record c {
  send_q = c.send_q ++ frames_at w.pod_path_map e;
  helper = some (arm_at e w);
}

same_client :
    (c : ProxyClient) (w : Watcher)
    → c.helper ≡ some w
    → ◌≡◌ {A = ProxyClient} c (record c { send_q = c.send_q ++ []; helper = some w })
same_client c w h = λ i. record c { send_q = sym (append-nil c.send_q) i; helper = h i }

with_helper :
    (c : ProxyClient) (w : Watcher) (q : List Bytes)
    → c.helper ≡ some w
    → ◌≡◌ {A = ProxyClient} (record c { send_q = q }) (record c { send_q = q; helper = some w })
with_helper c w q h = λ i. record c { send_q = q; helper = h i }

send_data-room :
    (o : Option Bytes) (w : Watcher) (c : ProxyClient)
    → c.helper ≡ some w
    → c.done ≡ false
    → length c.send_q < send_queue_depth
    → send_data o c ≡ (record c { send_q = c.send_q ++ frame_list o; helper = some w }, queued)
unfolding send_data
send_data-room none w c h up room = ap (λ (x : ProxyClient). (x, queued)) (same_client c w h)
send_data-room (some b) w c h up room =
    send_bytes-room b c up room
    ∙ ap (λ (x : ProxyClient). (x, queued)) (with_helper c w (c.send_q ++ b ∷ []) h)

write_event-room :
    (e : Event) (w : Watcher) (c : ProxyClient)
    → c.helper ≡ some w
    → c.done ≡ false
    → length c.send_q < send_queue_depth
    → write_event e (some w) c ≡ (moved e w c, queued)
unfolding write_event send_event
write_event-room e w c h up room = elim (Bool-cases (e.op == Event.write)) [
  | inl plain ↦ rw plain (λ i. (
    record c { send_q = sym (append-nil c.send_q) i; helper = some (arm_write_debounce e w) },
    queued,
  ))
  | inr other ↦ rw other (send_data-room (translate_event w.pod_path_map e) w c h up room)
]

length-frames_at : (m : Map Bytes) (e : Event) → length (frames_at m e) ≤ 1
length-frames_at m e = ground arith

arm_at-pod_path_map : (e : Event) (w : Watcher) → (arm_at e w).pod_path_map ≡ w.pod_path_map
arm_at-pod_path_map e w = ground (arith, arm-pod_path_map e w)

write_events-room :
    (es : List Event) (w : Watcher) (c : ProxyClient)
    → c.helper ≡ some w
    → c.done ≡ false
    → length c.send_q + length es ≤ send_queue_depth
    → write_events es c ≡ (delivered c w es, queued)
unfolding write_events stop_or_go
write_events-room [] w c h up room = ap (λ (x : ProxyClient). (x, queued)) (same_client c w h)
write_events-room (e ∷ es) w c h up room =
    ap (λ o. stop_or_go (write_events es) (write_event e o c)) h
    ∙ ap (stop_or_go (write_events es)) (write_event-room e w c h up (omega arith))
    ∙ write_events-room es (arm_at e w) (moved e w c) refl up (
        omega (
          arith,
          length-append c.send_q (frames_at w.pod_path_map e),
          length-frames_at w.pod_path_map e,
        ))
    ∙ (λ i. (
      record c {
        send_q =
            (append_assoc c.send_q (frames_at w.pod_path_map e)
                (frames_of (arm_at-pod_path_map e w i) es))
              i;
        helper = some (arm_writes es (arm_at e w));
      },
      queued,
    ))

-- On an open client with room for the batch, a decoded message queues the frames of its mapped
-- events that are no plain WRITE, in their order, arms its plain WRITEs, and reports no error.
pub write_msg-delivered :
    (decode : Bytes → Option (List Event)) (msg : Bytes) (es : List Event) (w : Watcher)
    (c : ProxyClient)
    → decode msg ≡ some es
    → c.helper ≡ some w
    → w.closed ≡ false
    → c.done ≡ false
    → length c.send_q + length es ≤ send_queue_depth
    → write_msg decode msg c ≡ (delivered c w es, none)
unfolding write_msg write_with write_decoded
write_msg-delivered decode msg es w c decoded h up live room =
    ap₂ (λ o d. write_with o d c) h decoded ∙ ground (arith, write_events-room es w c h live room)

-- On a closed watcher a message changes nothing, whatever it holds.
pub write_msg-closed :
    (decode : Bytes → Option (List Event)) (msg : Bytes) (w : Watcher) (c : ProxyClient)
    → c.helper ≡ some w
    → w.closed ≡ true
    → write_msg decode msg c ≡ (c, none)
unfolding write_msg write_with
write_msg-closed decode msg w c h down = ap (λ o. write_with o (decode msg) c) h ∙ ground arith
