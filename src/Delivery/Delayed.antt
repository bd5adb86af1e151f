-- ===== src/Delivery/Delayed.antt =====
-- A delayed write in a pod.
use fs_lib.Prelude.{
  ◌<◌, [], ◌∷◌, ◌++◌, ◌≡◌, ap, ◌∙◌, false, some, arith, Bytes, length, lookup, remove,
}
use fs_lib.Event.{Event}
use fs_lib.Wire.RoundTrip.{as_read}
use fs_lib.Multicast.Client.{send_queue_depth, queued}
use fs_lib.Proxy.Watcher.{DelayedWrite, Watcher}
use fs_lib.Proxy.Debounce.Steps.{flush_due}
use fs_lib.Proxy.Sender.{
  ProxyClient, renamed, translate_event, send_data, send_event, flush_and_send, flush_with,
  flush_sent,
}
use fs_lib.Proxy.Sender.Batch.{send_bytes-room}
use fs_lib.Proxy.Sender.Pipeline.{handle_frame-translate_event}
use fs_lib.Jfs.Connection.{received}

-- The watcher without the delayed write of the name.
abbrev pub without_write : Bytes → Watcher → Watcher
without_write name w = record w { delayed_writes = remove name w.delayed_writes }

send_event-room :
    (w : Watcher) (e : Event) (b : Bytes) (c : ProxyClient)
    → translate_event w.pod_path_map e ≡ some b
    → c.done ≡ false
    → length c.send_q < send_queue_depth
    → send_event w e c ≡ (record c { send_q = c.send_q ++ b ∷ [] }, queued)
unfolding send_event send_data
send_event-room w e b c translated live room =
    ap (λ o. send_data o c) translated ∙ send_bytes-room b c live room

-- When the callback of a delayed write of an open client runs, its generation still that of the
-- write, its key mapped and the client's queue not full, then one frame goes behind those queued,
-- which the library in the pod reads as that one event under the pod's name, its texts and mask
-- as the format keeps them (a text cut at 255 bytes and trimmed), and the delayed write is gone.
pub delayed_write_reaches_pod :
    (c : ProxyClient) (w : Watcher) (name : Bytes) (d : DelayedWrite) (key_in_pod : Bytes)
    → c.helper ≡ some w
    → w.closed ≡ false
    → c.done ≡ false
    → length c.send_q < send_queue_depth
    → lookup name w.delayed_writes ≡ some d
    → lookup d.event.key w.pod_path_map ≡ some key_in_pod
    → (b : Bytes) × (flush_and_send name d.gen c
        ≡ record c { send_q = c.send_q ++ b ∷ []; helper = some (without_write name w) })
      × (received (b ∷ []) ≡ as_read (renamed d.event key_in_pod) ∷ [])
unfolding flush_and_send flush_with received
delayed_write_reaches_pod c w name d key_in_pod helped up live room found mapped =
    let (b, translated, read) =
      handle_frame-translate_event w.pod_path_map d.event key_in_pod mapped in
    let c' : ProxyClient = record c { helper = some (without_write name w) } in
    (
      b,
      ap (λ h. flush_with h name d.gen c) helped
          ∙ ap (λ r. flush_sent r c) (flush_due w name d.gen d found (ground arith))
          ∙ (ap (λ (r : ProxyClient × _). r.0)
              (send_event-room (without_write name w) d.event b c' translated live room)),
      ap (λ l. l ++ []) read,
    )
