-- ===== src/Proxy/Sender.antt =====
-- WriteMsg of k8s/cmd/fsnotify-proxy/app/helper.go, translateEventNameInCluster and the send of a
-- flushed write, on the client whose helper the watcher is; InitClient of app.go. The JSON decoder
-- is the parameter `decode`, with `none` for an error.
pub mod Batch
pub mod Pipeline
use fs_lib.Prelude.{ℕ, List, [], ◌∷◌, Option, none, some, ◌==◌, if◌then◌else◌, Bytes, Map, lookup}
use fs_lib.Event
use fs_lib.Event.{Event}
use fs_lib.Strings.{replace_first}
use fs_lib.Wire.Message.{package_msg, msg_event}
use fs_lib.Wire.Frames.{pack_event}
use fs_lib.Multicast.Client.{Client, SendResult, queued, client_closed, slow_consumer, send_bytes}
use fs_lib.Multicast.Server.{MsgWriter}
use fs_lib.Proxy.Watcher.{Watcher, new_watcher}
use fs_lib.Proxy.Debounce.{arm_write_debounce, flush_write_debounce, close_watcher}

abbrev pub ProxyClient : Type 0
ProxyClient = Client Watcher

-- translateEventNameInCluster behind the lookup: the event's name in the pod
abbrev pub renamed : Event → Bytes → Event
renamed event key_in_pod = record event { name = replace_first event.name event.key key_in_pod }

-- translateEventNameInCluster, with `none` for the nil data of a key that is not mapped
unfoldable pub translate_event : Map Bytes → Event → Option Bytes
translate_event pod_path_map event = elim (lookup event.key pod_path_map) [
  | none ↦ none
  | some key_in_pod ↦ some (package_msg msg_event (pack_event (renamed event key_in_pod)))
]

-- sendEvent behind the translation; an event that is not mapped is skipped without an error.
unfoldable pub send_data : Option Bytes → ProxyClient → ProxyClient × SendResult
send_data none c = (c, queued)
send_data (some frame) c = send_bytes close_watcher frame c

-- sendEvent
unfoldable pub send_event : Watcher → Event → ProxyClient → ProxyClient × SendResult
unfolding send_data
send_event w event c = send_data (translate_event w.pod_path_map event) c

-- w.armWriteDebounce on the client's helper
abbrev pub arm_helper : Event → Watcher → ProxyClient → ProxyClient
arm_helper event w c = record c { helper = some (arm_write_debounce event w) }

-- One round of the loop over the events.
unfoldable pub write_event : Event → Option Watcher → ProxyClient → ProxyClient × SendResult
write_event event none c = (c, queued)
write_event event (some w) c =
    if event.op == Event.write then (arm_helper event w c, queued) else send_event w event c

stop_or_go :
    (ProxyClient → ProxyClient × SendResult) → ProxyClient × SendResult → ProxyClient × SendResult
stop_or_go rest (c, queued) = rest c
stop_or_go rest (c, client_closed) = (c, client_closed)
stop_or_go rest (c, slow_consumer) = (c, slow_consumer)

-- The loop over the events: the first error of a send ends it.
unfoldable pub write_events : List Event → ProxyClient → ProxyClient × SendResult
unfolding write_event stop_or_go
write_events [] c = (c, queued)
write_events (e ∷ es) c = stop_or_go (write_events es) (write_event e c.helper c)

pub data WriteError : Type 0 where
  bad_json : WriteError
  send_failed : SendResult → WriteError

abbrev pub result_of : ProxyClient × SendResult → ProxyClient × Option WriteError
result_of (c, queued) = (c, none)
result_of (c, client_closed) = (c, some (send_failed client_closed))
result_of (c, slow_consumer) = (c, some (send_failed slow_consumer))

write_decoded : Option (List Event) → ProxyClient → ProxyClient × Option WriteError
write_decoded none c = (c, some bad_json)
write_decoded (some events) c = result_of (write_events events c)

write_with : Option Watcher → Option (List Event) → ProxyClient → ProxyClient × Option WriteError
unfolding write_decoded
write_with none decoded c = (c, none)
write_with (some w) decoded c = if w.closed then (c, none) else write_decoded decoded c

-- WriteMsg
unfoldable pub write_msg :
    (Bytes → Option (List Event)) → Bytes → ProxyClient → ProxyClient × Option WriteError
unfolding write_with write_events
write_msg decode msg c = write_with c.helper (decode msg) c

-- The watcher that the flush leaves, and the send of the event that was due.
unfoldable pub flush_sent : Watcher × Option Event → ProxyClient → ProxyClient
flush_sent (w, none) c = record c { helper = some w }
flush_sent (w, some event) c = (send_event w event (record c { helper = some w })).0

unfoldable pub flush_with : Option Watcher → Bytes → ℕ → ProxyClient → ProxyClient
unfolding flush_sent
flush_with none name gen c = c
flush_with (some w) name gen c = flush_sent (flush_write_debounce name gen w) c

-- flushWriteDebounce with its send; an error of the send is logged.
unfoldable pub flush_and_send : Bytes → ℕ → ProxyClient → ProxyClient
unfolding flush_with
flush_and_send name gen c = flush_with c.helper name gen c

-- The watcher as the MsgWriter that the server fans out to.
abbrev pub watcher_writer : (Bytes → Option (List Event)) → MsgWriter Watcher
watcher_writer decode = record {
  write_msg = λ msg c. (write_msg decode msg c).0;
  close = close_watcher;
}

-- InitClient of newApp: a new watcher whose Remove deletes the object that it names then
abbrev pub init_client : ProxyClient → ProxyClient
init_client c = record c { helper = some new_watcher }
