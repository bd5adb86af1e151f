-- ===== src/Delivery.antt =====
-- The way of an event from JuiceFS to a pod: readEvent of the daemon, the redis channel, the
-- proxy's subscription and fan-out, and the client library in the pod. `Request` is the other way.
pub mod Reaches
pub mod Fsnotify
pub mod Circle
pub mod Mapped
pub mod Delayed
pub mod Request
use fs_lib.Prelude.{List, [], ◌∷◌, ◌++◌, Option, Bytes}
use fs_lib.Event.{Event}
use fs_lib.Multicast.Server.{Server, deliver}
use fs_lib.Producer.{channel_name, SubSignal, message, new_subscriber}
use fs_lib.Proxy.Watcher.{Watcher}
use fs_lib.Proxy.Sender.{watcher_writer}
use fs_lib.Jfs.Connection.{handle_frame}

-- New of k8s/pkg/multicast/server.go: the subscription calls Deliver.
unfoldable pub serve :
    (Bytes → Option (List Event))
    → (List Bytes → List Bytes)
    → List SubSignal
    → Server Watcher
    → Server Watcher
serve decode order signals s = new_subscriber (deliver (watcher_writer decode) order) signals s

-- a.producer.Pub(producer.ChannelName, ...), as the subscription gets it
abbrev pub published : Bytes → List SubSignal
published payload = message channel_name payload ∷ []
