-- ===== src/Lib.antt =====
-- fs-lib: file system notifications for pods. A program in a pod watches paths through the client
-- library (jfsnotify), which is connected to a proxy (k8s/cmd/fsnotify-proxy). The proxy keeps,
-- for each client, a map from node paths to pod paths, and mirrors its node paths in an FSWatcher
-- object of the cluster. A daemon on each node (k8s/cmd/fsnotify-daemon) follows these objects
-- through a controller (k8s/pkg/fswatchers), tells JuiceFS (app) or, as its main function has it,
-- fsnotify (app/v2) what to watch, and publishes the events that it reads. The proxy's server
-- (k8s/pkg/multicast) fans them out to its clients, each of which translates the names for its
-- pod, holds back plain writes for a second, and sends a frame.
--
-- Files, and the code that they model:
--   Prelude          lists, texts, maps, results and Boolean tests that all files share
--   Strings          what the code uses of Go's package strings, as documented
--   Event            jfsnotify/fsnotify.go: Event, Op and its text (Text), the options
--   Wire             jfsnotify/utils.go: fields (Codec), PackageMsg and UnpackMsg (Message),
--                    PackEvent and UnpackEvent (Frames, RoundTrip), parseDialTarget (Dial)
--   Ipc              jfsnotify/ipc.go: Read with its cache and Write, NewIpcConn (Connect); Stream
--                    is what Read promises
--   Jfs              jfsnotify/backend_jfs.go: channels (Chan), the environment and NewWatcher
--                    (Config), Add, Remove, Close and clear (Watcher), the goroutines of start
--                    (Connection), these goroutines interleaved on one connection (Session) and
--                    over all of them (Readers), and newFSWatcher (FsBackend)
--   Multicast        k8s/pkg/multicast: Client with its queue and its goroutines interleaved
--                    (Client/Line), Server with Deliver, and the accept loop (Accept)
--   Producer         k8s/pkg/producer and subscriber.go of k8s/pkg/multicast
--   Proxy            k8s/cmd/fsnotify-proxy/app: parseMsg and the names of a channel id (Channel),
--                    the map of paths (Paths), the debounce (Debounce), WriteMsg (Sender),
--                    processWatcherMessage (App)
--   Daemon           k8s/cmd/fsnotify-daemon/app (Sync) and app/v2 (Inotify, with what fsnotify
--                    watches in Inotify/Watched), the controller, the IPC client of
--                    k8s/pkg/ipc/client.go (Link), and the main function (Program)
--   Signals          k8s/pkg/signals/signal.go
--   Informers        k8s/pkg/generated/informers/externalversions/factory.go: how often the
--                    informers run (Once), and what waits for them (Synced)
--   Delivery         the way of an event from JuiceFS (Reaches) or fsnotify (Fsnotify) through the
--                    daemon and the proxy to a pod, that of a watched path in the other direction
--                    (Request), and both together (Circle)
--   Api              k8s/pkg/apis/sys/v1alpha1/types.go, and the calls of the cluster's API
--   Tests            runs of the theorems and of the definitions at concrete values
--
-- State is a record that operations take and return. A Go channel is a queue with a flag, and a
-- send or a close that blocks or panics is an outcome. Texts are lists of the codes of their bytes,
-- a map is an association list, and the order in which Go's range visits it is a parameter. Timers
-- are entries of a list: their time comes, and their callback runs, in two steps, so that a
-- schedule can put any other operation between them. The API server, the JSON codec, url.Parse,
-- the answers of sockets, of fsnotify and of the listers are parameters.
--
-- Bounds: a client's queue holds 255 frames, the client library's queue 255 and its two signal
-- channels 10, generations are 64 bits wide and counters of the wire 32 bits, as in the code. The
-- recursion of parseMsg is on fuel, which is the length of the message: each round takes at least
-- one byte. That of the handshake is on fuel too: 21 rounds are enough, since each takes 100 ms at
-- least of its two seconds. The wait of NewIpcConn has no bound: its model is out of fuel where the
-- code still waits.
--
-- Goroutines are step relations: Jfs/Session has one step for each call and task and for each
-- frame that is taken or written, Jfs/Readers one for each dial, read, send on Events or Errors,
-- write and call, Multicast/Client/Line one for each select, write and shutdown, in any order, and
-- Daemon/Link one for each turn of its loop. In Jfs/Session an Add is two steps, since it sends
-- before it takes its lock; in Jfs/Readers it is one; Session/LostAdd has its two parts around a
-- new connection. Proxy/Debounce/Sends has the lock section of a callback and its send as two
-- steps. Daemon/Sync/Course handles each change of the objects before the next one;
-- Daemon/Sync/Lag puts a queue between them, and has the CLEAR, the list and the WATCH of
-- addWatchers as steps beside the handler.
--
-- Not modelled: logs and times, goframe and the sockets, golang-ipc, the redis client, fsnotify,
-- the rest of the generated code (the typed clients, the listers and the deep copies, which pass
-- calls on or copy values), the main functions of the proxy and the example, and the client in
-- Rust (rust-jfs), which is a second implementation of the library in another language.
pub mod Prelude
pub mod Strings
pub mod Event
pub mod Wire
pub mod Api
pub mod Ipc
pub mod Jfs
pub mod Multicast
pub mod Proxy
pub mod Producer
pub mod Daemon
pub mod Signals
pub mod Informers
pub mod Delivery
mod Tests
