-- ===== src/Daemon.antt =====
-- fsnotify-daemon: k8s/cmd/fsnotify-daemon/app and its v2, on each node. `Controller` is the
-- controller of the watcher objects that both are driven by, `Sync` the app over JuiceFS's IPC,
-- `Link` its IPC client (k8s/pkg/ipc), `Inotify` the app over fsnotify, `Program` the main function.
pub mod Controller
pub mod Sync
pub mod Link
pub mod Inotify
pub mod Program
