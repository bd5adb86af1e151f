-- ===== src/Proxy.antt =====
-- fsnotify-proxy: k8s/cmd/fsnotify-proxy/app. `Channel` reads messages and channel ids, `Paths`
-- maps pod paths to node paths, `Watcher` is the state behind a client, `Debounce` its delayed
-- writes, `Sender` what it does with the daemon's events, and `App` handles the client's messages.
pub mod Channel
pub mod Paths
pub mod Watcher
pub mod Debounce
pub mod Sender
pub mod App
