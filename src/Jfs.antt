-- ===== src/Jfs.antt =====
-- jfsnotify/backend_jfs.go: the client library that a pod watches through. `Chan` has Go's
-- channels, `Config` the environment and the constructors, `Watcher` the operations of a watcher,
-- `Connection` the goroutines of `start`, `Session` these goroutines interleaved,
-- `FsBackend` the watcher over fsnotify.
pub mod Chan
pub mod Config
pub mod Watcher
pub mod Connection
pub mod Session
pub mod Readers
pub mod FsBackend
