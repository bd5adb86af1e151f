-- ===== src/Tests.antt =====
-- Runs on concrete inputs, and each theorem at an input that meets its hypotheses.
mod Wire
mod Jfs
mod Debounce
mod Fanout
mod Proxy
mod Cluster
mod Request
mod Daemon
mod Session
mod Readers
mod Delivery
mod Link
mod Informers
