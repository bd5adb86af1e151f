-- ===== src/Multicast.antt =====
-- k8s/pkg/multicast: the connections of the proxy and the fan-out to them. `Client` is one
-- connection, `Server` the table of connections, `Accept` the accept loop.
pub mod Client
pub mod Server
pub mod Accept
