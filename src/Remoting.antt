-- ===== src/Remoting.antt =====
-- remoting/: the client over the packet session, with its waiting requests and its listeners.
pub mod ListenerManager
pub mod ResponseFuture
pub mod Heartbeat
pub mod Client
pub mod Calls
pub mod Connect
pub mod Machine
pub mod KiteIoClient
