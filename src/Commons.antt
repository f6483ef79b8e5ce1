-- ===== src/Commons.antt =====
-- commons/: the counters, the containers behind a lock, the server's address and the thread pools.
-- Every operation of a counter or a container holds its lock from beginning to end, so that it is one
-- step: a function from the value under the lock to a result and the next value. Several threads are a
-- sequence of such steps.
pub mod Counter
pub mod Atomic
pub mod ConcurrentMap
pub mod ConcurrentSet
pub mod HostPort
pub mod ThreadPoolManager
