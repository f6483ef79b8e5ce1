-- ===== src/Remoting/Machine.antt =====
-- remoting/asioKiteIOClient.cpp: the client as a state machine. A step is what one thread does to the
-- client between two points at which another thread may come in: a handler of the io service's
-- thread or a part of one, or a part of a method of any other thread. The futures, the listeners and
-- the statistics are static, so they change by what other clients do, too.
pub mod Sound
pub mod Invariant
pub mod Kept
pub mod Runs
use kiteq_client_cpp.Base.{ℕ, suc, ◌≡◌, ◌≢◌, Bool, true, List, ◌∷◌, Option, none, some}
use kiteq_client_cpp.ByteBuf.{Platform}
use kiteq_client_cpp.Protocol.{Codec}
use kiteq_client_cpp.KitePacket.{Header, KitePacket, done}
use kiteq_client_cpp.Session.{ErrorCode}
use kiteq_client_cpp.Commons.Counter.{compare_and_set, set_count, record_read, record_write}
use kiteq_client_cpp.Commons.HostPort.{HostPort}
use kiteq_client_cpp.Remoting.ResponseFuture.{KiteResponse, has_value, give_up, Step, step}
use kiteq_client_cpp.Remoting.ListenerManager.{register_listener}
use kiteq_client_cpp.Remoting.Heartbeat.{set_parent, start_thread, reset}
use kiteq_client_cpp.Remoting.Client.{
  Client, Callback, none_state, prepare, running, reconnecting, handle_resolve, handle_connect,
  handle_write_request, handle_read_pkg, register, async_resolve, close,
}
use kiteq_client_cpp.Remoting.Calls.{finish, accept, heard, send, ask}

module _ {M : Type 0} (pf : Platform) (codec : Codec M) (default_listener : ℕ) where
  -- The order within a method is a condition of its later parts: an attempt and the heartbeat's thread
  -- come after the status has left `none_state` and the heartbeat has its client. What a method has
  -- read before is an argument of its parts. That the service has not been stopped is no condition of a
  -- handler: `io_service::stop` does not wait for one that has begun.
  pub data Move : Client M → Client M → Type 0 where
    -- The handlers: the resolver's and the connection's answers, a write's end, a packet.
    resolves :
        {c : Client M} (e : ErrorCode) (hp : HostPort) (rest : List HostPort)
        → c.io.resolving ≡ hp ∷ rest
        → Move c (handle_resolve e (record c { io = record c.io { resolving = rest } }))
    connects :
        {c : Client M} (e : ErrorCode) (n : ℕ)
        → c.io.connecting ≡ suc n
        → Move c (handle_connect e (record c { io = record c.io { connecting = n } }))
    writes : {c : Client M} (e : ErrorCode) → Move c (handle_write_request e c)
    receives :
        {c c' : Client M} (e : ErrorCode) (p : KitePacket M) (called : List (Callback M))
        → handle_read_pkg default_listener e (record c { session = record c.session { pkg = p } })
          ≡ done (c', called)
        → Move c c'
    -- The handler of a packet in its parts, with `recovers` for the heartbeat's reset; and what other
    -- clients do to the static state.
    reads_packet :
        {c : Client M} (p : KitePacket M)
        → Move c (record c { session = record c.session { pkg = p } })
    counts_read : {c : Client M} → Move c (record c { stats = record_read c.stats })
    counts_write : {c : Client M} → Move c (record c { stats = record_write c.stats })
    steps : {c : Client M} (e : Step (Option M)) → Move c (record c { futures = step e c.futures })
    listens :
        {c : Client M} (key : List ℕ) (l : ℕ)
        → Move c (record c { listeners = register_listener key l c.listeners })
    -- The methods.
    registers : {c c' : Client M} (l : ℕ) → register l c ≡ done c' → Move c c'
    sends : {c c' : Client M} (h : Header) (m : M) → send pf codec h m c ≡ done c' → Move c c'
    asks :
        {c c' : Client M} (h : Header) (m : M) (p : ℕ)
        → ask pf codec h m c ≡ done (p, c')
        → Move c c'
    waits :
        {c : Client M} (p now : ℕ) (resp : KiteResponse (Option M))
        → has_value p c.futures ≡ some resp
        → Move c ((finish (some resp) c now).1)
    gives_up : {c : Client M} (p : ℕ) → Move c (record c { futures = give_up p c.futures })
    accepts :
        {c : Client M} (status_of : M → Bool) (response : Option M)
        → Move c ((accept status_of response c).1)
    hears :
        {c : Client M} (version_of : M → ℕ) (now : ℕ) (response : Option M)
        → Move c (heard version_of now response c)
    prepares :
        {c : Client M}
        → Move c (record c { status = (compare_and_set none_state prepare c.status).1 })
    adopts : {c : Client M} → Move c (record c { heartbeat = set_parent c.heartbeat })
    attempts : {c c' : Client M} → c.status ≢ none_state → async_resolve c ≡ done c' → Move c c'
    beats :
        {c : Client M}
        → c.heartbeat.has_parent ≡ true
        → Move c (record c { heartbeat = start_thread c.heartbeat })
    loses :
        {c : Client M}
        → Move c (record c { status = (compare_and_set running reconnecting c.status).1 })
    recovers : {c : Client M} → Move c (record c { heartbeat = reset c.heartbeat })
    runs : {c : Client M} → Move c (record c { status = set_count running c.status })
    closes : {c : Client M} → Move c (close c)

  pub data Reach : Client M → Client M → Type 0 where
    here : {c : Client M} → Reach c c
    later : {c d e : Client M} → Move c d → Reach d e → Reach c e

  pub Reach-trans : {c d e : Client M} → Reach c d → Reach d e → Reach c e
  Reach-trans here r = r
  Reach-trans (later s t) r = later s (Reach-trans t r)
