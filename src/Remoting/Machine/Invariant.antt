-- ===== src/Remoting/Machine/Invariant.antt =====
-- remoting/asioKiteIOClient.cpp: what holds of a client between any two steps of its threads.
use kiteq_client_cpp.Base.{
  ℕ, ◌≡◌, refl, ◌≢◌, sym, ap, subst, ◌∙◌, inl, inr, List, [], Option, none, some, arith, Bool-cases,
  ◌==◌,
}
use kiteq_client_cpp.ByteBuf.{Platform}
use kiteq_client_cpp.Protocol.{Codec}
use kiteq_client_cpp.KitePacket.{KitePacket, Header, done, or_fault, new_packet}
use kiteq_client_cpp.Session.{ErrorCode, success, failure, Session, async_write}
use kiteq_client_cpp.Commons.Counter.{
  KiteStats, compare_and_set, set_count, record_read, record_write,
}
use kiteq_client_cpp.Commons.HostPort.{Splitter, HostPort, server_address}
use kiteq_client_cpp.Remoting.ResponseFuture.{request, step, no_futures}
use kiteq_client_cpp.Remoting.ResponseFuture.Invariant.{give_up-Inv, receive_response-Inv, step-Inv}
use kiteq_client_cpp.Remoting.Heartbeat.{reset}
use kiteq_client_cpp.Remoting.ListenerManager.{register_listener}
use kiteq_client_cpp.Remoting.Client.{
  Client, Callback, none_state, prepare, running, reconnecting, recovering, new_client,
  handle_resolve, handle_connect, handle_write_request, handle_read_pkg, handle_response, register,
  async_resolve, close, is_response,
}
use kiteq_client_cpp.KitePacket.Outcomes.{>>=-done, done-injective, known-done}
use kiteq_client_cpp.Remoting.Client.Dispatch.{handle_read_pkg_lem}
use kiteq_client_cpp.Remoting.Calls.{finish, accept, heard, send, ask}
use kiteq_client_cpp.Remoting.Machine.Sound.{
  IsSound, answered-IsOwned, set_next-IsOwned, set_parent-IsOwned, start_thread-IsOwned,
  stop_threads-IsOwned, cons-not-nil, with_futures, with_heartbeat, with_status, with_io, with_rest,
  of_done, new_client-IsSound,
}
use kiteq_client_cpp.Remoting.Machine.{
  Move, resolves, connects, writes, receives, reads_packet, counts_read, counts_write, steps,
  listens, registers, sends, asks, waits, gives_up, accepts, hears, prepares, adopts, attempts,
  beats, loses, recovers, runs, closes, Reach, here, later,
}

module _ {M : Type 0} where
  -- `receive_response` on the whole client.
  handle_response-IsSound :
      (a : Option HostPort) (hd : Header) (m : Option M) (c c' : Client M)
      (called : List (Callback M))
      → handle_response hd m c ≡ done (c', called)
      → IsSound a c
      → IsSound a c'
  unfolding handle_response reset set_count
  handle_response-IsSound a hd m c c' called e h =
      let (hit, v) =
        receive_response-Inv (record { request_id = hd.opaque; message = m }) c.futures
          h.futures_valid in
      let c1 = record c { heartbeat = reset c.heartbeat } in
      of_done a _ c' [] called (rw hit at e)
        (with_futures a c1 _ v (with_heartbeat a c (reset c.heartbeat) h.owned h))

  handle_read_pkg-IsSound :
      (a : Option HostPort) (default_listener : ℕ) (e : ErrorCode) (c c' : Client M)
      (called : List (Callback M))
      → handle_read_pkg default_listener e c ≡ done (c', called)
      → IsSound a c
      → IsSound a c'
  unfolding handle_read_pkg
  handle_read_pkg-IsSound a default_listener (failure x) c c' called e h =
      of_done a c c' [] called e h
  handle_read_pkg-IsSound a default_listener success c0 c' called e h =
      let c : Client M = record c0 { stats = record_read c0.stats } in
      let pkg = c.session.pkg in
      let v = with_rest a c0 (record_read c0.stats) c0.session c0.sent c0.listeners h in
      elim (Bool-cases (is_response pkg.header.cmd_type)) [
        | inl response ↦
            handle_response-IsSound a pkg.header pkg.message c c' called (rw response at e) v
        | inr addressed ↦
            let (hp, known, e1) = >>=-done (or_fault c.host_port) _ _ (rw addressed at e) in
            of_done a c c' _ called e1 v
      ]

  send-IsSound :
      (a : Option HostPort) (pf : Platform) (codec : Codec M) (hd : Header) (m : M)
      (c c' : Client M)
      → send pf codec hd m c ≡ done c'
      → IsSound a c
      → IsSound a c'
  unfolding send
  send-IsSound a pf codec hd m c c' e h =
      let (r, written, e1) = >>=-done (async_write pf codec 1 (new_packet hd m)) _ _ e in
      subst (IsSound a) (done-injective e1) (with_rest a c c.stats c.session _ c.listeners h)

  ask-IsSound :
      (a : Option HostPort) (pf : Platform) (codec : Codec M) (hd : Header) (m : M) (p : ℕ)
      (c c' : Client M)
      → ask pf codec hd m c ≡ done (p, c')
      → IsSound a c
      → IsSound a c'
  unfolding ask step
  ask-IsSound a pf codec hd m p c c' e h =
      let s = step (request hd.opaque) c.futures in
      let v = with_futures a c s (step-Inv (request hd.opaque) c.futures h.futures_valid) h in
      let (c1, sent, e1) = >>=-done (send pf codec hd m (record c { futures = s })) _ _ e in
      subst (IsSound a) (ap (λ r. r.1) (done-injective e1))
        (send-IsSound a pf codec hd m (record c { futures = s }) c1 sent v)

  register-IsSound :
      (a : Option HostPort) (l : ℕ) (c c' : Client M)
      → register l c ≡ done c'
      → IsSound a c
      → IsSound a c'
  unfolding register
  register-IsSound a l c c' e h =
      let (hp, known, e1) = >>=-done (or_fault c.host_port) _ _ e in
      subst (IsSound a) (done-injective e1) (with_rest a c c.stats c.session c.sent _ h)

  async_resolve-IsSound :
      (a : Option HostPort) (c c' : Client M)
      → c.status ≢ none_state
      → async_resolve c ≡ done c'
      → IsSound a c
      → IsSound a c'
  unfolding async_resolve
  async_resolve-IsSound a c c' begun e h =
      let (hp, known, e1) = >>=-done (or_fault c.host_port) _ _ e in
      subst (IsSound a) (done-injective e1) (with_io a c _ (λ z. absurd (begun z)) h)

module _ {M : Type 0} (pf : Platform) (codec : Codec M) (default_listener : ℕ) where
  -- No step of any thread makes a client unsound.
  pub Move-IsSound :
      (a : Option HostPort) (c c' : Client M)
      → Move pf codec default_listener c c'
      → IsSound a c
      → IsSound a c'
  unfolding handle_resolve handle_connect handle_write_request finish accept heard close reset
      set_count compare_and_set
  Move-IsSound a c c' (resolves success hp rest some_asked) h =
      with_io a c _ (λ z. absurd (cons-not-nil (sym some_asked ∙ (h.idle z).0))) h
  Move-IsSound a c c' (resolves (failure x) hp rest some_asked) h =
      with_io a c _ (λ z. absurd (cons-not-nil (sym some_asked ∙ (h.idle z).0))) h
  Move-IsSound a c c' (connects success n some_asked) h =
      with_status a _ recovering (omega arith) (λ z. absurd (omega (arith, z)))
        (with_io a c _ (λ z. absurd (omega (arith, some_asked, (h.idle z).1))) h)
  Move-IsSound a c c' (connects (failure x) n some_asked) h =
      with_io a c _ (λ z. absurd (omega (arith, some_asked, (h.idle z).1))) h
  Move-IsSound a c c' (writes success) h =
      with_rest a c (record_write c.stats) c.session c.sent c.listeners h
  Move-IsSound a c c' (writes (failure x)) h = h
  Move-IsSound a c c' (receives e p called handled) h =
      handle_read_pkg-IsSound a default_listener e _ c' called handled
        (with_rest a c c.stats (record c.session { pkg = p }) c.sent c.listeners h)
  Move-IsSound a c c' (reads_packet p) h =
      with_rest a c c.stats (record c.session { pkg = p }) c.sent c.listeners h
  Move-IsSound a c c' counts_read h =
      with_rest a c (record_read c.stats) c.session c.sent c.listeners h
  Move-IsSound a c c' counts_write h =
      with_rest a c (record_write c.stats) c.session c.sent c.listeners h
  Move-IsSound a c c' (steps e) h = with_futures a c _ (step-Inv e c.futures h.futures_valid) h
  Move-IsSound a c c' (listens key l) h =
      with_rest a c c.stats c.session c.sent (register_listener key l c.listeners) h
  Move-IsSound a c c' (registers l e) h = register-IsSound a l c c' e h
  Move-IsSound a c c' (sends hd m e) h = send-IsSound a pf codec hd m c c' e h
  Move-IsSound a c c' (asks hd m p e) h = ask-IsSound a pf codec hd m p c c' e h
  Move-IsSound a c c' (waits p now resp got) h =
      with_heartbeat a c _ (set_next-IsOwned _ c.heartbeat h.owned) h
  Move-IsSound a c c' (gives_up p) h =
      with_futures a c _ (give_up-Inv p c.futures h.futures_valid) h
  Move-IsSound a c c' (accepts status_of none) h = h
  Move-IsSound a c c' (accepts status_of (some ack)) h = elim (Bool-cases (status_of ack)) [
    | inl e ↦ rw e (with_status a c running (omega arith) (λ z. absurd (omega (arith, z))) h)
    | inr e ↦ rw e h
  ]
  Move-IsSound a c c' (hears version_of now response) h =
      with_heartbeat a c _ (answered-IsOwned now _ c.heartbeat h.owned) h
  Move-IsSound a c c' prepares h = elim (Bool-cases (c.status == none_state)) [
    | inl e ↦ rw e (with_status a c prepare (omega arith) (λ z. absurd (omega (arith, z))) h)
    | inr e ↦ rw e h
  ]
  Move-IsSound a c c' adopts h = with_heartbeat a c _ (set_parent-IsOwned c.heartbeat) h
  Move-IsSound a c c' (attempts begun e) h = async_resolve-IsSound a c c' begun e h
  Move-IsSound a c c' (beats owner) h =
      with_heartbeat a c _ (start_thread-IsOwned c.heartbeat owner) h
  Move-IsSound a c c' loses h = elim (Bool-cases (c.status == running)) [
    | inl e ↦ rw e (with_status a c reconnecting (omega arith) (λ z. absurd (omega (arith, z))) h)
    | inr e ↦ rw e h
  ]
  Move-IsSound a c c' recovers h = with_heartbeat a c _ h.owned h
  Move-IsSound a c c' runs h =
      with_status a c running (omega arith) (λ z. absurd (omega (arith, z))) h
  Move-IsSound a c c' closes h =
      with_io a _ _ h.idle (with_heartbeat a c _ (stop_threads-IsOwned c.heartbeat h.owned) h)

  Reach-IsSound :
      (a : Option HostPort) (c c' : Client M)
      → Reach pf codec default_listener c c'
      → IsSound a c
      → IsSound a c'
  Reach-IsSound a c c' here h = h
  Reach-IsSound a c c' (later s r) h = Reach-IsSound a _ c' r (Move-IsSound a c _ s h)

  -- A client that any steps of any threads have made of a new one, in any order, is sound: its
  -- status is one of the states other than `STOP`, the futures are valid, the threads of its
  -- heartbeat have a client to ask, nothing is asked of the resolver before `start`, and the
  -- address is the URL's.
  pub new_client-Reach :
      (sp : Splitter) (gid skey url : List ℕ) (listeners : List (List ℕ × ℕ)) (stats : KiteStats)
      (session : Session M) (c : Client M)
      → Reach pf codec default_listener
          (new_client sp gid skey url no_futures listeners stats session)
          c
      → IsSound (server_address sp url) c
  new_client-Reach sp gid skey url listeners stats session c r =
      Reach-IsSound (server_address sp url) _ c r
        (new_client-IsSound sp gid skey url listeners stats session)

  handle_read_pkg-total :
      (e : ErrorCode) (p : KitePacket M) (c : Client M) (hp : HostPort)
      → IsSound (some hp) c
      → (c' : Client M) × (called : List (Callback M)) × (handle_read_pkg default_listener e
            (record c { session = record c.session { pkg = p } })
          ≡ done (c', called))
  unfolding handle_read_pkg
  handle_read_pkg-total (failure x) p c hp h =
      (record c { session = record c.session { pkg = p } }, [], refl)
  handle_read_pkg-total success p c hp h =
      let (c', handled, _) =
        handle_read_pkg_lem default_listener p c hp h.futures_valid h.address in
      (c', _, handled)

  -- If the URL's address parses, then in every client that any steps of any threads have made
  -- of a new one `handle_read_pkg` returns for whatever packet and error come, and so do
  -- `registerListener` and the call of the resolver: no null pointer is followed and no promise
  -- is set twice.
  pub new_client-no_fault :
      (sp : Splitter) (gid skey url : List ℕ) (listeners : List (List ℕ × ℕ)) (stats : KiteStats)
      (session : Session M) (c : Client M) (hp : HostPort) (e : ErrorCode) (p : KitePacket M)
      (l : ℕ)
      → server_address sp url ≡ some hp
      → Reach pf codec default_listener
          (new_client sp gid skey url no_futures listeners stats session)
          c
      → ((c' : Client M) × (called : List (Callback M)) × (handle_read_pkg default_listener e
              (record c { session = record c.session { pkg = p } })
            ≡ done (c', called)))
        × ((c' : Client M) × (register l c ≡ done c'))
        × ((c' : Client M) × (async_resolve c ≡ done c'))
  unfolding register async_resolve
  new_client-no_fault sp gid skey url listeners stats session c hp e p l parses r =
      let sound = new_client-Reach sp gid skey url listeners stats session c r in
      let h : IsSound (some hp) c = rw parses at sound in
      (
        handle_read_pkg-total e p c hp h,
        known-done c.host_port hp _ h.address,
        known-done c.host_port hp _ h.address,
      )
