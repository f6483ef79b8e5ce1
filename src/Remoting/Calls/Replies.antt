-- ===== src/Remoting/Calls/Replies.antt =====
-- remoting/asioKiteIOClient.cpp: a method that sends and waits, to its response or its timeout.
use kiteq_client_cpp.Base.{
  ℕ, ◌+◌, ◌^◌, ◌<◌, ◌≡◌, refl, sym, ap, ap₂, ◌∙◌, List, [], ◌++◌, Option, none, some, length, true,
}
use kiteq_client_cpp.Base.Word.{add64}
use kiteq_client_cpp.Base.Dict.{nat_eq, find}
use kiteq_client_cpp.ByteBuf.{Platform}
use kiteq_client_cpp.Protocol.{Codec}
use kiteq_client_cpp.KitePacket.{Header, KitePacket, Outcome, done, ◌>>=◌}
use kiteq_client_cpp.KitePacket.Encode.{frame}
use kiteq_client_cpp.Commons.Counter.{record_read}
use kiteq_client_cpp.Session.Stream.{async_write_lem}
use kiteq_client_cpp.Remoting.ResponseFuture.{
  KiteResponse, Step, request, respond, step, run, new_future, get_response, receive_response,
  no_futures,
}
use kiteq_client_cpp.Remoting.ResponseFuture.Requests.{
  get_response-late, request-find, run-find, AllSpare, requested, responded, request-get_response,
}
use kiteq_client_cpp.Remoting.ResponseFuture.Invariant.{
  step-Inv, run-Inv, no_futures-Inv, receive_response-Inv,
}
use kiteq_client_cpp.Remoting.Heartbeat.{set_next_heartbeat_time, reset}
use kiteq_client_cpp.Remoting.Client.{
  Client, is_response, handle_response, handle_read_pkg, receive_pkg,
}
use kiteq_client_cpp.Remoting.Calls.{finish, send, ask, send_and_get}

module _ {M : Type 0} where
  -- The client that has registered its future and written the packet of these bytes.
  abbrev pub asking : Header → List ℕ → Client M → Client M
  asking h bytes c = record c {
    sent = c.sent ++ frame h bytes;
    futures = step (request h.opaque) c.futures;
  }

  abbrev pub response_of : KitePacket M → KiteResponse (Option M)
  response_of p = record { request_id = p.header.opaque; message = p.message }

  -- The client whose handler has taken a response: it is counted, the heartbeat is reset and the future
  -- is set.
  abbrev pub answering : KitePacket M → Client M → Client M
  answering p c = record c {
    session = record c.session { pkg = p };
    stats = record_read c.stats;
    heartbeat = reset c.heartbeat;
    futures = step (respond (response_of p)) c.futures;
  }

  -- A wait in which the handler takes a packet, with what the other threads do before and after that.
  abbrev pub taking :
      ℕ
      → KitePacket M
      → (Client M → Client M)
      → (Client M → Client M)
      → Client M
      → Outcome (Client M)
  taking default_listener p early late x =
      receive_pkg default_listener p (early x) >>= λ r. done (late (r.0))

  receive_pkg-response :
      (default_listener : ℕ) (p : KitePacket M) (c : Client M)
      → is_response p.header.cmd_type ≡ true
      → (receive_response (response_of p) c.futures).0 ≡ true
      → receive_pkg default_listener p c ≡ done (answering p c, [])
  unfolding receive_pkg handle_read_pkg handle_response step
  receive_pkg-response default_listener p c response once = rw (response, once)

module _ {M : Type 0} (pf : Platform) (codec : Codec M) where
  -- `send` of a message whose length fits an `int` hands exactly the packet's bytes to the socket.
  pub send_lem :
      (h : Header) (m : M) (c : Client M)
      → length (codec.serialize m) + 24 < 2 ^ 31
      → send pf codec h m c ≡ done (record c { sent = c.sent ++ frame h (codec.serialize m) })
  unfolding send
  send_lem h m c short = let (p, e) = async_write_lem pf codec 0 h m short in rw e

  -- The method sends its packet, and waits under the packet's opaque.
  pub send_and_get_lem :
      (h : Header) (m : M) (meanwhile : Client M → Outcome (Client M)) (now : ℕ) (c : Client M)
      → length (codec.serialize m) + 24 < 2 ^ 31
      → send_and_get pf codec h m meanwhile now c ≡ (
          meanwhile (asking h (codec.serialize m) c) >>= λ x.
          let r = get_response c.futures.next x.futures in
          done (finish r.0 (record x { futures = r.1 }) now))
  unfolding send_and_get ask step new_future
  send_and_get_lem h m meanwhile now c short =
      rw (send_lem h m (record c { futures = step (request h.opaque) c.futures }) short)

  -- A future is set at most once, whatever steps led to it.
  responds_once :
      (before during : List (Step (Option M))) (id : ℕ) (resp : KiteResponse (Option M))
      → (receive_response resp (run during (requested before id))).0 ≡ true
  responds_once before during id resp =
      (receive_response-Inv resp _
        (run-Inv during _ (step-Inv (request id) _ (run-Inv before no_futures no_futures-Inv)))).0

  -- A method that sends a message whose length fits an `int` and waits, from reachable futures
  -- and under an opaque that nobody waits for, returns the message of its response if
  -- `handle_read_pkg` takes a packet of a response's command with its opaque within the wait,
  -- and nobody else answers or gives up that opaque before. The other threads may do anything
  -- else before and after that packet, whatever steps of the futures it takes. At the end the
  -- client is the one that they, the sending of the packet's frame and the handler have left
  -- (which counts the read, keeps the packet, resets the count of missed heartbeats and sets
  -- the future), with the next heartbeat moved to three seconds after the wait.
  pub send_and_get-answered :
      (default_listener : ℕ) (before during after : List (Step (Option M)))
      (early late : Client M → Client M) (p : KitePacket M) (h : Header) (m : M) (now : ℕ)
      (c : Client M)
      → length (codec.serialize m) + 24 < 2 ^ 31
      → c.futures ≡ run before no_futures
      → find h.opaque c.futures.future_map ≡ none
      → ((x : Client M) → (early x).futures ≡ run during x.futures)
      → ((x : Client M) → (late x).futures ≡ run after x.futures)
      → AllSpare h.opaque (requested before h.opaque) during
      → is_response p.header.cmd_type ≡ true
      → p.header.opaque ≡ h.opaque
      → let c1 = late (answering p (early (asking h (codec.serialize m) c))) in
        send_and_get pf codec h m (taking default_listener p early late) now c
        ≡ done (
          p.message,
          record c1 { heartbeat = set_next_heartbeat_time (add64 now 3000) c1.heartbeat },
        )
  unfolding finish
  send_and_get-answered default_listener before during after early late p h m now c short reached
        fresh early_run late_run spared response same =
      let resp = response_of p in
      let asked = early (asking h (codec.serialize m) c) in
      let started : asked.futures ≡ run during (requested before h.opaque) =
        early_run (asking h (codec.serialize m) c) ∙ rw reached in
      let once : (receive_response resp asked.futures).0 ≡ true =
        rw started (responds_once before during h.opaque resp) in
      let handled = receive_pkg-response default_listener p asked response once in
      let ended : (late (answering p asked)).futures ≡ run after (responded before during resp) =
        late_run (answering p asked) ∙ rw (started, same) in
      let got =
        (request-get_response before during after resp resp (rw (← reached, same) fresh)
          (rw same spared) refl).0 in
      let all = send_and_get_lem h m (taking default_listener p early late) now c short in
      let c1 = late (answering p asked) in
      let woken : get_response c.futures.next c1.futures ≡ (some resp, c1.futures) =
        ap₂ get_response (ap (λ s. s.next) reached) ended
        ∙ got
        ∙ ap (λ s. (some resp, s)) (sym ended) in
      all ∙ rw (handled, woken)

  -- A method that sends a message whose length fits an `int` and waits, from reachable futures
  -- and under an opaque that nobody waits for, returns null if its wait is over before anybody
  -- has answered or given up that opaque. It leaves all of the client but the futures as the
  -- sending of the packet's frame and the other threads have left it, the heartbeat included,
  -- and a response that comes later is ignored.
  pub send_and_get-timeout :
      (before during : List (Step (Option M))) (others : Client M → Client M) (late : Option M)
      (h : Header) (m : M) (now : ℕ) (c : Client M)
      → length (codec.serialize m) + 24 < 2 ^ 31
      → c.futures ≡ run before no_futures
      → find h.opaque c.futures.future_map ≡ none
      → ((x : Client M) → (others x).futures ≡ run during x.futures)
      → AllSpare h.opaque (requested before h.opaque) during
      → let c1 = others (asking h (codec.serialize m) c) in
        (c' : Client M) × (send_and_get pf codec h m (λ x. done (others x)) now c ≡ done (none, c'))
        × (c' ≡ record c1 { futures = c'.futures })
        × (receive_response (record { request_id = h.opaque; message = late }) c'.futures
            ≡ (true, c'.futures))
  unfolding finish
  send_and_get-timeout before during others late h m now c short reached fresh others_run spared =
      let s0 = run before no_futures in
      let s1 = requested before h.opaque in
      let s = run during s1 in
      let fresh0 : find h.opaque s0.future_map ≡ none = rw reached at fresh in
      let v1 = step-Inv (request h.opaque) s0 (run-Inv before no_futures no_futures-Inv) in
      let found = run-find during s1 h.opaque s0.next v1 (request-find s0 h.opaque fresh0) spared in
      let w = (run-Inv during s1 v1).waiting h.opaque s0.next found in
      let out =
        get_response-late s0.next s (record { request_id = h.opaque; message = late }) w.unset
          (sym w.own_id) in
      let c1 = others (asking h (codec.serialize m) c) in
      let ended : c1.futures ≡ s = others_run (asking h (codec.serialize m) c) ∙ rw reached in
      let left : Client M = record c1 { futures = (get_response s0.next s).1 } in
      let woken : get_response c.futures.next c1.futures ≡ (none, (get_response s0.next s).1) =
        ap₂ get_response (ap (λ s. s.next) reached) ended
        ∙ ap (λ r. (r, (get_response s0.next s).1)) out.0 in
      (left, send_and_get_lem h m (λ x. done (others x)) now c short ∙ rw woken, refl, out.1)
