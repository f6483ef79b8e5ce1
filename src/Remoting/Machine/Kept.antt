-- ===== src/Remoting/Machine/Kept.antt =====
-- remoting/asioKiteIOClient.cpp: what no step of any thread changes or takes back.
use kiteq_client_cpp.Base.{
  ℕ, ◌≡◌, ◌≢◌, refl, sym, ap, subst, ◌∙◌, inl, inr, true, List, Option, none, some, arith,
  Bool-cases, ◌==◌,
}
use kiteq_client_cpp.ByteBuf.{Platform}
use kiteq_client_cpp.Protocol.{Codec}
use kiteq_client_cpp.KitePacket.{Header, done, or_fault, new_packet}
use kiteq_client_cpp.Session.{ErrorCode, success, failure, async_write}
use kiteq_client_cpp.Commons.Counter.{compare_and_set, set_count, record_read}
use kiteq_client_cpp.Remoting.ResponseFuture.{request, step, receive_response}
use kiteq_client_cpp.Base.Word.{slt64}
use kiteq_client_cpp.Remoting.Heartbeat.{
  Heartbeat, reset, answered, set_next_heartbeat_time, set_parent, start_thread, stop_threads,
}
use kiteq_client_cpp.Remoting.Client.{
  Client, Callback, none_state, prepare, running, reconnecting, handle_resolve, handle_connect,
  handle_write_request, handle_read_pkg, handle_response, register, async_resolve, close,
  is_response,
}
use kiteq_client_cpp.Remoting.Calls.{finish, accept, heard, send, ask}
use kiteq_client_cpp.KitePacket.Outcomes.{>>=-done, done-injective, fault-not-done}
use kiteq_client_cpp.Remoting.Machine.{
  Move, resolves, connects, writes, receives, reads_packet, counts_read, counts_write, steps,
  listens, registers, sends, asks, waits, gives_up, accepts, hears, prepares, adopts, attempts,
  beats, loses, recovers, runs, closes, Reach, here, later,
}

-- The address stays, and so does the heartbeat's client; and a client that has begun to start stays
-- begun.
pub record Kept {M : Type 0} (c c' : Client M) : Type 0 where
  pub host_port : c'.host_port ≡ c.host_port
  pub owned : c.heartbeat.has_parent ≡ true → c'.heartbeat.has_parent ≡ true
  pub begun : c.status ≢ none_state → c'.status ≢ none_state

answered-has_parent :
    (now : ℕ) (r : Option ℕ) (h : Heartbeat) → (answered now r h).has_parent ≡ h.has_parent
unfolding answered
answered-has_parent now none h = refl
answered-has_parent now (some v) h = elim (Bool-cases (v == now)) [ inl e ↦ rw e | inr e ↦ rw e ]

set_next-has_parent :
    (t : ℕ) (h : Heartbeat) → (set_next_heartbeat_time t h).has_parent ≡ h.has_parent
unfolding set_next_heartbeat_time
set_next-has_parent t h = elim (Bool-cases (slt64 h.next_heartbeat_time t)) [
  | inl e ↦ rw e
  | inr e ↦ rw e
]

module _ {M : Type 0} where
  -- A step that leaves these parts alone.
  record Alike (c c' : Client M) : Type 0 where
    host_port : c'.host_port ≡ c.host_port
    parent : c'.heartbeat.has_parent ≡ c.heartbeat.has_parent
    status : c'.status ≡ c.status

  Alike-Kept : (c c' : Client M) → Alike c c' → Kept c c'
  Alike-Kept c c' a = record {
    host_port = a.host_port;
    owned = λ o. a.parent ∙ o;
    begun = λ h z. h (sym a.status ∙ z);
  }

  alike :
      (c c' : Client M)
      → c'.host_port ≡ c.host_port
      → c'.heartbeat.has_parent ≡ c.heartbeat.has_parent
      → c'.status ≡ c.status
      → Kept c c'
  alike c c' hp parent st =
      Alike-Kept c c' (record { host_port = hp; parent = parent; status = st })

  -- A step to a status that is not the first one.
  to_status : (c : Client M) (n : ℕ) → n ≢ none_state → Kept c (record c { status = n })
  to_status c n later_on = record { host_port = refl; owned = λ o. o; begun = λ _. later_on }

  -- A step of the io service's thread.
  of_handler :
      (c c' : Client M)
      → c'.host_port ≡ c.host_port
      → c'.heartbeat.has_parent ≡ c.heartbeat.has_parent
      → (c.status ≢ none_state → c'.status ≢ none_state)
      → Kept c c'
  of_handler c c' kept parent begun = record {
    host_port = kept;
    owned = λ o. parent ∙ o;
    begun = begun;
  }

  Kept-trans : (c d e : Client M) → Kept c d → Kept d e → Kept c e
  Kept-trans c d e k l = record {
    host_port = l.host_port ∙ k.host_port;
    owned = λ o. l.owned (k.owned o);
    begun = λ h. l.begun (k.begun h);
  }

  abbrev Unmoved : Client M → Client M → Type 0
  Unmoved c d =
      (d.host_port ≡ c.host_port)
      × (d.heartbeat.has_parent ≡ c.heartbeat.has_parent)
      × (d.status ≡ c.status)

  handle_response-Unmoved :
      (hd : Header) (m : Option M) (c c' : Client M) (called : List (Callback M))
      → handle_response hd m c ≡ done (c', called)
      → Unmoved c c'
  unfolding handle_response reset
  handle_response-Unmoved hd m c c' called h =
      let r = receive_response (record { request_id = hd.opaque; message = m }) c.futures in
      elim (Bool-cases r.0) [
        | inl hit ↦
            subst (Unmoved c) (ap (λ t. t.0) (done-injective (rw hit at h))) (refl, refl, refl)
        | inr thrown ↦ absurd (fault-not-done (rw thrown at h))
      ]

  handle_read_pkg-Unmoved :
      (default_listener : ℕ) (e : ErrorCode) (c c' : Client M) (called : List (Callback M))
      → handle_read_pkg default_listener e c ≡ done (c', called)
      → Unmoved c c'
  unfolding handle_read_pkg
  handle_read_pkg-Unmoved default_listener (failure x) c c' called h =
      subst (Unmoved c) (ap (λ r. r.0) (done-injective h)) (refl, refl, refl)
  handle_read_pkg-Unmoved default_listener success c0 c' called h =
      let c : Client M = record c0 { stats = record_read c0.stats } in
      let pkg = c.session.pkg in
      elim (Bool-cases (is_response pkg.header.cmd_type)) [
        | inl response ↦
            handle_response-Unmoved pkg.header pkg.message c c' called (rw response at h)
        | inr addressed ↦
            let (hp, known, e1) = >>=-done (or_fault c.host_port) _ _ (rw addressed at h) in
            subst (Unmoved c) (ap (λ r. r.0) (done-injective e1)) (refl, refl, refl)
      ]

  send-Alike :
      (pf : Platform) (codec : Codec M) (hd : Header) (m : M) (c c' : Client M)
      → send pf codec hd m c ≡ done c'
      → Alike c c'
  unfolding send
  send-Alike pf codec hd m c c' e =
      let (r, written, e1) = >>=-done (async_write pf codec 1 (new_packet hd m)) _ _ e in
      subst (Alike c) (done-injective e1)
        (record { host_port = refl; parent = refl; status = refl })

  ask-Alike :
      (pf : Platform) (codec : Codec M) (hd : Header) (m : M) (p : ℕ) (c c' : Client M)
      → ask pf codec hd m c ≡ done (p, c')
      → Alike c c'
  unfolding ask step
  ask-Alike pf codec hd m p c c' e =
      let s = step (request hd.opaque) c.futures in
      let (c1, sent, e1) = >>=-done (send pf codec hd m (record c { futures = s })) _ _ e in
      let a = send-Alike pf codec hd m (record c { futures = s }) c1 sent in
      subst (Alike c) (ap (λ r. r.1) (done-injective e1))
        (record { host_port = a.host_port; parent = a.parent; status = a.status })

module _ {M : Type 0} (pf : Platform) (codec : Codec M) (default_listener : ℕ) where
  Move-Kept : (c c' : Client M) → Move pf codec default_listener c c' → Kept c c'
  unfolding handle_resolve handle_connect handle_write_request finish accept heard close set_count
      compare_and_set async_resolve register set_parent start_thread stop_threads reset
  Move-Kept c c' (resolves success hp rest _) = of_handler c _ refl refl (λ h. h)
  Move-Kept c c' (resolves (failure x) hp rest _) = of_handler c _ refl refl (λ h. h)
  Move-Kept c c' (connects success n _) =
      of_handler c _ refl refl (λ _ z. absurd (omega (arith, z)))
  Move-Kept c c' (connects (failure x) n _) = of_handler c _ refl refl (λ h. h)
  Move-Kept c c' (writes success) = of_handler c _ refl refl (λ h. h)
  Move-Kept c c' (writes (failure x)) = of_handler c _ refl refl (λ h. h)
  Move-Kept c c' (receives e p called handled) =
      let (kept, parent, stays) = handle_read_pkg-Unmoved default_listener e _ c' called handled in
      of_handler c c' kept parent (λ h z. h (sym stays ∙ z))
  Move-Kept c c' (reads_packet p) = alike c _ refl refl refl
  Move-Kept c c' counts_read = alike c _ refl refl refl
  Move-Kept c c' counts_write = alike c _ refl refl refl
  Move-Kept c c' (steps e) = alike c _ refl refl refl
  Move-Kept c c' (listens key l) = alike c _ refl refl refl
  Move-Kept c c' (registers l e) =
      let (hp, known, e1) = >>=-done (or_fault c.host_port) _ _ e in
      subst (Kept c) (done-injective e1) (alike c _ refl refl refl)
  Move-Kept c c' (sends hd m e) = Alike-Kept c c' (send-Alike pf codec hd m c c' e)
  Move-Kept c c' (asks hd m p e) = Alike-Kept c c' (ask-Alike pf codec hd m p c c' e)
  Move-Kept c c' (waits p now resp got) = alike c _ refl (set_next-has_parent _ c.heartbeat) refl
  Move-Kept c c' (gives_up p) = alike c _ refl refl refl
  Move-Kept c c' (accepts status_of none) = alike c c refl refl refl
  Move-Kept c c' (accepts status_of (some ack)) = elim (Bool-cases (status_of ack)) [
    | inl e ↦ rw e (to_status c running (λ z. absurd (omega (arith, z))))
    | inr e ↦ rw e (alike c c refl refl refl)
  ]
  Move-Kept c c' (hears version_of now response) =
      alike c _ refl (answered-has_parent now _ c.heartbeat) refl
  Move-Kept c c' prepares = elim (Bool-cases (c.status == none_state)) [
    | inl e ↦ rw e (to_status c prepare (λ z. absurd (omega (arith, z))))
    | inr e ↦ rw e (alike c c refl refl refl)
  ]
  Move-Kept c c' adopts = record { host_port = refl; owned = λ _. refl; begun = λ h. h }
  Move-Kept c c' (attempts begun e) =
      let (hp, known, e1) = >>=-done (or_fault c.host_port) _ _ e in
      subst (Kept c) (done-injective e1) (alike c _ refl refl refl)
  Move-Kept c c' (beats owner) = alike c _ refl refl refl
  Move-Kept c c' loses = elim (Bool-cases (c.status == running)) [
    | inl e ↦ rw e (to_status c reconnecting (λ z. absurd (omega (arith, z))))
    | inr e ↦ rw e (alike c c refl refl refl)
  ]
  Move-Kept c c' recovers = alike c _ refl refl refl
  Move-Kept c c' runs = to_status c running (λ z. absurd (omega (arith, z)))
  Move-Kept c c' closes = record { host_port = refl; owned = λ o. o; begun = λ h. h }

  pub Reach-Kept : (c c' : Client M) → Reach pf codec default_listener c c' → Kept c c'
  Reach-Kept c c' here = alike c c refl refl refl
  Reach-Kept c c' (later s r) = Kept-trans c _ c' (Move-Kept c _ s) (Reach-Kept _ c' r)
