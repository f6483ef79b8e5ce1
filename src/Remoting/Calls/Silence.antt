-- ===== src/Remoting/Calls/Silence.antt =====
-- remoting/asioKiteIOClient.cpp: the heartbeat's thread when nobody answers.
use kiteq_client_cpp.Base.{
  ℕ, ◌+◌, ◌^◌, ◌≤◌, ◌<◌, ◌≡◌, ◌↔◌, refl, true, List, [], ◌∷◌, ◌++◌, none, length, arith, All,
}
use kiteq_client_cpp.Base.Word.{add64, slt64}
use kiteq_client_cpp.ByteBuf.{Platform}
use kiteq_client_cpp.Protocol.{Codec}
use kiteq_client_cpp.KitePacket.{done}
use kiteq_client_cpp.KitePacket.Encode.{frame}
use kiteq_client_cpp.Commons.Counter.{inc}
use kiteq_client_cpp.Remoting.ResponseFuture.{
  Store, request, step, run, give_up, get_response, has_value, new_future, response_future_used,
}
use kiteq_client_cpp.Remoting.Heartbeat.{is_due, answered, is_dead}
use kiteq_client_cpp.Remoting.Client.{Client, running, is_client_dead}
use kiteq_client_cpp.Remoting.Calls.{Beat, finish, heard, send_and_get, heartbeat_round, hb_thread}
use kiteq_client_cpp.Remoting.Calls.Replies.{send_and_get_lem}
use kiteq_client_cpp.Remoting.Calls.Rounds.{round_due}

module _ {M : Type 0} where
  pub get_response-none :
      (p : ℕ) (s : Store M) → s.value p ≡ none → get_response p s ≡ (none, give_up p s)
  unfolding get_response has_value
  get_response-none p s unset = rw (unset, get_response)

  request-value : (id : ℕ) (s : Store M) → (step (request id) s).value s.next ≡ none
  unfolding step new_future response_future_used
  request-value id s = ground arith

module _ {M : Type 0} (pf : Platform) (codec : Codec M) where
  -- Such a round, which nobody answers: the heartbeat is due, and the message's length fits an `int`.
  pub record IsSilent (beat : ℕ → M) (next : ℕ) (b : Beat M) : Type 0 where
    pub nobody : b.meanwhile ≡ done
    pub due : slt64 next b.now ≡ true
    pub short : length (codec.serialize (beat b.now)) + 24 < 2 ^ 31

  silent_round :
      (version_of : M → ℕ) (beat : ℕ → M) (b : Beat M) (c : Client M)
      → c.status ≡ running
      → IsSilent beat c.heartbeat.next_heartbeat_time b
      → (c' : Client M) × (heartbeat_round pf codec version_of b.header beat b.meanwhile b.now
            b.time_now c
          ≡ done c')
        × (c'.status ≡ running)
        × (c'.heartbeat.next_heartbeat_time ≡ c.heartbeat.next_heartbeat_time)
        × (c'.heartbeat.stop_count ≡ add64 c.heartbeat.stop_count 1)
  unfolding heard answered inc finish run is_due
  silent_round version_of beat b c runs silent =
      let s = step (request b.header.opaque) c.futures in
      let waited = get_response-none c.futures.next s (request-value b.header.opaque c.futures) in
      let sent = send_and_get_lem pf codec b.header (beat b.now) done b.time_now c silent.short in
      let left : Client M = record c {
        sent = c.sent ++ frame b.header (codec.serialize (beat b.now));
        futures = give_up c.futures.next s;
      } in
      let missed : send_and_get pf codec b.header (beat b.now) done b.time_now c
          ≡ done (none, left) =
        rw waited at sent in
      (
        heard version_of b.now none left,
        rw silent.nobody (
            round_due pf codec version_of b.header beat done b.now b.time_now c left none runs
              silent.due missed),
        runs,
        refl,
        refl,
      )

  hb_thread-counts :
      (version_of : M → ℕ) (beat : ℕ → M) (bs : List (Beat M)) (c : Client M)
      → c.status ≡ running
      → All (IsSilent beat c.heartbeat.next_heartbeat_time) bs
      → c.heartbeat.stop_count + length bs < 2 ^ 64
      → (c' : Client M) × (hb_thread pf codec version_of beat bs c ≡ done c')
        × (c'.status ≡ running)
        × (c'.heartbeat.stop_count ≡ c.heartbeat.stop_count + length bs)
  unfolding hb_thread
  hb_thread-counts version_of beat [] c runs silent bound = (c, refl, runs, omega arith)
  hb_thread-counts version_of beat (b ∷ bs) c runs silent bound =
      let (c1, e, runs', same, counted) = silent_round version_of beat b c runs silent.0 in
      let rest : All (IsSilent beat c1.heartbeat.next_heartbeat_time) bs = rw same silent.1 in
      let (c', es, still, total) =
        hb_thread-counts version_of beat bs c1 runs' rest (omega (arith, counted)) in
      (c', rw (e, es), still, omega (arith, counted, total))

  -- Rounds of the heartbeat's thread of a running client that has missed none, fewer than 2^63,
  -- in each of which the heartbeat is due, its message's length fits an `int` and the other
  -- threads leave the client alone during the wait: the client stays running, and it is dead
  -- afterwards exactly if there were five rounds or more.
  pub hb_thread-silent :
      (version_of : M → ℕ) (beat : ℕ → M) (bs : List (Beat M)) (c : Client M)
      → c.status ≡ running
      → c.heartbeat.stop_count ≡ 0
      → All (IsSilent beat c.heartbeat.next_heartbeat_time) bs
      → length bs < 2 ^ 63
      → (c' : Client M) × (hb_thread pf codec version_of beat bs c ≡ done c')
        × (c'.status ≡ running)
        × ((is_client_dead c' ≡ true) ↔ (5 ≤ length bs))
  unfolding is_client_dead is_dead
  hb_thread-silent version_of beat bs c runs fresh silent bound =
      let (c', e, still, counted) =
        hb_thread-counts version_of beat bs c runs silent (omega arith) in
      let total : c'.heartbeat.stop_count ≡ length bs = omega (arith, counted, fresh) in
      (c', e, still, rw total (ground arith))
