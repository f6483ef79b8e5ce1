-- ===== src/Remoting/Calls/Rounds.antt =====
-- remoting/asioKiteIOClient.cpp: `handshake` and a round of `hbThread`, to the response or without.
use kiteq_client_cpp.Base.{
  ℕ, ◌+◌, ◌^◌, ◌<◌, ◌≡◌, refl, ◌∙◌, ap, Bool, true, List, Option, none, some, length, ◌==◌, arith,
  Bool-cases, inl, inr, if◌then◌else◌,
}
use kiteq_client_cpp.Base.Word.{add64, slt64}
use kiteq_client_cpp.Base.Dict.{nat_eq, find}
use kiteq_client_cpp.ByteBuf.{Platform}
use kiteq_client_cpp.Protocol.{Codec}
use kiteq_client_cpp.Messages.ConnMeta.{ConnMeta}
use kiteq_client_cpp.KitePacket.{Header, KitePacket, Outcome, done}
use kiteq_client_cpp.Commons.Counter.{inc, set_count}
use kiteq_client_cpp.Remoting.ResponseFuture.{Step, run, no_futures}
use kiteq_client_cpp.Remoting.ResponseFuture.Requests.{AllSpare, requested}
use kiteq_client_cpp.Remoting.Heartbeat.{
  Heartbeat, set_next_heartbeat_time, reset, is_due, answered,
}
use kiteq_client_cpp.Remoting.Client.{Client, running, is_response}
use kiteq_client_cpp.Remoting.Calls.{
  accept, heard, conn_meta_of, send_and_get, send_conn_and_get, send_heart_beat_and_get, handshake,
  heartbeat_round,
}
use kiteq_client_cpp.Remoting.Calls.Replies.{
  asking, answering, taking, send_and_get-answered, send_and_get-timeout,
}

answered-next :
    (now version : ℕ) (h : Heartbeat)
    → (answered now (some version) h).next_heartbeat_time ≡ h.next_heartbeat_time
unfolding answered
answered-next now version h = elim (Bool-cases (version == now)) [ inl e ↦ rw e | inr e ↦ rw e ]

answered-count :
    (now version : ℕ) (h : Heartbeat)
    → h.stop_count ≡ 0
    → (answered now (some version) h).stop_count ≡ (if version == now then 0 else 1)
unfolding answered inc set_count
answered-count now version h fresh = elim (Bool-cases (version == now)) [
  | inl e ↦ rw e
  | inr e ↦ rw (e, fresh)
]

set_next_heartbeat_time-stop_count :
    (time : ℕ) (h : Heartbeat) → (set_next_heartbeat_time time h).stop_count ≡ h.stop_count
unfolding set_next_heartbeat_time
set_next_heartbeat_time-stop_count time h = elim (Bool-cases (slt64 h.next_heartbeat_time time)) [
  | inl e ↦ rw e
  | inr e ↦ rw e
]

module _ {M : Type 0} (pf : Platform) (codec : Codec M) where
  -- `handshake` returns what its ConnAuthAck says, and makes the client running if that is true.
  pub handshake-answered :
      (default_listener : ℕ) (before during after : List (Step (Option M)))
      (early late : Client M → Client M) (p : KitePacket M) (ack : M) (of_meta : ConnMeta → M)
      (status_of : M → Bool) (h : Header) (now : ℕ) (c : Client M)
      → length (codec.serialize (of_meta (conn_meta_of c))) + 24 < 2 ^ 31
      → c.futures ≡ run before no_futures
      → find h.opaque c.futures.future_map ≡ none
      → ((x : Client M) → (early x).futures ≡ run during x.futures)
      → ((x : Client M) → (late x).futures ≡ run after x.futures)
      → AllSpare h.opaque (requested before h.opaque) during
      → is_response p.header.cmd_type ≡ true
      → p.header.opaque ≡ h.opaque
      → p.message ≡ some ack
      → let bytes = codec.serialize (of_meta (conn_meta_of c)) in
        let c1 = late (answering p (early (asking h bytes c))) in
        handshake pf codec of_meta status_of h (taking default_listener p early late) now c
        ≡ done (
          status_of ack,
          record c1 {
            status = if status_of ack then running else c1.status;
            heartbeat = set_next_heartbeat_time (add64 now 3000) c1.heartbeat;
          },
        )
  unfolding handshake accept send_conn_and_get set_count
  handshake-answered default_listener before during after early late p ack of_meta status_of h now c
        short reached fresh early_run late_run spared response same told =
      let sent =
        send_and_get-answered pf codec default_listener before during after early late p h
          (of_meta (conn_meta_of c)) now c short reached fresh early_run late_run spared response
          same in
      rw (sent, told)

  pub round_due :
      (version_of : M → ℕ) (h : Header) (beat : ℕ → M) (meanwhile : Client M → Outcome (Client M))
      (now after : ℕ) (c c1 : Client M) (response : Option M)
      → c.status ≡ running
      → is_due now c.heartbeat ≡ true
      → send_and_get pf codec h (beat now) meanwhile after c ≡ done (response, c1)
      → heartbeat_round pf codec version_of h beat meanwhile now after c
        ≡ done (heard version_of now response c1)
  unfolding heartbeat_round send_heart_beat_and_get
  round_due version_of h beat meanwhile now after c c1 response runs due sent =
      let is_running : (c.status == running) ≡ true = ground arith in rw (is_running, due, sent)

  -- A round of the heartbeat thread of a running client whose heartbeat is due, with a message
  -- whose length fits an `int`, from reachable futures and under an opaque that nobody waits
  -- for, which nobody else answers or gives up before, and with the heartbeat left alone
  -- between the response's handler and the end of the wait. If `handle_read_pkg` takes the
  -- response within the wait, the next heartbeat is moved to three seconds after the wait, and
  -- the count of missed heartbeats is 0 if the response has the version that was sent and 1
  -- otherwise, whatever it was before. If no response comes, the next heartbeat stays as the
  -- other threads have left it and the count is one more than that.
  pub heartbeat_round_lem :
      (default_listener : ℕ) (before during after : List (Step (Option M)))
      (early late : Client M → Client M) (p : KitePacket M) (ack : M) (version_of : M → ℕ)
      (h : Header) (beat : ℕ → M) (now time_now : ℕ) (c : Client M)
      → c.status ≡ running
      → is_due now c.heartbeat ≡ true
      → length (codec.serialize (beat now)) + 24 < 2 ^ 31
      → c.futures ≡ run before no_futures
      → find h.opaque c.futures.future_map ≡ none
      → ((x : Client M) → (early x).futures ≡ run during x.futures)
      → ((x : Client M) → (late x).futures ≡ run after x.futures)
      → ((x : Client M) → (late x).heartbeat ≡ x.heartbeat)
      → AllSpare h.opaque (requested before h.opaque) during
      → is_response p.header.cmd_type ≡ true
      → p.header.opaque ≡ h.opaque
      → p.message ≡ some ack
      → let waited = early (asking h (codec.serialize (beat now)) c) in
        let next = set_next_heartbeat_time (add64 time_now 3000) (reset waited.heartbeat) in
        ((c' : Client M) × (heartbeat_round pf codec version_of h beat
              (taking default_listener p early late)
              now
              time_now
              c
            ≡ done c')
          × (c'.status ≡ (late (answering p waited)).status)
          × (c'.heartbeat.next_heartbeat_time ≡ next.next_heartbeat_time)
          × (c'.heartbeat.stop_count ≡ (if version_of ack == now then 0 else 1)))
        × ((c' : Client M) × (heartbeat_round pf codec version_of h beat
                (λ x. done (early x))
                now
                time_now
                c
              ≡ done c')
            × (c'.status ≡ waited.status)
            × (c'.heartbeat.next_heartbeat_time ≡ waited.heartbeat.next_heartbeat_time)
            × (c'.heartbeat.stop_count ≡ add64 waited.heartbeat.stop_count 1))
  unfolding heard inc set_count reset answered
  heartbeat_round_lem default_listener before during after early late p ack version_of h beat now
        time_now c runs due short reached fresh early_run late_run late_leaves spared response same
        told =
      let waited = early (asking h (codec.serialize (beat now)) c) in
      let c1 = late (answering p waited) in
      let left : c1.heartbeat ≡ reset waited.heartbeat = late_leaves (answering p waited) in
      let hit =
        send_and_get-answered pf codec default_listener before during after early late p h
          (beat now) time_now c short reached fresh early_run late_run spared response same in
      let (c2, miss, rest, _) =
        send_and_get-timeout pf codec before during early none h (beat now) time_now c short reached
          fresh early_run spared in
      let woken : Client M = record c1 {
        heartbeat = set_next_heartbeat_time (add64 time_now 3000) c1.heartbeat;
      } in
      let got : send_and_get pf codec h (beat now) (taking default_listener p early late) time_now c
          ≡ done (some ack, woken) =
        hit ∙ ap (λ r. done (r, woken)) told in
      let round = round_due version_of h beat in
      (
        (
          heard version_of now (some ack) woken,
          round (taking default_listener p early late) now time_now c woken (some ack) runs due got,
          refl,
          answered-next now (version_of ack) woken.heartbeat
              ∙ ap (λ b. (set_next_heartbeat_time (add64 time_now 3000) b).next_heartbeat_time)
                  left,
          answered-count now (version_of ack) woken.heartbeat (
              set_next_heartbeat_time-stop_count (add64 time_now 3000) c1.heartbeat
              ∙ ap (λ b. b.stop_count) left),
        ),
        (
          heard version_of now none c2,
          round (λ x. done (early x)) now time_now c c2 none runs due miss,
          ap (λ x. x.status) rest,
          ap (λ x. x.heartbeat.next_heartbeat_time) rest,
          ap (λ x. add64 x.heartbeat.stop_count 1) rest,
        ),
      )
