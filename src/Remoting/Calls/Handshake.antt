-- ===== src/Remoting/Calls/Handshake.antt =====
-- remoting/asioKiteIOClient.cpp with the generated messages: `handshake`, down to what it writes.
use kiteq_client_cpp.Base.{
  ℕ, ◌+◌, ◌^◌, ◌<◌, ◌≡◌, refl, ap, ◌∙◌, Bool, true, false, List, Option, none, some, length, arith,
  if◌then◌else◌,
}
use kiteq_client_cpp.Base.Dict.{nat_eq, find}
use kiteq_client_cpp.ByteBuf.{Platform}
use kiteq_client_cpp.Protocol.{conn_meta}
use kiteq_client_cpp.KitePacket.{Header, KitePacket, Outcome, done}
use kiteq_client_cpp.Messages.{Wire}
use kiteq_client_cpp.Messages.ConnAuthAck.{ConnAuthAck}
use kiteq_client_cpp.Messages.ConnMeta
use kiteq_client_cpp.Messages.ConnMeta.Whole as ConnMetaWhole
use kiteq_client_cpp.Messages.Any.{Message, a_conn_auth_ack, a_conn_meta, parse, serialize}
use kiteq_client_cpp.Messages.Codec.{generated, whole-parse}
use kiteq_client_cpp.Remoting.ResponseFuture.{Step, run, no_futures}
use kiteq_client_cpp.Remoting.ResponseFuture.Requests.{requested, AllSpare}
use kiteq_client_cpp.Base.Word.{add64}
use kiteq_client_cpp.Remoting.Heartbeat.{set_next_heartbeat_time, reset}
use kiteq_client_cpp.Remoting.Client.{Client, running, is_response}
use kiteq_client_cpp.Remoting.Calls.{conn_meta_of, handshake}
use kiteq_client_cpp.Remoting.Calls.Replies.{asking, answering, taking}
use kiteq_client_cpp.Remoting.Calls.Rounds.{handshake-answered}

conn_meta_of-IsWhole :
    (c : Client Message)
    → length c.group_id < 2 ^ 31
    → length c.secret_key < 2 ^ 31
    → ConnMetaWhole.IsWhole (conn_meta_of c)
unfolding conn_meta_of ConnMeta.set_groupid ConnMeta.set_secretkey ConnMeta.new_message
conn_meta_of-IsWhole c group key = record {
  known = refl;
  has_set_groupid = refl;
  fits_groupid = group;
  has_set_secretkey = refl;
  fits_secretkey = key;
  unset_warmingupsec = λ e. refl;
  fits_warmingupsec = omega arith;
}

module _ (w : Wire) (pf : Platform) where
  -- `handshake` over the generated messages, of a client whose group and key are shorter than
  -- 2^31 bytes and whose ConnMeta's length fits an `int`, from reachable futures and under an
  -- opaque that nobody waits for: if `handle_read_pkg` takes a response with a ConnAuthAck and
  -- that opaque within the wait, nobody else answers or gives up that opaque before, nobody
  -- touches the heartbeat between that and the end of the wait, and the pointer cast of a
  -- ConnAuthAck is that message, then `handshake` returns its status and makes the client
  -- running if that is true, and leaves its status otherwise. The count of missed heartbeats is
  -- the reset one, the next heartbeat is moved to three seconds after the wait, and what has
  -- been written before the wait is one frame, whose body parses to a ConnMeta with the
  -- client's group and key and no warming-up time.
  pub handshake-conn_meta :
      (cast : Message → ConnAuthAck) (default_listener : ℕ)
      (before during after : List (Step (Option Message)))
      (early late : Client Message → Client Message) (p : KitePacket Message) (ack : ConnAuthAck)
      (h : Header) (now : ℕ) (c : Client Message)
      → ((a : ConnAuthAck) → cast (a_conn_auth_ack a) ≡ a)
      → length c.group_id < 2 ^ 31
      → length c.secret_key < 2 ^ 31
      → length (serialize w (a_conn_meta (conn_meta_of c))) + 24 < 2 ^ 31
      → c.futures ≡ run before no_futures
      → find h.opaque c.futures.future_map ≡ none
      → ((x : Client Message) → (early x).futures ≡ run during x.futures)
      → ((x : Client Message) → (late x).futures ≡ run after x.futures)
      → ((x : Client Message) → (late x).heartbeat ≡ x.heartbeat)
      → AllSpare h.opaque (requested before h.opaque) during
      → is_response p.header.cmd_type ≡ true
      → p.header.opaque ≡ h.opaque
      → p.message ≡ some (a_conn_auth_ack ack)
      → (body : List ℕ) × (meta : ConnMeta.ConnMeta) × (c' : Client Message) × (handshake pf
            (generated w)
            a_conn_meta
            (λ m. (cast m).status)
            h
            (taking default_listener p early late)
            now
            c
          ≡ done (ack.status, c'))
        × (c'.status ≡ (
            if ack.status then running else (late (answering p (early (asking h body c)))).status))
        × (c'.heartbeat
            ≡ set_next_heartbeat_time (add64 now 3000) (reset (early (asking h body c)).heartbeat))
        × (c'.sent ≡ (late (answering p (early (asking h body c)))).sent)
        × (parse w conn_meta body ≡ a_conn_meta meta)
        × (meta.groupid ≡ c.group_id)
        × (meta.secretkey ≡ c.secret_key)
        × (meta.has_warmingupsec ≡ false)
  unfolding conn_meta_of ConnMeta.set_groupid ConnMeta.set_secretkey ConnMeta.new_message
  handshake-conn_meta cast default_listener before during after early late p ack h now c cast_ack
        group key short reached fresh early_run late_run late_leaves spared response same told =
      let meta = conn_meta_of c in
      let body = serialize w (a_conn_meta meta) in
      let c1 = late (answering p (early (asking h body c))) in
      let answered =
        handshake-answered pf (generated w) default_listener before during after early late p
          (a_conn_auth_ack ack) a_conn_meta (λ m. (cast m).status) h now c short reached fresh
          early_run late_run spared response same told in
      let result : ConnAuthAck → Outcome (Bool × Client Message) = λ a. done (
        a.status,
        record c1 {
          status = if a.status then running else c1.status;
          heartbeat = set_next_heartbeat_time (add64 now 3000) c1.heartbeat;
        },
      ) in
      let parsed = whole-parse w (a_conn_meta meta) (conn_meta_of-IsWhole c group key) in
      (
        body,
        meta,
        _,
        answered ∙ ap result (cast_ack ack),
        refl,
        ap (set_next_heartbeat_time (add64 now 3000))
            (late_leaves (answering p (early (asking h body c)))),
        refl,
        parsed,
        refl,
        refl,
        refl,
      )
