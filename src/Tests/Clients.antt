-- ===== src/Tests/Clients.antt =====
-- The theorems of the client and its parts at concrete inputs.
use kiteq_client_cpp.Base.{
  ℕ, ◌≡◌, ◌≢◌, ◌⊎◌, inl, inr, Bool-cases, refl, true, false, List, [], ◌∷◌, Bool, length, get_elem?,
  Option, none, some, arith, ◌==◌, if◌then◌else◌,
}
use kiteq_client_cpp.Base.Dict.{nat_eq, bytes_eq, find}
use kiteq_client_cpp.KitePacket.{KitePacket, Outcome, done, fault, kind_of_cmd}
use kiteq_client_cpp.Commons.HostPort.{HostPort, to_string, server_address}
use kiteq_client_cpp.Commons.Counter.{KiteStats}
use kiteq_client_cpp.Remoting.ListenerManager.{get_listener}
use kiteq_client_cpp.Remoting.ResponseFuture.{
  KiteResponse, Store, Step, request, respond, expire, step, run, no_futures, new_future,
  response_future_used, set_response, receive_response, get_response,
}
use kiteq_client_cpp.Remoting.ResponseFuture.Invariant.{
  no_futures-Inv, step-Inv, receive_response-run,
}
use kiteq_client_cpp.Remoting.ResponseFuture.Routing.{ids, value-ids}
use kiteq_client_cpp.Remoting.ResponseFuture.Requests.{
  responded, request-get_response, request_collision,
}
use kiteq_client_cpp.Remoting.Heartbeat.{
  set_parent, start_thread, is_due, set_next_heartbeat_time, reset, set_next_time,
  set_next_time-total,
}
use kiteq_client_cpp.Remoting.Client.{
  Client, is_response, bytes_message_received, none_state, prepare, running, reconnecting,
  recovering, stop, new_client,
}
use kiteq_client_cpp.Remoting.Client.Dispatch.{serve, Kept, serve-announced}
use kiteq_client_cpp.Messages.ConnMeta.{ConnMeta}
use kiteq_client_cpp.Base.Word.{add64, slt64}
use kiteq_client_cpp.Commons.Counter.{set_count}
use kiteq_client_cpp.Remoting.Calls.{send_and_get, heartbeat_round, handshake}
use kiteq_client_cpp.Remoting.Calls.Replies.{
  asking, answering, taking, send_and_get-answered, send_and_get-timeout,
}
use kiteq_client_cpp.Remoting.Calls.Rounds.{handshake-answered, heartbeat_round_lem}
use kiteq_client_cpp.Remoting.Connect.{Others, start, reconnect}
use kiteq_client_cpp.Remoting.Connect.Loop.{
  Keeps, AllFail, attempts, preparing, lost, start-connects, start-gives_up, start-new_client,
}
use kiteq_client_cpp.Remoting.Connect.Status.{still-AllFail, reconnect-connects, reconnect_stuck}
use kiteq_client_cpp.Tests.Data.{
  gcc, Message, plain_codec, head, store_head, body, session, client_in, local_host, boost_split,
}

-- Two threads wait, under 1 and 2.
abbrev before : List (Step ℕ)
before = request 1 ∷ request 2 ∷ []

abbrev reply : KiteResponse ℕ
reply = record { request_id = 7; message = 70 }

abbrev again : KiteResponse ℕ
again = record { request_id = 7; message = 71 }

nobody_waits : find 7 (run before no_futures).future_map ≡ none
unfolding run step no_futures new_future response_future_used
nobody_waits = refl

request-get_response_example :
    (get_response
        (run before no_futures).next
        (run (request 4 ∷ []) (responded before (request 3 ∷ []) reply))
      ≡ (some reply, run (request 4 ∷ []) (responded before (request 3 ∷ []) reply)))
    × (receive_response again (responded before (request 3 ∷ []) reply)
        ≡ (true, responded before (request 3 ∷ []) reply))
request-get_response_example =
    request-get_response before (request 3 ∷ []) (request 4 ∷ []) reply again nobody_waits (tt, tt)
      refl

receive_response-run_example : (receive_response reply (run before no_futures)).0 ≡ true
receive_response-run_example = receive_response-run before reply

abbrev one_call : List (Step ℕ)
one_call = request 7 ∷ respond reply ∷ []

value_there : (run one_call no_futures).value 0 ≡ some reply
unfolding run step no_futures new_future response_future_used receive_response set_response
value_there = refl

value-ids_example : get_elem? (ids one_call) 0 ≡ some 7
value-ids_example = value-ids one_call 0 reply value_there

abbrev one_waits : Store ℕ
one_waits = step (request 7) no_futures

seven_waits : find 7 one_waits.future_map ≡ some 0
unfolding step no_futures new_future response_future_used
seven_waits = refl

request_collision_example :
    ((step (respond reply) (step (request 7) one_waits)).value one_waits.next ≡ none)
    × ((step (respond reply) (step (request 7) one_waits)).value 0 ≡ some reply)
    × ((step (respond reply) (step (expire one_waits.next) (step (request 7) one_waits))).value 0
        ≡ none)
request_collision_example =
    request_collision one_waits 0 reply (step-Inv (request 7) no_futures no_futures-Inv) seven_waits

abbrev pub idle : ℕ → Client Message
idle status = client_in status no_futures

abbrev pub delivered_packet : KitePacket Message
delivered_packet = record session.pkg { header = head; message = some body }

serve-announced_example :
    (c' : Client Message) × (serve 0 (delivered_packet ∷ []) (idle running)
      ≡ done (c', bytes_message_received 42 7 (some body) ∷ []))
    × Kept (idle running) c' 1
unfolding kind_of_cmd get_listener to_string
serve-announced_example =
    serve-announced 0 (delivered_packet ∷ []) (idle running) _ no_futures-Inv refl (omega arith)

nobody_asks : find 7 (run [] (no_futures {M = Option Message})).future_map ≡ none
unfolding run no_futures
nobody_asks = refl

-- A response to `head`, a thread that asks under 3 before it comes, and nothing after it.
abbrev pub ack_packet : KitePacket Message
ack_packet = record session.pkg { header = store_head; message = some body }

abbrev pub asks_too : Client Message → Client Message
asks_too c = record c { futures = step (request 3) c.futures }

abbrev pub nothing : Client Message → Client Message
nothing c = c

is_ack : is_response ack_packet.header.cmd_type ≡ true
unfolding is_response
is_ack = refl

send_and_get-answered_example :
    let c1 = answering ack_packet (asks_too (asking head (body.1) (idle running))) in
    send_and_get gcc plain_codec head body
      (taking 0 ack_packet asks_too nothing)
      1000
      (idle running)
    ≡ done (
      some body,
      record c1 {
        heartbeat = record {
          has_parent = true;
          threads = [];
          stop_count = 0;
          next_heartbeat_time = 4000;
        };
      },
    )
unfolding run set_next_heartbeat_time reset set_count
send_and_get-answered_example =
    send_and_get-answered gcc plain_codec 0 [] (request 3 ∷ []) [] asks_too nothing ack_packet head
      body 1000 (idle running) (omega arith) refl nobody_asks (λ x. refl) (λ x. refl) (tt, tt)
      is_ack refl

send_and_get-timeout_example :
    let c1 = asks_too (asking head (body.1) (idle running)) in
    (c' : Client Message) × (send_and_get gcc plain_codec head body
        (λ x. done (asks_too x))
        1000
        (idle running)
      ≡ done (none, c'))
    × (c' ≡ record c1 { futures = c'.futures })
    × (receive_response (record { request_id = 7; message = none }) c'.futures ≡ (true, c'.futures))
unfolding run
send_and_get-timeout_example =
    send_and_get-timeout gcc plain_codec [] (request 3 ∷ []) asks_too none head body 1000
      (idle running) (omega arith) refl nobody_asks (λ x. refl) (tt, tt)

-- `status()` is true, and the version is the number of bytes.
abbrev pub status_of : Message → Bool
status_of m = true

abbrev pub version_of : Message → ℕ
version_of m = length (m.1)

abbrev pub beat : ℕ → Message
beat now = body

-- The response has four bytes, which is not the version 5.
heartbeat_round_lem_example :
    ((c' : Client Message) × (heartbeat_round gcc plain_codec version_of head beat
          (taking 0 ack_packet nothing nothing)
          5
          1000
          (idle running)
        ≡ done c')
      × (c'.status ≡ running)
      × (c'.heartbeat.next_heartbeat_time ≡ 4000)
      × (c'.heartbeat.stop_count ≡ 1))
    × ((c' : Client Message) × (heartbeat_round gcc plain_codec version_of head beat
            (λ x. done (nothing x))
            5
            1000
            (idle running)
          ≡ done c')
        × (c'.status ≡ running)
        × (c'.heartbeat.next_heartbeat_time ≡ 0)
        × (c'.heartbeat.stop_count ≡ 4))
unfolding set_next_heartbeat_time is_due run reset set_count
heartbeat_round_lem_example =
    heartbeat_round_lem gcc plain_codec 0 [] [] [] nothing nothing ack_packet body version_of head
      beat 5 1000 (idle running) refl refl (omega arith) refl nobody_asks (λ x. refl) (λ x. refl)
      (λ x. refl) tt is_ack refl refl

-- The connection handler runs while the second attempt sleeps; or never.
abbrev on_second : Others Message
on_second n c = if n == 2 then record c { status = recovering } else c

abbrev pub nobody : Others Message
nobody n c = c

on_second-Keeps : Keeps on_second
on_second-Keeps n c = elim (Bool-cases (n == 2)) [ inl e ↦ rw e | inr e ↦ rw e ]

abbrev pub no_stats : KiteStats
no_stats = record { read_counter = 0; write_counter = 0 }

-- The client after n attempts, which nobody answers.
abbrev pub after : ℕ → Client Message → Client Message
after n c = attempts local_host nobody 0 n c

start-connects_example :
    let c1 = attempts local_host on_second 0 2 (preparing (idle none_state)) in
    start on_second (idle none_state)
    ≡ done (true, record c1 { heartbeat = start_thread c1.heartbeat })
start-connects_example =
    start-connects 1 local_host on_second (idle none_state) refl refl on_second-Keeps (omega arith)
      ((λ e. absurd (omega (arith, e))), (λ e. absurd (omega (arith, e))), tt) refl

pub nobody_connects :
    (status : ℕ)
    → status ≢ recovering
    → status ≢ stop
    → AllFail local_host nobody 0 10 (idle status)
nobody_connects status h1 h2 =
    still-AllFail local_host nobody 0 10 (idle status) (λ n x. refl) h1 h2

start-gives_up_example :
    start nobody (idle none_state) ≡ done (false, after 10 (preparing (idle none_state)))
unfolding set_parent
start-gives_up_example =
    start-gives_up local_host nobody (idle none_state) refl refl (λ n c. refl)
      (nobody_connects prepare (λ e. absurd (omega (arith, e))) (λ e. absurd (omega (arith, e))))

start-new_client_example :
    let c = new_client boost_split [] [] [] no_futures [] no_stats session in
    ((server_address boost_split [] ≡ none) × (start nobody c ≡ fault))
    ⊎ ((hp : HostPort) × (server_address boost_split [] ≡ some hp)
        × (ok : Bool) × (c' : Client Message) × (start nobody c ≡ done (ok, c')))
start-new_client_example =
    start-new_client boost_split [] [] [] no_futures [] no_stats session nobody (λ n c. refl)

-- The resolver and the connection answer at once.
abbrev pub connect_all : List HostPort → Client Message → Client Message
connect_all [] c = c
connect_all (hp ∷ rest) c = record c { status = recovering; io = record c.io { resolving = rest } }

abbrev pub answer_all : Others Message
answer_all n c = connect_all c.io.resolving c

pub connect_all-host_port :
    (hps : List HostPort) (c : Client Message) → (connect_all hps c).host_port ≡ c.host_port
connect_all-host_port [] c = refl
connect_all-host_port (hp ∷ rest) c = refl

abbrev pub meta_body : ConnMeta → Message
meta_body m = body

abbrev pub accepted_ack : Client Message → Outcome (Client Message)
accepted_ack = taking 0 ack_packet nothing nothing

-- The client that has connected again, and the one after its handshake.
abbrev connected_again : Client Message
connected_again =
    let c = attempts local_host answer_all 0 1 (lost (idle running)) in
    record c { heartbeat = reset c.heartbeat }

abbrev pub shaken : Client Message
shaken =
    let c = answering ack_packet (asking head (body.1) connected_again) in
    record c { status = running; heartbeat = set_next_heartbeat_time (add64 1000 3000) c.heartbeat }

pub shakes :
    handshake gcc plain_codec meta_body status_of head accepted_ack 1000 connected_again
    ≡ done (true, shaken)
unfolding run
shakes =
    handshake-answered gcc plain_codec 0 [] [] [] nothing nothing ack_packet body meta_body
      status_of head 1000 connected_again (omega arith) refl nobody_asks (λ x. refl) (λ x. refl) tt
      is_ack refl refl

reconnect-connects_example :
    reconnect gcc plain_codec meta_body status_of answer_all head accepted_ack 1000 (idle running)
    ≡ done (true, shaken)
reconnect-connects_example =
    reconnect-connects gcc plain_codec 0 local_host answer_all meta_body status_of head accepted_ack
      1000 (idle running) shaken true refl refl (λ n c. connect_all-host_port c.io.resolving c)
      (omega arith) tt refl shakes

reconnect_stuck_example :
    (c' : Client Message) × (reconnect gcc plain_codec meta_body status_of nobody head accepted_ack
        1000
        (idle running)
      ≡ done (false, c'))
    × (c'.status ≡ reconnecting)
    × (reconnect gcc plain_codec meta_body status_of nobody head accepted_ack 2000 c'
        ≡ done (false, c'))
reconnect_stuck_example =
    reconnect_stuck gcc plain_codec local_host nobody nobody meta_body status_of head head
      accepted_ack accepted_ack 1000 2000 (idle running) refl refl (λ n c. refl) (λ n x. refl)

set_next_time-total_example :
    (next' : ℕ) × (set_next_time (some 9 ∷ none ∷ []) 5 3 ≡ some next') × (slt64 next' 5 ≡ false)
set_next_time-total_example = set_next_time-total (some 9 ∷ []) [] 5 3
