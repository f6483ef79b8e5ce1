-- ===== src/Tests/Machines.antt =====
-- The theorems on the client's steps at concrete inputs.
use kiteq_client_cpp.Base.{ℕ, ◌≤◌, ◌≡◌, ◌↔◌, refl, true, false, List, [], ◌∷◌, length, some, arith}
use kiteq_client_cpp.KitePacket.{done}
use kiteq_client_cpp.Session.{success}
use kiteq_client_cpp.Commons.Counter.{compare_and_set, set_count}
use kiteq_client_cpp.Commons.HostPort.{HostPort, parse, of_parts, server_address}
use kiteq_client_cpp.Remoting.ResponseFuture.{no_futures}
use kiteq_client_cpp.Remoting.Heartbeat.{new_heartbeat, set_parent}
use kiteq_client_cpp.Remoting.Client.{
  Client, Callback, none_state, prepare, running, recovering, new_client, handle_resolve,
  handle_connect, handle_read_pkg, register, async_resolve, close, is_client_dead,
}
use kiteq_client_cpp.Remoting.Connect.{start}
use kiteq_client_cpp.Remoting.Connect.Loop.{preparing, start-gives_up}
use kiteq_client_cpp.Remoting.Calls.{Beat, hb_thread}
use kiteq_client_cpp.Remoting.Calls.Silence.{hb_thread-silent}
use kiteq_client_cpp.Remoting.Machine.{
  Reach, here, later, prepares, adopts, attempts, resolves, connects, closes,
}
use kiteq_client_cpp.Remoting.Machine.Sound.{IsSound}
use kiteq_client_cpp.Remoting.Machine.Invariant.{new_client-Reach, new_client-no_fault}
use kiteq_client_cpp.Remoting.Machine.Runs.{start-Reach, start_once}
use kiteq_client_cpp.Tests.Data.{gcc, Message, plain_codec, head, session, local_host, boost_split}
use kiteq_client_cpp.Tests.Clients.{
  idle, nobody, no_stats, after, nobody_connects, delivered_packet, version_of, beat,
}

abbrev url : List ℕ
url = b'h' ∷ b':' ∷ b'1' ∷ b'?' ∷ b'x' ∷ []

abbrev fresh : Client Message
fresh = new_client boost_split (71 ∷ []) (83 ∷ []) url no_futures [] no_stats session

-- Started, and connected by the io service's thread.
abbrev connected : Client Message
connected = record (preparing fresh) { status = recovering }

url_parses : server_address boost_split url ≡ some local_host
unfolding server_address parse of_parts
url_parses = refl

connected-Reach : Reach gcc plain_codec 0 fresh connected
unfolding new_client server_address parse of_parts compare_and_set async_resolve handle_resolve
    handle_connect set_parent set_count
connected-Reach = later prepares (
    later adopts (
      later (attempts (λ z. absurd (omega (arith, z))) refl)
        (later (resolves success local_host [] refl) (later (connects success 0 refl) here))))

new_client-Reach_example : IsSound (server_address boost_split url) connected
new_client-Reach_example =
    new_client-Reach gcc plain_codec 0 boost_split (71 ∷ []) (83 ∷ []) url [] no_stats session
      connected connected-Reach

new_client-no_fault_example :
    ((c' : Client Message) × (called : List (Callback Message)) × (handle_read_pkg 0 success
          (record connected { session = record connected.session { pkg = delivered_packet } })
        ≡ done (c', called)))
    × ((c' : Client Message) × (register 9 connected ≡ done c'))
    × ((c' : Client Message) × (async_resolve connected ≡ done c'))
new_client-no_fault_example =
    new_client-no_fault gcc plain_codec 0 boost_split (71 ∷ []) (83 ∷ []) url [] no_stats session
      connected local_host success delivered_packet 9 url_parses connected-Reach

abbrev given_up : Client Message
given_up = after 10 (preparing (idle none_state))

gives_up : start nobody (idle none_state) ≡ done (false, given_up)
unfolding set_parent
gives_up =
    start-gives_up local_host nobody (idle none_state) refl refl (λ n c. refl)
      (nobody_connects prepare (λ e. absurd (omega (arith, e))) (λ e. absurd (omega (arith, e))))

start-Reach_example : Reach gcc plain_codec 0 (idle none_state) given_up
start-Reach_example =
    start-Reach gcc plain_codec 0 nobody (idle none_state) given_up false (λ n c. here) gives_up

start_once_example : start nobody (close given_up) ≡ done (false, close given_up)
start_once_example =
    start_once gcc plain_codec 0 nobody nobody (idle none_state) given_up (close given_up) false
      (λ n c. here) gives_up (later closes here)

abbrev beats : List (Beat Message)
beats =
    record { header = head; meanwhile = done; now = 5; time_now = 1005 }
    ∷ record { header = head; meanwhile = done; now = 1006; time_now = 2006 }
    ∷ []

abbrev beating : Client Message
beating = record (idle running) { heartbeat = new_heartbeat }

hb_thread-silent_example :
    (c' : Client Message) × (hb_thread gcc plain_codec version_of beat beats beating ≡ done c')
    × (c'.status ≡ running)
    × ((is_client_dead c' ≡ true) ↔ (5 ≤ length beats))
unfolding new_heartbeat
hb_thread-silent_example =
    hb_thread-silent gcc plain_codec version_of beat beats beating refl refl
      (
        record { nobody = refl; due = refl; short = omega arith },
        (record { nobody = refl; due = refl; short = omega arith }, tt),
      )
      (omega arith)
