-- ===== src/Tests/Examples.antt =====
-- The theorems of the producers at concrete inputs: a boost whose searches are of one character, and a
-- client that keeps what it was given.
use kiteq_client_cpp.Base.{
  ℕ, ◌≤◌, ◌≡◌, refl, inl, inr, true, false, Bool-cases, List, [], ◌∷◌, ◌++◌, length, All, arith,
  ◌==◌, if◌then◌else◌,
}
use kiteq_client_cpp.KitePacket.{Header, done}
use kiteq_client_cpp.KitePacket.Decode.{IsHeader}
use kiteq_client_cpp.Session.{read_length, receive_all}
use kiteq_client_cpp.Session.Stream.{send_all}
use kiteq_client_cpp.Commons.HostPort.{to_string}
use kiteq_client_cpp.Remoting.ListenerManager.{get_listener}
use kiteq_client_cpp.Remoting.ResponseFuture.{no_futures}
use kiteq_client_cpp.Remoting.ResponseFuture.Invariant.{no_futures-Inv}
use kiteq_client_cpp.Remoting.Client.{Client, running}
use kiteq_client_cpp.Remoting.Client.Dispatch.{serve, Kept}
use kiteq_client_cpp.Messages.StringMessage.{StringMessage}
use kiteq_client_cpp.Messages.Any.{Message}
use kiteq_client_cpp.Messages.Codec.{generated}
use kiteq_client_cpp.Examples.{Boost, KiteClients}
use kiteq_client_cpp.Examples.Producer
use kiteq_client_cpp.Examples.TxProducer
use kiteq_client_cpp.Examples.Orders.{IsVarint}
use kiteq_client_cpp.Examples.Rounds.{orders, given_each, main-orders}
use kiteq_client_cpp.Examples.Arrival.{
  IsDispatched, plainly, with_tx, lite, arrivals, serve-produced,
}
use kiteq_client_cpp.Tests.Data.{gcc, local_host, session_of, client_of}
use kiteq_client_cpp.Tests.Messages.{one_byte}

-- Each c in the text replaced.
abbrev pub replace_char : List ℕ → ℕ → List ℕ → List ℕ
replace_char [] c format = []
replace_char (t ∷ ts) c format =
    if t == c then format ++ replace_char ts c format else t ∷ replace_char ts c format

abbrev pub replace_text : List ℕ → List ℕ → List ℕ → List ℕ
replace_text text [] format = text
replace_text text (c ∷ cs) format = replace_char text c format

pub length-replace_char : (text : List ℕ) (c : ℕ) → length (replace_char text c []) ≤ length text
length-replace_char [] c = omega arith
length-replace_char (t ∷ ts) c =
    let others = length-replace_char ts c in
    elim (Bool-cases (t == c)) [
      | inl same ↦ rw same (omega (arith, others))
      | inr other ↦ rw other (omega (arith, others))
    ]

pub length-replace_text :
    (text search : List ℕ) → length (replace_text text search []) ≤ length text
length-replace_text text [] = omega arith
length-replace_text text (c ∷ cs) = length-replace_char text c

abbrev char_boost : Boost
char_boost = record {
  replace_all_copy = replace_text;
  lexical_cast = λ n. n ∷ [];
  length-replace_all_copy = length-replace_text;
}

abbrev recorder : KiteClients (List StringMessage)
recorder = record {
  new_kite_client = λ zk group key. [];
  new_listening_client = λ zk group key l. [];
  set_publish_topics = λ ts c. c;
  set_bindings = λ bs c. c;
  start = λ c. c;
  send_string_message = λ m c. m ∷ c;
  send_tx_message = λ m t c. m ∷ c;
  bind_direct = λ group topic type n fixed. 0;
}

abbrev uuid_text : List ℕ
uuid_text =
    b'0' ∷ b'1' ∷ b'2' ∷ b'3' ∷ b'4' ∷ b'5' ∷ b'6' ∷ b'7' ∷ b'-' ∷ b'8' ∷ b'9' ∷ b'a' ∷ b'b' ∷ b'-'
    ∷ b'c' ∷ b'd' ∷ b'e' ∷ b'f' ∷ b'-' ∷ b'0' ∷ b'1' ∷ b'2' ∷ b'3' ∷ b'-' ∷ b'4' ∷ b'5' ∷ b'6'
    ∷ b'7' ∷ b'8' ∷ b'9' ∷ b'a' ∷ b'b' ∷ b'c' ∷ b'd' ∷ b'e' ∷ b'f' ∷ []

abbrev same_uuid : ℕ → List ℕ
same_uuid i = uuid_text

one_byte-IsVarint : IsVarint one_byte
one_byte-IsVarint = record {
  small_delimited = λ n small. omega arith;
  small_int32 = λ v small. refl;
  five_bytes = λ v small. omega arith;
}

main-orders_example :
    (Producer.main recorder char_boost same_uuid
      ≡ done (
        10000,
        given_each (λ m c. m ∷ c) (orders char_boost same_uuid 1845173857 true 10000 0) [] ∷ [],
      ))
    × (TxProducer.main recorder char_boost same_uuid 1 2 3
        ≡ done (
          3,
          given_each (λ m c. m ∷ c) (orders char_boost same_uuid 1445173857 false 3 0) [] ∷ [],
        ))
main-orders_example = main-orders recorder char_boost same_uuid 1 2 3 (omega arith)

abbrev order_head : Header
order_head = record { opaque = 7; cmd_type = 0x12; version = 2; extension = 0 }

-- A message of each producer.
abbrev both : List (Header × StringMessage)
both =
    (order_head, Producer.build_message char_boost uuid_text [] [] [] [])
    ∷ (order_head, TxProducer.build_message char_boost uuid_text [] [] [] [])
    ∷ []

order_head-IsHeader : IsHeader order_head
order_head-IsHeader = record {
  opaque_fits = omega arith;
  cmd_fits = omega arith;
  version_fits = omega arith;
  extension_fits = omega arith;
}

both-IsDispatched : All (IsDispatched char_boost) both
both-IsDispatched = (
  (order_head-IsHeader, refl, omega arith, plainly uuid_text [] [] [] [] refl),
  ((order_head-IsHeader, refl, omega arith, with_tx uuid_text [] [] [] [] refl), tt),
)

serve-produced_example :
    (stream : List ℕ) × (c' : Client Message) × (send_all gcc (generated one_byte) 1 (lite both)
      ≡ done stream)
    × (serve 0
          (receive_all gcc 65536 2 (generated one_byte) 8 session_of read_length stream).0
          (client_of running no_futures)
        ≡ done (
          c',
          arrivals
              (get_listener 0
                (to_string local_host)
                (client_of {M = Message} running no_futures).listeners)
              both,
        ))
    × Kept (client_of running no_futures) c' 2
serve-produced_example =
    serve-produced one_byte one_byte-IsVarint char_boost gcc 65536 2 0 both session_of
      (client_of running no_futures) local_host both-IsDispatched refl (λ k. refl) (omega arith)
      no_futures-Inv refl (omega arith)
