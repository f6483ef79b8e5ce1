-- ===== src/Examples/Rounds.antt =====
-- example/KiteqProducer.cpp and KiteqTxProducer.cpp: what their loops send.
use kiteq_client_cpp.Base.{
  ℕ, zero, suc, ◌+◌, ◌%◌, ◌^◌, ◌<◌, ◌≡◌, Bool, true, false, List, [], ◌∷◌, arith,
}
use kiteq_client_cpp.Base.Word.{add64}
use kiteq_client_cpp.KitePacket.{done}
use kiteq_client_cpp.Commons.Counter.{new_counter, get_and_increment}
use kiteq_client_cpp.Messages.StringMessage.{StringMessage}
use kiteq_client_cpp.Examples.{Boost, KiteClients, on_first}
use kiteq_client_cpp.Examples.Orders.{order, order_id, build_message_lem, tx_build_message_lem}
use kiteq_client_cpp.Examples.Producer
use kiteq_client_cpp.Examples.TxProducer

-- n orders, whose ids are made of the uuids from number i on.
abbrev pub orders : Boost → (ℕ → List ℕ) → ℕ → Bool → ℕ → ℕ → List StringMessage
orders boost uuid expired commit zero i = []
orders boost uuid expired commit (suc n) i =
    order (order_id boost (uuid i)) expired commit ∷ orders boost uuid expired commit n (i + 1)

-- A client to which messages were given, one after the other.
abbrev pub given_each : {C : Type 0} → (StringMessage → C → C) → List StringMessage → C → C
given_each send [] c = c
given_each send (m ∷ ms) c = given_each send ms (send m c)

-- Where a 64-bit counter stands after n + 1 steps.
counted_on : (counter n : ℕ) → (add64 counter 1 + n) % 2 ^ 64 ≡ (counter + suc n) % 2 ^ 64
counted_on counter n = omega arith

module _ {C : Type 0} (library : KiteClients C) (boost : Boost) (uuid : ℕ → List ℕ) where
  produce_lem :
      (n i counter : ℕ) (c : C) (cs : List C)
      → counter < 2 ^ 64
      → Producer.produce library boost uuid n i counter (c ∷ cs)
        ≡ done (
          (counter + n) % 2 ^ 64,
          given_each library.send_string_message (orders boost uuid 1845173857 true n i) c ∷ cs,
        )
  unfolding Producer.produce get_and_increment on_first
  produce_lem zero i counter c cs fits =
      let same : (counter + 0) % 2 ^ 64 ≡ counter = omega (arith, fits) in rw same
  produce_lem (suc n) i counter c cs fits =
      let body = boost.lexical_cast (add64 counter 1 % 2 ^ 32) in
      let built =
        build_message_lem boost (uuid i) Producer.topic Producer.group_id Producer.message_type
          body in
      let sent = library.send_string_message (order (order_id boost (uuid i)) 1845173857 true) c in
      let others = produce_lem n (i + 1) (add64 counter 1) sent cs (omega arith) in
      rw (built, ← counted_on counter n) others

  transact_lem :
      (adapter callback n i counter : ℕ) (c : C) (cs : List C)
      → counter < 2 ^ 64
      → TxProducer.transact library boost uuid adapter callback n i counter (c ∷ cs)
        ≡ done (
          (counter + n) % 2 ^ 64,
          given_each
                (λ m. library.send_tx_message m callback)
                (orders boost uuid 1445173857 false n i)
                c
              ∷ cs,
        )
  unfolding TxProducer.transact get_and_increment on_first
  transact_lem adapter callback zero i counter c cs fits =
      let same : (counter + 0) % 2 ^ 64 ≡ counter = omega (arith, fits) in rw same
  transact_lem adapter callback (suc n) i counter c cs fits =
      let body = boost.lexical_cast (add64 counter 1 % 2 ^ 32) in
      let built =
        tx_build_message_lem boost (uuid i) TxProducer.topic TxProducer.group_id
          TxProducer.message_type body in
      let sent =
        library.send_tx_message (order (order_id boost (uuid i)) 1445173857 false) callback c in
      let others =
        transact_lem adapter callback n (i + 1) (add64 counter 1) sent cs (omega arith) in
      rw (built, ← counted_on counter n) others

  -- What the producers send: the first one's `main` gives its one client exactly 10,000
  -- messages, and the other's, in its first n rounds for any n below 2^64, gives its one client
  -- exactly n, with the transaction's callback; the message of a round has the id of that
  -- round's uuid, and all the rest of it is the same in every round, whatever the counter, the
  -- topic, the group and the type are.
  pub main-orders :
      (adapter callback n : ℕ)
      → n < 2 ^ 64
      → (Producer.main library boost uuid
          ≡ done (
            10000,
            given_each library.send_string_message
                  (orders boost uuid 1845173857 true 10000 0)
                  (Producer.publisher library boost uuid)
                ∷ [],
          ))
        × (TxProducer.main library boost uuid adapter callback n
            ≡ done (
              n,
              given_each
                    (λ m. library.send_tx_message m callback)
                    (orders boost uuid 1445173857 false n 0)
                    (TxProducer.publisher library boost uuid adapter callback)
                  ∷ [],
            ))
  unfolding Producer.main TxProducer.main new_counter Producer.start_clients
      TxProducer.start_clients
  main-orders adapter callback n fits =
      let first = produce_lem 10000 0 0 (Producer.publisher library boost uuid) [] (omega arith) in
      let second =
        transact_lem adapter callback n 0 0
          (TxProducer.publisher library boost uuid adapter callback) [] (omega arith) in
      let same : (0 + n) % 2 ^ 64 ≡ n = omega (arith, fits) in (first, rw same at second)
