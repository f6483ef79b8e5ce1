-- ===== src/Examples/TxProducer.antt =====
-- example/KiteqTxProducer.cpp.
use kiteq_client_cpp.Base.{ℕ, zero, suc, ◌+◌, ◌%◌, ◌^◌, Bool, true, false, List, [], ◌∷◌, some}
use kiteq_client_cpp.KitePacket.{Outcome, done, ◌>>=◌}
use kiteq_client_cpp.Commons.Counter.{new_counter, get_and_increment}
use kiteq_client_cpp.Messages.Header
use kiteq_client_cpp.Messages.StringMessage
use kiteq_client_cpp.Examples.{Boost, KiteClients, on_first, dash}

-- `buildMessage`, with the text of the uuid that it draws.
unfoldable pub build_message :
    Boost → List ℕ → List ℕ → List ℕ → List ℕ → List ℕ → StringMessage.StringMessage
unfolding Header.new_message Header.set_messageid Header.set_topic Header.set_messagetype
    Header.set_expiredtime Header.set_deliverlimit Header.set_groupid Header.set_commit
    Header.set_fly StringMessage.new_message StringMessage.set_body
    StringMessage.set_allocated_header
build_message boost u topic group_id message_type body =
    let h0 = Header.set_messageid (boost.replace_all_copy u dash []) Header.new_message in
    let h1 = Header.set_topic (b't' ∷ b'r' ∷ b'a' ∷ b'd' ∷ b'e' ∷ []) h0 in
    let h2 =
      Header.set_messagetype (b'p' ∷ b'a' ∷ b'y' ∷ b'-' ∷ b's' ∷ b'u' ∷ b'c' ∷ b'c' ∷ []) h1 in
    let h3 = Header.set_expiredtime 1445173857 h2 in
    let h4 = Header.set_deliverlimit 100 h3 in
    let h5 =
      Header.set_groupid
        (b'g' ∷ b'o' ∷ b'-' ∷ b'k' ∷ b'i' ∷ b't' ∷ b'e' ∷ b'-' ∷ b't' ∷ b'e' ∷ b's' ∷ b't' ∷ [])
        h4 in
    let h6 = Header.set_commit false h5 in
    let header = Header.set_fly false h6 in
    let m =
      StringMessage.set_body
        (b'h' ∷ b'e' ∷ b'l' ∷ b'l' ∷ b'o' ∷ b' ' ∷ b'w' ∷ b'o' ∷ b'r' ∷ b'l' ∷ b'd' ∷ [])
        StringMessage.new_message in
    StringMessage.set_allocated_header (some header) m

abbrev zk_addr : List ℕ
zk_addr =
    b'1' ∷ b'2' ∷ b'7' ∷ b'.' ∷ b'0' ∷ b'.' ∷ b'0' ∷ b'.' ∷ b'1' ∷ b':' ∷ b'2' ∷ b'1' ∷ b'8' ∷ b'1'
    ∷ []

abbrev pub group_id : List ℕ
group_id = b's' ∷ b'-' ∷ b'm' ∷ b't' ∷ b's' ∷ b'-' ∷ b't' ∷ b'e' ∷ b's' ∷ b't' ∷ []

abbrev secret_key : List ℕ
secret_key = b'1' ∷ b'2' ∷ b'3' ∷ b'4' ∷ b'5' ∷ b'6' ∷ []

abbrev pub topic : List ℕ
topic = b't' ∷ b'r' ∷ b'a' ∷ b'd' ∷ b'e' ∷ []

abbrev pub message_type : List ℕ
message_type = b'p' ∷ b'a' ∷ b'y' ∷ b'-' ∷ b's' ∷ b'u' ∷ b'c' ∷ b'c' ∷ []

abbrev client_num : ℕ
client_num = 1

-- `testListenerAdapter::onMessage` and `onMessageCheck`, of any message and any response.
unfoldable pub on_message : {M : Type 0} → M → Bool
on_message message = true

unfoldable pub on_message_check : {R : Type 0} → R → Bool
on_message_check response = false

-- `testTxCallback::doTransaction`, with the `commit` of a TxResponse.
unfoldable pub do_transaction : {R : Type 0} → (R → R) → R → R
do_transaction commit tx = commit tx

-- `adapter` and `callback` point to the listener adapter and the transaction's callback.
module _ {C : Type 0} (library : KiteClients C) (boost : Boost) (uuid : ℕ → List ℕ)
    (adapter callback : ℕ) where
  -- One of the clients that `main` makes and starts.
  abbrev pub publisher : C
  publisher = library.start (
      library.set_publish_topics (topic ∷ [])
        (library.new_listening_client zk_addr group_id secret_key adapter))

  -- The loop over the clients.
  unfoldable pub start_clients : ℕ → List C
  start_clients zero = []
  start_clients (suc n) = publisher ∷ start_clients n

  -- The first n rounds of the endless loop that sends, from round i on.
  unfoldable pub transact : ℕ → ℕ → ℕ → List C → Outcome (ℕ × List C)
  unfolding get_and_increment on_first
  transact zero i counter cs = done (counter, cs)
  transact (suc n) i counter cs0 = do
    let r = get_and_increment counter
    let body = boost.lexical_cast (r.0 % 2 ^ 32)
    let message = build_message boost (uuid i) topic group_id message_type body
    cs ← on_first (library.send_tx_message message callback) cs0
    transact n (i + 1) r.1 cs

  -- `main` up to the end of its round number n.
  unfoldable pub main : ℕ → Outcome (ℕ × List C)
  unfolding new_counter
  main n = transact n 0 new_counter (start_clients client_num)
