-- ===== src/Examples/Producer.antt =====
-- example/KiteqProducer.cpp.
use kiteq_client_cpp.Base.{ℕ, zero, suc, ◌+◌, ◌%◌, ◌^◌, true, false, List, [], ◌∷◌, some}
use kiteq_client_cpp.KitePacket.{Outcome, done, ◌>>=◌}
use kiteq_client_cpp.Commons.Counter.{new_counter, get_and_increment}
use kiteq_client_cpp.Messages.Header
use kiteq_client_cpp.Messages.StringMessage
use kiteq_client_cpp.Examples.{Boost, KiteClients, on_first, dash}

-- `buildMessage`, with the text of the uuid that it draws.
unfoldable pub build_message :
    Boost → List ℕ → List ℕ → List ℕ → List ℕ → List ℕ → StringMessage.StringMessage
unfolding Header.new_message Header.set_messageid Header.set_topic Header.set_messagetype
    Header.set_expiredtime Header.set_deliverlimit Header.set_groupid Header.set_commit
    Header.set_fly StringMessage.new_message StringMessage.set_body
    StringMessage.set_allocated_header
build_message boost u topic group_id message_type body =
    let h0 = Header.set_messageid (boost.replace_all_copy u dash []) Header.new_message in
    let h1 = Header.set_topic (b't' ∷ b'r' ∷ b'a' ∷ b'd' ∷ b'e' ∷ []) h0 in
    let h2 =
      Header.set_messagetype (b'p' ∷ b'a' ∷ b'y' ∷ b'-' ∷ b's' ∷ b'u' ∷ b'c' ∷ b'c' ∷ []) h1 in
    let h3 = Header.set_expiredtime 1845173857 h2 in
    let h4 = Header.set_deliverlimit 100 h3 in
    let h5 =
      Header.set_groupid
        (b'g' ∷ b'o' ∷ b'-' ∷ b'k' ∷ b'i' ∷ b't' ∷ b'e' ∷ b'-' ∷ b't' ∷ b'e' ∷ b's' ∷ b't' ∷ [])
        h4 in
    let h6 = Header.set_commit true h5 in
    let header = Header.set_fly false h6 in
    let m =
      StringMessage.set_body
        (b'h' ∷ b'e' ∷ b'l' ∷ b'l' ∷ b'o' ∷ b' ' ∷ b'w' ∷ b'o' ∷ b'r' ∷ b'l' ∷ b'd' ∷ [])
        StringMessage.new_message in
    StringMessage.set_allocated_header (some header) m

abbrev zk_addr : List ℕ
zk_addr =
    b'1' ∷ b'7' ∷ b'2' ∷ b'.' ∷ b'1' ∷ b'6' ∷ b'.' ∷ b'1' ∷ b'.' ∷ b'9' ∷ b'6' ∷ b':' ∷ b'2' ∷ b'1'
    ∷ b'8' ∷ b'1' ∷ []

abbrev pub group_id : List ℕ
group_id = b'p' ∷ b'r' ∷ b'o' ∷ b'-' ∷ b'm' ∷ b't' ∷ b's' ∷ b'-' ∷ b't' ∷ b'e' ∷ b's' ∷ b't' ∷ []

abbrev secret_key : List ℕ
secret_key = b'1' ∷ b'2' ∷ b'3' ∷ b'4' ∷ b'5' ∷ b'6' ∷ []

abbrev pub topic : List ℕ
topic = b't' ∷ b'r' ∷ b'a' ∷ b'd' ∷ b'e' ∷ []

abbrev pub message_type : List ℕ
message_type = b'p' ∷ b'a' ∷ b'y' ∷ b'-' ∷ b's' ∷ b'u' ∷ b'c' ∷ b'c' ∷ []

abbrev client_num : ℕ
client_num = 1

module _ {C : Type 0} (library : KiteClients C) (boost : Boost) (uuid : ℕ → List ℕ) where
  -- One of the clients that `main` makes and starts.
  abbrev pub publisher : C
  publisher = library.start (
      library.set_publish_topics (topic ∷ []) (library.new_kite_client zk_addr group_id secret_key))

  -- The loop over the clients.
  unfoldable pub start_clients : ℕ → List C
  start_clients zero = []
  start_clients (suc n) = publisher ∷ start_clients n

  -- The loop that sends: n rounds from round i on, with the counter `UID`. The numbers of a Counter
  -- are longs, and `uid` is an int.
  unfoldable pub produce : ℕ → ℕ → ℕ → List C → Outcome (ℕ × List C)
  unfolding get_and_increment on_first
  produce zero i counter cs = done (counter, cs)
  produce (suc n) i counter cs0 = do
    let r = get_and_increment counter
    let body = boost.lexical_cast (r.0 % 2 ^ 32)
    let message = build_message boost (uuid i) topic group_id message_type body
    cs ← on_first (library.send_string_message message) cs0
    produce n (i + 1) r.1 cs

  -- `main` up to its endless sleep: the counter and the clients.
  unfoldable pub main : Outcome (ℕ × List C)
  unfolding new_counter
  main = produce 10000 0 new_counter (start_clients client_num)
