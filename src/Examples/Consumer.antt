-- ===== src/Examples/Consumer.antt =====
-- example/KiteqConsumer.cpp.
use kiteq_client_cpp.Base.{ℕ, zero, suc, Bool, true, List, [], ◌∷◌}
use kiteq_client_cpp.Base.Word.{add32}
use kiteq_client_cpp.Examples.{KiteClients}

-- `testListenerAdapter::onMessage` of any message, and the adapter's count of them, an int.
unfoldable pub on_message : {M : Type 0} → M → ℕ → Bool × ℕ
on_message message i = (true, add32 i 1)

abbrev zk_addr : List ℕ
zk_addr =
    b'1' ∷ b'7' ∷ b'2' ∷ b'.' ∷ b'1' ∷ b'6' ∷ b'.' ∷ b'1' ∷ b'.' ∷ b'9' ∷ b'6' ∷ b':' ∷ b'2' ∷ b'1'
    ∷ b'8' ∷ b'1' ∷ []

abbrev group_id : List ℕ
group_id = b's' ∷ b'-' ∷ b'm' ∷ b't' ∷ b's' ∷ b'-' ∷ b't' ∷ b'e' ∷ b's' ∷ b't' ∷ []

abbrev secret_key : List ℕ
secret_key = b'1' ∷ b'2' ∷ b'3' ∷ b'4' ∷ b'5' ∷ b'6' ∷ []

abbrev topic : List ℕ
topic = b't' ∷ b'r' ∷ b'a' ∷ b'd' ∷ b'e' ∷ []

abbrev message_type : List ℕ
message_type = b'p' ∷ b'a' ∷ b'y' ∷ b'-' ∷ b's' ∷ b'u' ∷ b'c' ∷ b'c' ∷ []

abbrev client_num : ℕ
client_num = 1

-- `adapter` points to the listener adapter.
module _ {C : Type 0} (library : KiteClients C) (adapter : ℕ) where
  -- The loop over the clients.
  unfoldable pub start_clients : List ℕ → ℕ → List C
  start_clients bindings zero = []
  start_clients bindings (suc n) =
      let client = library.new_listening_client zk_addr group_id secret_key adapter in
      library.start (library.set_bindings bindings client) ∷ start_clients bindings n

  -- `main` up to its endless sleep.
  unfoldable pub main : List C
  unfolding start_clients
  main =
      let bindings = library.bind_direct group_id topic message_type 1000 true ∷ [] in
      start_clients bindings client_num
