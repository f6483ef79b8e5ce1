-- ===== src/Examples.antt =====
-- example/: the programs that use the client, and what they use that is not in the repository: boost,
-- and the library of clients (DefaultKiteClient, ClientConfigs, ListenerAdapter, TxCallback, Binding).
pub mod Producer
pub mod TxProducer
pub mod Consumer
pub mod Orders
pub mod Rounds
pub mod Arrival
use kiteq_client_cpp.Base.{ℕ, ◌≤◌, Bool, List, [], ◌∷◌, length}
use kiteq_client_cpp.KitePacket.{Outcome, done, fault}
use kiteq_client_cpp.Messages.StringMessage.{StringMessage}

-- `replace_all_copy` of a text, of what and by what, and `lexical_cast<string>` of an `int`. To replace
-- by nothing makes no text longer.
pub record Boost : Type 0 where
  pub replace_all_copy : List ℕ → List ℕ → List ℕ → List ℕ
  pub lexical_cast : ℕ → List ℕ
  pub length-replace_all_copy :
      (text search : List ℕ) → length (replace_all_copy text search []) ≤ length text

-- A `KiteClient` with what it points to. The constructors take the address of the ZooKeeper, the
-- group and the secret key of the ClientConfigs, and the second one a pointer to a listener adapter.
-- Bindings and callbacks are pointers, too.
pub record KiteClients (C : Type 0) : Type 0 where
  pub new_kite_client : List ℕ → List ℕ → List ℕ → C
  pub new_listening_client : List ℕ → List ℕ → List ℕ → ℕ → C
  pub set_publish_topics : List (List ℕ) → C → C
  pub set_bindings : List ℕ → C → C
  pub start : C → C
  pub send_string_message : StringMessage → C → C
  pub send_tx_message : StringMessage → ℕ → C → C
  pub bind_direct : List ℕ → List ℕ → List ℕ → ℕ → Bool → ℕ

-- A call of `clients[0]`; there is a null pointer if there is no client.
unfoldable pub on_first : {C : Type 0} → (C → C) → List C → Outcome (List C)
on_first call [] = fault
on_first call (c ∷ cs) = done (call c ∷ cs)

-- "-".
abbrev pub dash : List ℕ
dash = b'-' ∷ []
