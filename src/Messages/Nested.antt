-- ===== src/Messages/Nested.antt =====
-- protocol/protobuf/generated/kite_remoting.pb.cc: a message within a message is read back.
use kiteq_client_cpp.Base.{ℕ, suc, ◌^◌, ◌<◌, ◌≡◌, Bool, true, List, ◌++◌, Option, some, length}
use kiteq_client_cpp.Messages.{Wire, field, read_message_into}

pub read_message_into_lem :
    {A S : Type 0} (w : Wire) (merge : ℕ → List ℕ → S → Option (Bool × S))
    (consumes : ℕ → List ℕ → S → Bool) (sub sub' : S) (set : S → A) (bytes rest : List ℕ)
    → length bytes < 2 ^ 31
    → merge (suc (length bytes)) bytes sub ≡ some (true, sub')
    → consumes (suc (length bytes)) bytes sub ≡ true
    → read_message_into w merge consumes sub set (w.write_delimited (length bytes) bytes ++ rest)
      ≡ field (set sub') rest
unfolding read_message_into
read_message_into_lem w merge consumes sub sub' set bytes rest fits merged all =
    rw (w.read-write_message bytes rest fits, read_message_into) (rw (merged, all))
