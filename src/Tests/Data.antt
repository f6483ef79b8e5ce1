-- ===== src/Tests/Data.antt =====
-- The data of the tests: a platform, a protobuf runtime, a splitter and a client.
use kiteq_client_cpp.Base.{
  ℕ, zero, suc, length, ◌+◌, ◌≡◌, refl, ap, Bool, true, false, List, [], ◌∷◌, ◌++◌, Option, none,
  some, arith, if◌then◌else◌, All,
}
use kiteq_client_cpp.ByteBuf.{Platform, ByteBuf}
use kiteq_client_cpp.Protocol.{Kind, bytes_message, message_store_ack, Codec}
use kiteq_client_cpp.KitePacket.{Header}
use kiteq_client_cpp.Session.{Session}
use kiteq_client_cpp.Commons.HostPort.{Splitter, HostPort}
use kiteq_client_cpp.Remoting.ResponseFuture.{Store}
use kiteq_client_cpp.Remoting.Client.{Client, new_io}

abbrev pub gcc : Platform
gcc = record {
  grow = λ c. c + 1;
  oversize_shift = λ x k. 0;
  lt-grow = λ c. omega arith;
  oversize_shift-lt = λ x k. omega arith;
}

-- A message is its kind and its bytes.
abbrev pub Message : Type 0
Message = Kind × List ℕ

abbrev pub plain_codec : Codec Message
plain_codec = record {
  kind = λ m. m.0;
  IsWhole = λ m. Unit {0};
  serialize = λ m. m.1;
  parse = λ k bs. (k, bs);
  parse-serialize = λ m e. refl;
}

abbrev pub to_first : ℕ → List (List ℕ) → List (List ℕ)
to_first c [] = (c ∷ []) ∷ []
to_first c (t ∷ ts) = (c ∷ t) ∷ ts

abbrev pub split : (ℕ → Bool) → List ℕ → List (List ℕ)
split sep [] = [] ∷ []
split sep (c ∷ cs) = if sep c then [] ∷ split sep cs else to_first c (split sep cs)

pub split_one : (sep : ℕ → Bool) (a : List ℕ) → All (λ c. sep c ≡ false) a → split sep a ≡ a ∷ []
split_one sep [] h = refl
split_one sep (c ∷ cs) h = rw (h.0, split_one sep cs h.1)

pub split_more :
    (sep : ℕ → Bool) (a : List ℕ) (c : ℕ) (rest : List ℕ)
    → All (λ b. sep b ≡ false) a
    → sep c ≡ true
    → split sep (a ++ c ∷ rest) ≡ a ∷ split sep rest
split_more sep [] c rest h e = rw e
split_more sep (b ∷ bs) c rest h e = rw (h.0, split_more sep bs c rest h.1 e)

abbrev pub boost_split : Splitter
boost_split = record { split = split; split_one = split_one; split_more = split_more }

abbrev pub blank : ByteBuf
blank = record { buff = []; capacity = 0; reader_index = 0; writer_index = 0 }

-- The header of a BytesMessage, and one of its replies.
abbrev pub head : Header
head = record { opaque = 7; cmd_type = 0x11; version = 1; extension = 9 }

abbrev pub wide_head : Header
wide_head = record head { extension = 0x100000000 }

abbrev pub body : Message
body = (bytes_message, 65 ∷ 66 ∷ 13 ∷ 10 ∷ [])

abbrev pub ack : Message
ack = (message_store_ack, 1 ∷ [])

abbrev pub store_head : Header
store_head = record { opaque = 7; cmd_type = 0x04; version = 1; extension = 9 }

abbrev pub session_of : {M : Type 0} → Session M
session_of = record {
  read_buffer = [];
  pkglen = record { c0 = 0; c1 = 0; c2 = 0; c3 = 0 };
  pkg = record { header = head; message = none; buff = blank };
}

abbrev pub session : Session Message
session = session_of

abbrev pub local_host : HostPort
local_host = record { host = b'h' ∷ []; port = b'1' ∷ [] }

abbrev pub client_of : {M : Type 0} → ℕ → Store (Option M) → Client M
client_of status futures = record {
  status = status;
  heartbeat = record { has_parent = true; threads = []; stop_count = 3; next_heartbeat_time = 0 };
  futures = futures;
  listeners = (b'h' ∷ b':' ∷ b'1' ∷ [], 42) ∷ [];
  stats = record { read_counter = 0; write_counter = 0 };
  host_port = some local_host;
  session = session_of;
  sent = [];
  group_id = 71 ∷ [];
  secret_key = 83 ∷ [];
  server_url = b'h' ∷ b':' ∷ b'1' ∷ [];
  accepted_topics = [];
  io = new_io;
}

abbrev pub client_in : ℕ → Store (Option Message) → Client Message
client_in = client_of

-- n bytes.
unfoldable pub zeros : ℕ → List ℕ
zeros zero = []
zeros (suc n) = 0 ∷ zeros n

pub length-zeros : (n : ℕ) → length (zeros n) ≡ n
unfolding zeros
length-zeros zero = refl
length-zeros (suc n) = ap suc (length-zeros n)
