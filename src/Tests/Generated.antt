-- ===== src/Tests/Generated.antt =====
-- The theorems of `handshake` and `parseFrom` with the generated messages at concrete inputs.
use kiteq_client_cpp.Base.{
  ℕ, ◌+◌, ◌^◌, ◌<◌, ◌≡◌, refl, length, true, false, List, [], ◌∷◌, ◌++◌, none, some, arith,
}
use kiteq_client_cpp.Base.Dict.{nat_eq, find}
use kiteq_client_cpp.Base.Word.{add64}
use kiteq_client_cpp.Protocol.{conn_meta, bytes_message}
use kiteq_client_cpp.KitePacket.{KitePacket, done, kind_of_cmd, parse_from}
use kiteq_client_cpp.KitePacket.Encode.{frame, head_bytes}
use kiteq_client_cpp.KitePacket.Decode.{IsHeader}
use kiteq_client_cpp.KitePacket.Unparsed.{parse_from-blank}
use kiteq_client_cpp.Messages.ConnAuthAck.{ConnAuthAck}
use kiteq_client_cpp.Messages.ConnMeta
use kiteq_client_cpp.Messages.Any.{
  Message, a_conn_meta, a_conn_auth_ack, parse, serialize, is_initialized,
}
use kiteq_client_cpp.Messages.Codec.{generated}
use kiteq_client_cpp.Remoting.ResponseFuture.{request, step, run, no_futures}
use kiteq_client_cpp.Remoting.Heartbeat.{set_next_heartbeat_time, reset}
use kiteq_client_cpp.Remoting.Client.{Client, is_response, running, recovering}
use kiteq_client_cpp.Remoting.Calls.{conn_meta_of, handshake}
use kiteq_client_cpp.Remoting.Calls.Replies.{taking}
use kiteq_client_cpp.Remoting.Calls.Handshake.{handshake-conn_meta}
use kiteq_client_cpp.Tests.Data.{gcc, blank, head, client_of}
use kiteq_client_cpp.Tests.Messages.{one_byte}

abbrev welcome : ConnAuthAck
welcome = record {
  status = true;
  has_status = true;
  feedback = [];
  has_feedback = true;
  unknown_fields = [];
}

-- The pointer cast, which reads another message as one that says no.
abbrev cast_ack : Message → ConnAuthAck
cast_ack (a_conn_auth_ack a) = a
cast_ack m = record welcome { status = false }

abbrev caller : Client Message
caller = client_of recovering no_futures

nobody_waits : find head.opaque caller.futures.future_map ≡ none
unfolding no_futures
nobody_waits = refl

short_meta : length (serialize one_byte (a_conn_meta (conn_meta_of caller))) + 24 < 2 ^ 31
unfolding serialize conn_meta_of ConnMeta.new_message ConnMeta.set_groupid ConnMeta.set_secretkey
short_meta = omega arith

abbrev welcome_packet : KitePacket Message
welcome_packet = record {
  header = record head { cmd_type = 0x03 };
  message = some (a_conn_auth_ack welcome);
  buff = blank;
}

abbrev asks_too : Client Message → Client Message
asks_too c = record c { futures = step (request 3) c.futures }

abbrev nothing : Client Message → Client Message
nothing c = c

is_welcome : is_response welcome_packet.header.cmd_type ≡ true
unfolding is_response
is_welcome = refl

handshake-conn_meta_example :
    (body : List ℕ) × (meta : ConnMeta.ConnMeta) × (c' : Client Message) × (handshake gcc
        (generated one_byte)
        a_conn_meta
        (λ m. (cast_ack m).status)
        head
        (taking 0 welcome_packet asks_too nothing)
        1000
        caller
      ≡ done (true, c'))
    × (c'.status ≡ running)
    × (c'.heartbeat ≡ set_next_heartbeat_time (add64 1000 3000) (reset caller.heartbeat))
    × (c'.sent ≡ [] ++ frame head body)
    × (parse one_byte conn_meta body ≡ a_conn_meta meta)
    × (meta.groupid ≡ 71 ∷ [])
    × (meta.secretkey ≡ 83 ∷ [])
    × (meta.has_warmingupsec ≡ false)
unfolding run no_futures
handshake-conn_meta_example =
    handshake-conn_meta one_byte gcc cast_ack 0 [] (request 3 ∷ []) [] asks_too nothing
      welcome_packet welcome head 1000 caller (λ a. refl) (omega arith) (omega arith) short_meta
      refl nobody_waits (λ x. refl) (λ x. refl) (λ x. refl) (tt, tt) is_welcome refl refl

head-IsHeader : IsHeader head
head-IsHeader = record {
  opaque_fits = omega arith;
  cmd_fits = omega arith;
  version_fits = omega arith;
  extension_fits = omega arith;
}

bytes_known : kind_of_cmd head.cmd_type ≡ some bytes_message
unfolding kind_of_cmd
bytes_known = refl

abbrev waiting_packet : KitePacket Message
waiting_packet = record { header = head; message = none; buff = blank }

parse_from-blank_example :
    (m : Message) × (parse_from gcc (generated one_byte) waiting_packet (head_bytes head 0 ++ []) 19
      ≡ done (true, record waiting_packet { header = head; message = some m }))
    × (is_initialized m ≡ false)
parse_from-blank_example =
    parse_from-blank one_byte gcc waiting_packet head bytes_message [] head-IsHeader (omega arith)
      bytes_known (λ i. refl)
