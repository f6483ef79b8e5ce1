-- ===== src/Tests/Packets.antt =====
-- The theorems of ByteBuf, KitePacket and Session at concrete inputs.
use kiteq_client_cpp.Base.{
  ℕ, ◌≤◌, ◌≡◌, ◌≢◌, ◌⊎◌, ◌↔◌, refl, true, false, List, [], ◌∷◌, ◌++◌, some, take, drop, All, arith,
  ◌+◌,
}
use kiteq_client_cpp.ByteBuf.{
  empty, read_int, read_long, read_short, read_byte, write_byte, write_short, write_int, write_long,
}
use kiteq_client_cpp.ByteBuf.Fields.{int_bytes}
use kiteq_client_cpp.ByteBuf.Invariant.{IsValid, empty-IsValid, write-IsValid}
use kiteq_client_cpp.Protocol.{Kind, heart_beat}
use kiteq_client_cpp.KitePacket.{
  Header, KitePacket, done, new_packet, to_byte_buf, parse_from, parse_body, slice, sent_bytes,
  delim_packet, kind_of_cmd,
}
use kiteq_client_cpp.KitePacket.Encode.{frame}
use kiteq_client_cpp.KitePacket.Decode.{with_extension}
use kiteq_client_cpp.KitePacket.RoundTrip.{
  IsSendable, parse_from-to_byte_buf, parse_from-wide_extension, parse_from_cases,
}
use kiteq_client_cpp.KitePacket.Delim.{delim_packet-first_crlf}
use kiteq_client_cpp.Session.{read_length, ended, threw, failure, receive_all, packet_length}
use kiteq_client_cpp.Session.Frames.{IsReceivable}
use kiteq_client_cpp.Session.Length.{IsPlain, length_field, packet_length_iff}
use kiteq_client_cpp.Session.Stream.{packets, send_all, receive_all-send_all}
use kiteq_client_cpp.Session.Faults.{frame-throws, frame-oversized}
use kiteq_client_cpp.Commons.HostPort.{to_string}
use kiteq_client_cpp.Remoting.ListenerManager.{get_listener}
use kiteq_client_cpp.Remoting.ResponseFuture.{no_futures}
use kiteq_client_cpp.Remoting.ResponseFuture.Invariant.{no_futures-Inv}
use kiteq_client_cpp.Remoting.Client.{Client, running}
use kiteq_client_cpp.Remoting.Client.Dispatch.{serve, Kept}
use kiteq_client_cpp.Remoting.Client.Delivery.{events, serve-send_all}
use kiteq_client_cpp.Tests.Data.{
  local_host, client_in, gcc, Message, plain_codec, blank, head, wide_head, body, ack, store_head,
  session, zeros, length-zeros,
}

head-IsSendable : IsSendable plain_codec head body
unfolding kind_of_cmd
head-IsSendable = record {
  is_header = record {
    opaque_fits = omega arith;
    cmd_fits = omega arith;
    version_fits = omega arith;
    extension_fits = omega arith;
  };
  whole = tt;
  same_kind = refl;
  short = omega arith;
}

wide-IsSendable : IsSendable plain_codec wide_head body
wide-IsSendable = record {
  is_header = record {
    opaque_fits = omega arith;
    cmd_fits = omega arith;
    version_fits = omega arith;
    extension_fits = omega arith;
  };
  whole = tt;
  same_kind = head-IsSendable.same_kind;
  short = omega arith;
}

store-IsSendable : IsSendable plain_codec store_head ack
unfolding kind_of_cmd
store-IsSendable = record {
  is_header = record {
    opaque_fits = omega arith;
    cmd_fits = omega arith;
    version_fits = omega arith;
    extension_fits = omega arith;
  };
  whole = tt;
  same_kind = refl;
  short = omega arith;
}

abbrev two : List (Header × Message)
two = (head, body) ∷ (store_head, ack) ∷ []

two-IsReceivable : All (λ hm. IsReceivable plain_codec hm.0 hm.1) two
two-IsReceivable = (
  record {
    sendable = head-IsSendable;
    narrow = omega arith;
    within = omega arith;
    plain = omega arith;
  },
  (
    record {
      sendable = store-IsSendable;
      narrow = omega arith;
      within = omega arith;
      plain = omega arith;
    },
    tt,
  ),
)

receive_all-send_all_example :
    (stream : List ℕ) × (send_all gcc plain_codec 1 two ≡ done stream)
    × (receive_all gcc 65536 2 plain_codec 8 session read_length stream
        ≡ (packets blank two, ended (failure 2)))
receive_all-send_all_example =
    receive_all-send_all gcc 65536 2 plain_codec two session two-IsReceivable refl (λ k. refl)
      (omega arith)

parse_from-to_byte_buf_example :
    (r : ℕ × KitePacket Message) × (to_byte_buf gcc plain_codec 1 (new_packet head body) ≡ done r)
    × (parse_from gcc plain_codec session.pkg (drop 4 (sent_bytes r) ++ 5 ∷ []) 23
        ≡ done (true, record { header = head; message = some body; buff = blank }))
parse_from-to_byte_buf_example =
    parse_from-to_byte_buf gcc plain_codec 0 head body session.pkg (5 ∷ []) head-IsSendable
      (omega arith) (λ k. refl)

parse_from-wide_extension_example :
    (r : ℕ × KitePacket Message) × (v : ℕ) × (to_byte_buf gcc plain_codec 1
        (new_packet wide_head body)
      ≡ done r)
    × (parse_from gcc plain_codec session.pkg (drop 4 (sent_bytes r) ++ []) 23
        ≡ done (
          true,
          record { header = with_extension wide_head v; message = some body; buff = blank },
        ))
    × (v ≢ 0x100000000)
parse_from-wide_extension_example =
    parse_from-wide_extension gcc plain_codec 0 wide_head body session.pkg [] wide-IsSendable
      (omega arith)

delim_packet-first_crlf_example : delim_packet (1 ∷ 13 ∷ 10 ∷ 2 ∷ []) 4 ≡ done 3
delim_packet-first_crlf_example = delim_packet-first_crlf (1 ∷ 13 ∷ 10 ∷ 2 ∷ [])

-- A heartbeat whose version is its one byte of body, behind its length field.
abbrev beat : List ℕ
beat = 0 ∷ 0 ∷ 0 ∷ 7 ∷ 1 ∷ 0 ∷ 1 ∷ 0 ∷ 0 ∷ 0 ∷ 0 ∷ 0 ∷ 0 ∷ 0 ∷ 9 ∷ 0 ∷ 0 ∷ 0 ∷ 1 ∷ 33 ∷ []

abbrev beat_packet : KitePacket Message
beat_packet = record {
  header = record { opaque = 7; cmd_type = 1; version = 1; extension = 9 };
  message = some (heart_beat, 33 ∷ []);
  buff = blank;
}

beat_parsed : parse_from gcc plain_codec session.pkg beat 20 ≡ done (true, beat_packet)
unfolding parse_from parse_body slice kind_of_cmd read_int read_long read_short read_byte
beat_parsed = refl

parse_from_cases_example :
    ((true ≡ false) × (beat_packet ≡ session.pkg))
    ⊎ ((n : ℕ) × (k : Kind) × (true ≡ true)
        × (kind_of_cmd 1 ≡ some k)
        × (read_int (drop 15 beat) ≡ some n)
        × (19 + n ≤ 20)
        × (some (heart_beat, 33 ∷ []) ≡ some (plain_codec.parse k (take n (33 ∷ []))))
        × (blank ≡ blank))
parse_from_cases_example =
    parse_from_cases gcc plain_codec session.pkg beat_packet beat 20 true (omega arith) beat_parsed

frame-throws_example :
    receive_all gcc 65536 2 plain_codec 5 session read_length (frame head (zeros 109) ++ [])
    ≡ ([], threw)
frame-throws_example =
    frame-throws gcc 65536 2 plain_codec 3 session head (zeros 109) [] (omega arith)
      (λ p. absurd (omega (arith, p.small0, length-zeros 109)))

frame-oversized_example :
    receive_all gcc 1000000 2 plain_codec 5 session read_length
      (int_bytes 65536 ++ zeros 65536 ++ [])
    ≡ (let later =
          receive_all gcc 1000000 2 plain_codec 2
            (record { read_buffer = zeros 65536; pkglen = length_field 65536; pkg = session.pkg })
            read_length
            [] in
        (session.pkg ∷ later.0, later.1))
frame-oversized_example =
    frame-oversized gcc 1000000 2 plain_codec 2 session 65536 (zeros 65536) [] (length-zeros 65536)
      (omega arith) (omega arith)
      (record { small2 = omega arith; small1 = omega arith; small0 = omega arith }) (omega arith)

packet_length_iff_example : (packet_length (length_field 128) ≡ 128) ↔ IsPlain 128
packet_length_iff_example = packet_length_iff 128 (omega arith)

write-IsValid_example :
    IsValid (write_byte gcc empty 300)
    × IsValid (write_short gcc empty 300)
    × IsValid (write_int gcc empty 300)
    × IsValid (write_long gcc empty 300)
unfolding empty
write-IsValid_example = write-IsValid gcc 300 (omega arith) empty-IsValid

serve-send_all_example :
    (stream : List ℕ) × (c' : Client Message) × (send_all gcc plain_codec 1 two ≡ done stream)
    × (serve 0
          (receive_all gcc 65536 2 plain_codec 8 session read_length stream).0
          (client_in running no_futures)
        ≡ done (
          c',
          events plain_codec
              (get_listener 0 (to_string local_host) (client_in running no_futures).listeners)
              two,
        ))
    × Kept (client_in running no_futures) c' 2
serve-send_all_example =
    serve-send_all plain_codec gcc 65536 2 0 two session (client_in running no_futures) local_host
      two-IsReceivable refl (λ k. refl) (omega arith) no_futures-Inv refl (omega arith)
