-- ===== src/Lib.antt =====
-- The KiteQ client for C++: a verification library for its own code, from the byte buffer up to
-- the client that connects, sends, waits for responses and calls its listener, and the programs
-- that use it.
--
-- A client owns a session on a socket. `send` and its siblings encode a message into a packet
-- (KitePacket, on a ByteBuf) and hand the bytes to the session; the session reads a length and then
-- a packet, decodes it, and calls `handle_read_pkg`, which gives responses to the futures that wait
-- (ResponseFuture) and messages to a listener (ListenerManager). A heartbeat thread sends while the
-- client runs and counts what was missed. Counters hold the client's status and its statistics.
--
--   ByteBuf         commons/ByteBuf.hpp: the record `ByteBuf` and a function for each method
--                   (writeInt is write_int, the static readInt read_int, the member readInt
--                   next_int). Fields, Long: what is written and read; Invariant, Appends: the
--                   indices and the capacity.
--   Protocol        protocol/protocol.h: the constants; the kinds of messages; the record `Codec` of
--                   what the packet code relies on of the messages.
--   Messages        protocol/protobuf/generated/kite_remoting.pb.cc: a module for each class, with a
--                   child Whole on the messages that are parsed back and a child Copy; the loop of
--                   their parsers (Loop, Reads, Fields), messages within messages (Nested, Headed),
--                   the eight classes that travel in a packet as one type (Any), and proofs on all
--                   of them: the Codec that they are (Codec), and their copies (Copies).
--   KitePacket      protocol/KitePacket.cpp: toByteBuf, parseFrom, delimPacket. Encode, Decode,
--                   RoundTrip, Delim, Unparsed, Outcomes: proofs.
--   Session         remoting/inc/asioSession.hpp: each completion handler is a function from the
--                   session to the session and its next action; `conn_step` and `receive_all` run
--                   them on the bytes that the peer sends. Length, Frames, Stream, Faults: proofs.
--   Commons         commons/Counter.hpp and KiteStats.hpp (Counter), AtomicInteger.hpp (Atomic),
--                   ConcurrentMap.hpp, ConcurrentSet.hpp, HostPort.hpp, ThreadPoolManager.hpp.
--   Remoting        remoting/ListenerManager.cpp, ResponseFuture.cpp, KiteIOClient.h (the interface,
--                   KiteIoClient), and asioKiteIOClient.cpp: its class Heartbeat (Heartbeat), the
--                   handlers, the constructor and close (Client), the methods that send and wait,
--                   handshake and the heartbeat's thread (Calls), start and reconnect (Connect), and
--                   the steps of all its threads as a relation (Machine).
--   Examples        example/: the two producers and the consumer; Orders, Rounds, Arrival: proofs
--                   on the messages that they build and where these arrive.
--   Base            shared names, words of 32 and 64 bits, bitwise operators, maps.
--   Tests           concrete data, and the theorems at concrete inputs.
--
-- Numbers are bit patterns: a `char` is below 2^8, an `int` below 2^32, a `long` below 2^64, with
-- sign extension and wrap-around written out for an LP64 machine on which `char` is signed. A
-- section under a lock is one step; what other threads do between two steps is an argument: of
-- `start` and `reconnect` what they do while an attempt sleeps, and of the methods that wait what
-- they do until the wait is over, the handler that brings the response included. In `Machine` a
-- handler may act after `close`, since the io service does not wait for one that has begun, and
-- other clients act on the futures, the listeners and the statistics, which are static.
--
-- What is not in the repository is a parameter: `Platform` (the growth of a vector, and the
-- value of shifts that C++ leaves undefined), `Codec` in the packet's and the client's code,
-- `Wire` (the protobuf runtime's primitives), `Splitter` and `Boost` (boost's algorithms on
-- texts), `Pools` (its thread pools), `KiteClients` (the library that the examples use), the
-- header that the base class KitePacketHeader makes, the clock, the sizes of asio's buffers and
-- its error code for the end of a stream. A read out of bounds and a null pointer are the
-- outcome `fault`.
--
-- Fuel: `to_byte_buf` takes rounds of its loop, and one is enough for a fresh packet;
-- `receive_all` takes steps, three for each frame and two for the end; `connect_loop` takes
-- attempts, and the code itself stops after ten; the messages' parsers take a round for each byte
-- of the input and one for the end, and are given as many; the loops that retry a compareAndSet
-- take a list of what comes in between.
--
-- Not modelled: the copy of cJSON, which nothing calls; an exception type that nothing throws;
-- putIfAbsent of ConcurrentSet, which does not compile; a listener that is null; the insides of the
-- io service, its resolver and its socket, and of threads; Swap, release and the descriptors of the
-- protobuf classes; the printing and the sleeps.
pub mod Base
pub mod ByteBuf
pub mod Protocol
pub mod Messages
pub mod KitePacket
pub mod Session
pub mod Commons
pub mod Remoting
pub mod Examples
pub mod Tests
