-- ===== src/Lib.antt =====
-- msg801, a TCP tunnel and relay in C++ (lib/src, lib/include/msg801, cli/src).
--
-- A tunnel node listens on a local address and forwards each connection to a remote one. On the
-- way the bytes go through a chain of processors, which encrypt, authenticate or pad them; a second
-- node with `--reverse=1` and the same `--processor` arguments undoes that. Each connection is a
-- session of two coroutines, one for each direction, which share the chain. The relay lets two nodes
-- that cannot be reached from outside talk through a server, which passes their frames on.
--
-- Parts and files:
--   Bytes.antt               lib/include/msg801/byte_types.hpp, shifts and xor on bytes
--   Random.antt              the engine and the distributions of <random>, a parameter
--   Crypto.antt              RAND_bytes, HMAC and SHA-512 of OpenSSL, a parameter
--   Tunnel/Stream.antt       DataBuffer of processor.hpp, what a pair of processors promises, and
--                            a connection that TCP may cut anywhere
--   Tunnel/Text.antt         the string operations of the standard library that the code calls
--   Tunnel/Cfb.antt          CfbProcessor of lib/src/cfb.cpp
--   Tunnel/Nonce.antt        CfbNonceProcessor of lib/src/cfb.cpp
--   Tunnel/Padding.antt      PaddingProcessor of lib/src/padding.cpp
--   Tunnel/Processor.antt    Processor of lib/include/msg801/tunnel/processor.hpp, lib/src/identity.cpp
--   Tunnel/Chain.antt        ProcessorChain of lib/src/processor_chain.cpp
--   Tunnel/Config.antt       split to build_processor_chain of lib/src/tunnel.cpp
--   Tunnel/Session.antt      SessionState, read_local, read_remote and start_session of
--                            lib/src/tunnel.cpp
--   Tunnel/Launch.antt       run_tunnel and do_accept of lib/src/tunnel.cpp
--   Tunnel/Statistics.antt   stat_loop of lib/src/tunnel.cpp
--   Tunnel/TwoHop.antt       two nodes and the connection between them
--   Relay/Frame.antt         the frames of lib/src/relay.cpp
--   Relay/Server.antt        the registration of nodes in run_server of lib/src/relay.cpp
--   Relay/Pump.antt          pump_one_way of lib/src/relay.cpp
--   Relay/Pair.antt          the two coroutines pump_one_way of a pair of lib/src/relay.cpp
--   Relay/Uuid.antt          generate_uuid of lib/src/relay.cpp
--   Relay/Writes.antt        aconn_write of lib/src/relay.cpp
--   Relay/Node.antt          run_node of lib/src/relay.cpp
--   Relay/Talk.antt          the frames that a node sends for one session
--   Relay/Visitor.antt       run_visitor of lib/src/relay.cpp; Visitor/Client.antt has ClientSession
--                            and the coroutine of a client
--   Relay/Provider.antt      run_provider of lib/src/relay.cpp; Provider/Task.antt has SessionState and
--                            the coroutine of a session
--   Relay/Across.antt        the visitor, the server and the provider with one session
--   Cli.antt                 main of cli/src/main.cpp behind the parser
--   Examples                 tests, and the theorems at concrete inputs
--
-- Conventions. A function that may throw returns a Result, whose third constructor stands for a loop
-- that does not end. Output buffers that a function appends are part of what it returns. State that
-- an exception leaves half changed is dropped with the exception: the session that catches it closes
-- both sockets, so that what the chain might put out afterwards is not written. `size_t` has 64 bits.
--
-- Loops on fuel. `unpack_loop` gets a round for each byte and one more, and a frame has eight bytes or
-- more. `pack_loop` gets a round for each byte, and each round takes one or more unless the chunk
-- size is 0. `pump_loop` gets a round for each byte and one more, and a frame that it passes on has
-- five bytes or more. The loop that extends a short cipher key gets eight rounds and stops at eight
-- bytes.
--
-- Sessions. A coroutine runs without a break between two awaits, so an event is the completion of
-- what one of the two awaits, and any order of such events is a run. `local_half` and `remote_half`
-- hold what `read_local` and `read_remote` keep each for itself. A read is cancelled only by closing
-- its socket. A write that throws has written any number of the bytes of its buffer: `cut` holds them,
-- and `written` the buffers of the writes that ended well.
--
-- Relay. `read_frame` is a function of the bytes that a socket still brings before it ends or fails,
-- since a read of a fixed size gives nothing until all of it is there. `Pump` is one direction of a
-- pair, down to the bytes, while the other does nothing; `Pair` is both directions, frame by frame. A
-- write to a closed socket throws.
--
-- The nodes. A shared_ptr to a session is a number in a store that the map of the sessions, the loop
-- over the frames and the coroutines share; `closed` and the flags of the half-closes are read and
-- written through it, and entries are erased under an identifier. Each coroutine stands at what it
-- awaits, an event is a completion for one of them, and an event that nothing awaits changes nothing.
-- `sent`, `received` and `written` record what has passed, and the code reads none of them: `sent` has
-- every frame that is handed to `aconn_write` for a session, SESSION_CLOSE of the visitor's loop over the
-- frames among them, and `written` the bytes of the writes that ended well. The error of a read comes
-- with the bytes that its count tells of, and without any it is taken for the end of the file. Using a
-- reference into the map behind the end of its entry leads to a state of its own, `undefined`, which
-- is left no more. The coroutine of a client begins with an event behind `co_spawn`. `aconn_write`
-- throws nothing and is taken as whole there; Relay/Writes.antt has the writes that it is made of.
--
-- Starting. The specifications of a tunnel are checked by building a chain and dropping it; each
-- accepted connection builds its own. `make_address` and the opening of an acceptor are parameters.
--
-- Not modelled: the UDP sender and server, which are calls of sockets; the options
-- and the help of the command line, which are calls of CLI11; log lines. The rates of the statistics
-- are kept as a difference and a time, since they are divided in floating point. spdlog and CLI11 are
-- vendored libraries.
pub mod Bytes
pub mod Cli
pub mod Crypto
pub mod Examples
pub mod Prelude
pub mod Random
pub mod Relay
pub mod Tunnel
