-- ===== src/Lib.antt =====
-- The shared backend of the Pocket Relay clients: a library of local servers that the game talks to,
-- and of tunnels that carry the packets of the game to the Pocket Relay server.
--
-- The program's parts. A redirector, a telemetry, a quality of service, an HTTP and a Blaze server
-- accept connections of the game; each accepted connection is a task (`src/servers/mod.rs`). The
-- redirector frames its packets with the codec of `src/fire.rs`. A tunnel service makes a connection to
-- the server, over an upgraded HTTP stream framed by a codec (`src/servers/tunnel.rs`) or over UDP after
-- a handshake (`src/servers/udp_tunnel.rs`), and runs a future that moves messages between it and a pool
-- of local UDP sockets, each of which is a future too. `src/api.rs` looks up the server and makes the
-- HTTP requests.
--
-- Which file models which part:
-- - Prelude and the files below it: numbers, lists, bytes, texts, and `Outcome`, a value or a panic.
-- - Framing: the loop of `Framed` of tokio_util around a `Decoder`, as a relation; the codecs' proofs
--   give it an instance of `Resumes` each. Framing.Outcomes: streams, as lists of chunks up to the bytes.
-- - Fire: `src/fire.rs`. Fire.decode and Fire.encode are the methods of `FireCodec`; Fire.response_raw,
--   respond and response_empty are the constructors of responses.
-- - Tunnel.Codec: the module `codec` of `src/servers/tunnel.rs`.
-- - Polling: `Poll`, scripts of answers, and the ways in which a poll ends.
-- - Tunnel.Relay: the future `Tunnel` of `src/servers/tunnel.rs`, with the names of its methods; a match
--   arm of `poll_write_state` is a definition of its own.
-- - Tunnel.Socket: the future `Socket` of `src/servers/tunnel.rs`, for any type of messages; poll_socket is
--   the one with its own. UdpTunnel.Socket: the future `Socket` of `src/servers/udp_tunnel.rs`, written out from
--   that file on the same states and scripts, and Agreement the two against each other.
-- - Reconnect: the loop that `start_tunnel_server` and `start_udp_tunnel_server` share; Tunnel.Service
--   and UdpTunnel.Service are these functions with their `create_tunnel`.
-- - UdpTunnel.Message: the interface of the crate pocket_relay_udp_tunnel. UdpTunnel.Handshake: the
--   handshake with its retries. UdpTunnel.Relay: the future `Tunnel` of `src/servers/udp_tunnel.rs`,
--   with its state and scripts in Scripts; Walk is the way of one poll through its parts, for any property
--   that these keep.
-- - Telemetry: `src/servers/telemetry.rs`. Tasks: `src/servers/mod.rs`, and Tasks.Calls its calls at the same
--   time, by steps. Qos: `src/servers/qos.rs`. Redirector: `src/servers/redirector.rs`, and Redirector.Wire that with the codec at both ends. Http:
--   `src/servers/http.rs`, with `proxy_http_request` of `src/api.rs`. Api: `lookup_server` of `src/api.rs`.
-- - Tunnel.Pool: `Socket::allocate_pool` and `Socket::start` of both files; an event is the end of a wait
--   of one of the four sockets. Tunnel.Session: `create_tunnel` of `src/servers/tunnel.rs` with the
--   request, the pool and the future in place, where an arrival is what the environment adds between two
--   polls.
--   UdpTunnel.Session is that of `src/servers/udp_tunnel.rs`, in the same way.
--   Tunnel.Service.Sessions and UdpTunnel.Service.Sessions are the services around these; Reconnect.Sessions
--   is the loop that both share, where an attempt may be going on.
-- - Tunnel.System: a tunnel with the four sockets of its pool and the channels between them; a turn is a
--   poll of one of the five futures. Tunnel.System.Fifo reads it as a pair of queues for each socket,
--   and Tunnel.System.Wire adds the codec.
--   UdpTunnel.System is the system of `src/servers/udp_tunnel.rs`, and UdpTunnel.System.Fifo its reading as
--   queues, where Sublists is what a keep-alive takes away.
-- - Context: `src/ctx.rs`; the minimum version of `src/lib.rs` is in Api.
-- - Api.Requests: the other requests of `src/api.rs`. Blaze: `handle` of `src/servers/blaze.rs`. Listeners:
--   the accept loops of the servers. Update: `src/update.rs`.
-- - Qos.Calls: `public_address` of `src/servers/qos.rs` by steps, for calls that run at the same time.
-- - Tests: runs on concrete inputs. Tests.KnownData: the unit tests of `src/servers/telemetry.rs`.
--
-- State. A Rust value that a method changes is an argument and a part of the result. What the
-- environment does (the network, channels, the clock) is a script of answers or a function argument, and
-- a theorem for every script holds for every environment; what the program does to the environment is
-- kept in the state, as the list of messages sent, delivered and taken.
--
-- Bounds and fuel. Bytes are numbers below 256 and words numbers below 2 ^ 16; the wrap-around of
-- a cast or a shift is written out. The loops of `Future::poll` and of the telemetry task run on
-- fuel: each round uses up an answer of a script or twelve bytes of the stream, so that fuel above
-- their number is enough. Tunnel.Session, UdpTunnel.Session, Tunnel.System and UdpTunnel.System give
-- each poll that fuel. The reconnect loop runs for as many attempts as the fuel says, and is then still
-- running. The handshake has fuel for seven rounds, of which it makes six at most.
--
-- Not modelled: the server of hyper; the copying of bytes between the streams of a linked game; the
-- logging. Of the tasks that run at the same time, the sockets of a pool while they start, the calls
-- that share the cache of the public address, and a tunnel of either kind with the sockets of its pool,
-- are modelled with their interleavings; a future is polled by one task. The calls that spawn and stop
-- tasks are modelled with their interleavings in Tasks.Calls, where the lock is held for the push and for
-- the taking of the collection; elsewhere such a call is one step, which leaves out others at its time. In
-- Tunnel.System and UdpTunnel.System a run is cut at the end of the first future: the program ends the task
-- of that future alone, and what the others do from there on is not modelled.
pub mod Prelude
pub mod Framing
pub mod Fire
pub mod Polling
pub mod Reconnect
pub mod Tunnel
pub mod UdpTunnel
pub mod Telemetry
pub mod Tasks
pub mod Qos
pub mod Redirector
pub mod Api
pub mod Blaze
pub mod Http
pub mod Context
pub mod Listeners
pub mod Update
pub mod Tests
