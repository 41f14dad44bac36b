-- ===== src/Lib.antt =====
-- InputSync (crates/) shares one keyboard and mouse between machines. The server is the machine
-- whose keyboard and mouse are shared; it captures input, and its edge detector decides whether an
-- event stays or goes to a client, which injects it. Machines talk in frames over QUIC streams.
--
-- Files, and the code that they model:
--
-- Prelude: lists and tests over the native numbers, and signed 32-bit integers.
-- Core: crates/core (ids, screens, events, modifier sets, errors).
-- Protocol.Header, Protocol.Message, Protocol.Codec: crates/protocol (header.rs, message.rs,
--   codec.rs). A byte is a number below 256. bincode is the parameter `Bincode`; `RoundTrips` is the
--   hypothesis that it reads back what it wrote.
-- Protocol.Stream: crates/network/src/stream.rs, and the loops of crates/network/src/peer_loop.rs.
--   A stream is the list of bytes to be read. `read_loop` takes fuel; each round consumes a header
--   at least, so a fuel above the length of the stream is enough.
-- Routing.Edge: crates/daemon/src/edge.rs. A method returns the new detector.
-- Routing.Session: crates/daemon/src/session.rs, the server's handlers `drain_capture`,
--   `apply_decision` and `handle_peer_events_server`, as steps on the state that they share; what
--   they do to peers, cursor and capture flag is a list of effects. A send whose result the code
--   drops is the attempt. Handlers run one at a time, in any order.
-- Routing.Inbound: `inbound_loop` and `resync_modifiers` of session.rs, messages to actions.
-- Transfer.Paths, Transfer.Receiver, Transfer.Sender: crates/filetransfer/src/lib.rs and the chunk
--   loop of crates/daemon/src/filetransfer_mgr.rs. tokio::fs and blake3 are the parameters
--   `FileSystem` and `Blake3`; `Appends` and `Incremental` are what is relied on. A path is a list
--   of names, as std::path reads it on Unix. The reads of a file are a list of byte strings.
-- Clipboard: the registry and the stub backend of crates/clipboard/src/lib.rs, and the poll loop
--   and the message handler of crates/daemon/src/clipboard_mgr.rs over any backend.
-- Platform.LinuxInject: crates/platform/src/linux/inject.rs, from events to evdev batches; the
--   device is a parameter.
-- Network.Handshake, Network.Supervisor: the handshakes of crates/network/src/server.rs and
--   client.rs on messages, and the supervisor of client.rs with the peers that
--   crates/daemon/src/app.rs tracks.
-- Network.Tls: crates/network/src/tls.rs, the stored identity (`load_or_generate`) and the
--   verifier of pinned fingerprints; the hash, the generator and the file system are parameters.
--   Core.Files is the file system of the daemon and the window, with the laws of std::fs that are
--   relied on (`FileLaws`).
-- Core.Config: crates/core/src/config.rs; the toml crate is the parameter `Toml`.
-- Daemon.Lifecycle: `start_server` and `stop_server` of crates/daemon/src/app.rs and the requests
--   of crates/daemon/src/ipc_server.rs that reach them; what binding an endpoint gives is an input.
-- Daemon.Requests: every request of ipc_server.rs, on the state of Lifecycle and what stands
--   beside it in `DaemonState`; a spawned task is the list of what it dispatches. `Daemon.Startup`:
--   `run` of app.rs up to its tasks, and `init_config`. Daemon.Heartbeat:
--   crates/daemon/src/heartbeat.rs, by the clock at its ticks.
-- Daemon.Main: the commands of crates/daemon/src/main.rs, behind clap, with `print_fingerprint`.
-- Ipc.Transport: crates/ipc/src/transport.rs, lines of JSON over bytes, and a client's
--   conversation with the loop of ipc_server.rs; serde_json is the parameter `Json`. Daemon.Socket:
--   `handle_request` of ipc_server.rs at the end of those lines.
-- Platform.WindowsKeymap, Platform.WindowsCapture, Platform.WindowsInject, Platform.Screens:
--   crates/platform/src/windows (keymap.rs, capture.rs, inject.rs, mod.rs, monitor.rs). The values
--   of the windows crate's constants are parameters; so are the system's answers. A run of the drain
--   thread is the list of its rounds, each with the capture flag as it is then.
-- Gui: crates/gui/src/daemon.rs (the supervisor of the daemon's process) and
--   crates/gui/src/main.rs but for its widgets; Gui.Window is a frame of the window, with the clicks
--   in it as an input. Processes are numbers; a moment is the clock with what the system would
--   answer.
-- Cli: crates/cli/src/main.rs, the requests of the commands and what is printed. Platform.Idle:
--   the backends of crates/platform that capture or inject nothing (linux/mod.rs, stub.rs).
-- Routing.Client: `handle_peer_events_client` of session.rs.
-- Routing.Cable: the server's session, the wire and the client's session together, against the
--   cable that they stand for; Routing.Cable.Visit: from the connection of a peer on.
-- Network.PeerLoop: the tasks of a connection (crates/network/src/peer_loop.rs) over every order
--   of their turns, and the tasks of both ends (Network.PeerLoop.Joined). Network.Connection:
--   `connect_once`, `resolve`, `handle_connection` and `PeerHandle` (client.rs, server.rs, peer.rs)
--   by what rustls and quinn answer.
-- Transfer.Manager: `FileTransferManager` of crates/daemon/src/filetransfer_mgr.rs with
--   `build_manifest`. Clipboard.Arboard: `ArboardBackend` of crates/clipboard/src/lib.rs; arboard
--   and the image crate are the parameter `Libraries`.
-- Platform.WindowsCapture.Lifecycle: `start` and `stop` of capture.rs with the threads of the
--   capture. Platform.LinuxInject.Device: `LinuxInject::new`. Daemon.Sessions: what `spawn_server`
--   and `spawn_client` of session.rs set up, and the daemon over its requests on Windows.
-- Tests: runs on concrete inputs.
--
-- Loops are structural: the messages, events, chunks, reads, rounds or requests of a loop are a
-- list.
--
-- Not modelled: rustls and QUIC set-up, sockets and pipes, the parsing of the command line and the
-- widgets of the window, because they are calls of libraries or I/O. What a save that fails
-- half-way leaves on the disk is not modelled either. Tasks are not interleaved inside a handler,
-- requests of several clients of the socket do not overlap, and outside Network.PeerLoop asynchronous
-- sends do not block. A write that fails is taken to leave nothing of its frame on the stream.
pub mod Prelude
pub mod Core
pub mod Protocol
pub mod Routing
pub mod Transfer
pub mod Clipboard
pub mod Network
pub mod Daemon
pub mod Platform
pub mod Ipc
pub mod Gui
pub mod Cli
pub mod Tests
