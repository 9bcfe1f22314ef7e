-- ===== src/Lib.antt =====
-- remotty: a host daemon, clients and a signaling server that pairs them over WebSockets; then host
-- and client talk over WebRTC, and the host shares its terminal, screen, files and clipboard.
-- The development models the server, which decides who is paired with whom and whose message goes
-- where; the parts of the host that decide who is let in and what a session may do; what its channels do to
-- files and the screen; the client's terminal; and configuration, backups and readiness.
--
-- Parts, and the files that model them (paths from the repository's root):
-- - internal/protocol/message.go, errors.go: Protocol.antt. The envelope, the payloads that the
--   server reads and writes, and their decoding from JSON (Base/Json.antt), field by field as
--   encoding/json does it: an absent or null field keeps the zero value, a value of another kind
--   is an error.
-- - internal/config/config.go: Config.antt has the records, Config/Validate.antt has Validate, group by group in its
--   order, with one complaint for each message, Config/Levels.antt ParseLevel and the addresses.
-- - internal/signal/server.go: Signal/State.antt has the state. A `*Peer` is a number that points
--   into `heap`; peers, rooms and hostIndex are association lists that hold those numbers, so what
--   is written to a peer is seen by everyone who holds it. `sent` is the row of messages written
--   to connections. Signal/Handlers.antt and Signal/Rooms.antt have one function for each handler:
--   handle_register is handleRegister, relay_to_room is relayToRoom, cleanup_peer is cleanupPeer, and
--   so on.
--   Signal/Route.antt has the read loop and routeMessage, and the relation `Step` of what the
--   connections may do next; `Reach` is any number of such steps, interleaved in any way.
--   Signal/Access.antt has the HTTP side: the middleware, the upgrade and its token, the reports.
--   The theorems are in Signal/Invariant, Registration, Relay, Leaving and Gate.
-- - internal/signal/ratelimit.go: Signal/RateLimit.antt. The middleware asks it.
-- - internal/host/daemon.go: Host.antt has the sessions and the messages from the server, in the
--   same style: a `*Session` is a number that points into `heap`, held by the table and by the
--   channels. Host/Channels.antt has onDataChannel and the handlers that it sets: what a handler does to
--   the shell, the screen, files or the clipboard is an `Action`, recorded by the type of the message
--   (handleTerminalChannel, handleScreenChannel, handleTransferChannel, handleFileChannel,
--   handleClipboardChannel); handle_auth is the whole of handleAuthChannel. Host/Steps.antt is the
--   relation of what may happen next, Host/Starting.antt is about NewDaemon, and Host/Run.antt has the loop that connects again and again.
-- - internal/webrtc/engine.go: Reconnect.antt has reconnectLoop, restartICE, Close and the report of
--   a success. The host lets a session go when a cycle gives up (`fails` in Host/Steps.antt).
--   Backoff.antt has the doubling delay that it shares with the daemon's loop.
-- - internal/screen/stream.go, encoder.go: Screen.antt has the settings, the adaptive quality and
--   captureAndSend, Screen/Scale.antt and Screen/Blend.antt the scaled size and the scaled pixels.
-- - internal/screen/input_darwin.go, StringToKeyCode: Screen/Keys.antt.
-- - internal/host/daemon.go, handleScreenChannel: Screen/Channel.antt. A `*Streamer` is a number that points
--   into `heap`; the loops of StartAsync take their ticks between the messages, in any order.
-- - internal/backup/backup.go: Backup.antt has Create, Restore, List and Cleanup, Backup/Paths.antt the paths: a path is
--   absolute and clean, the row of its parts, and the name of an entry the row of what its slashes part.
-- - internal/client/client.go: Client.antt has ListHosts, ConnectInteractive up to the engine as `enter_room`, and its
--   interactive terminal, whose goroutines and callbacks are the cases of `react`. The client's requests and the
--   server's replies are the messages of Protocol.antt; what is sent on a channel that is not open is lost; Protocol/Encoding.antt is about what both sides decode.
-- - internal/host/clipboard.go: Clipboard.antt, with the two parts of checkClipboard apart.
-- - internal/monitoring/monitoring.go: Monitoring.antt has the readiness endpoint; a check is a function of the time.
-- - internal/mux/mux.go: Mux.antt.
-- - internal/transfer/transfer.go: Transfer.antt has the transfers, Transfer/Bytes.antt what a read and a
--   write at an offset do to a file.
-- - internal/host/daemon.go, handleTransferChannel and handleFileChannel: Transfer/Channel.antt, on the
--   transfers and the files of the daemon. Base/Base64.antt is the decoder that the second one calls.
--
-- Bounds. Everything is structural recursion: no fuel is needed. The loops that the source runs
-- without end (the read loops, Run, the capture loop, reconnectLoop) are functions of the row of events
-- that they meet, or relations of single steps. Counters, sizes and codes are whole numbers that stay far
-- from a machine bound; so is the offset of a chunk, which the source multiplies as an int64. Three things that are float64 in the source are exact here: the tokens of
-- the rate limiter, counted in parts of a token; the ratio of the adaptive quality, compared by cross
-- multiplication; and the weights of a scaled pixel. What rounding would change is not modelled.
-- A host name is measured in bytes, as Go's `len` does it.
--
-- Parameters. The clock is an argument of every operation that reads it. Whether the WebSocket
-- library upgrades a connection, what the WebRTC library, the display, the JPEG encoder, the shell,
-- the clipboard and the file system answer, the hash of a chunk, the hash of a
-- password and whether a password fits a hash are arguments too, and so is what the environment of a daemon is. The JSON decoder
-- of the envelope gives an `Option Message`. A new connection or room gets an ID made from the
-- nanosecond clock: `Step` of the server asks that it is not in use.
--
-- Not modelled: the terminal of the host, what the client prints, and all user interfaces; how a
-- configuration is loaded; logging and the audit log; TLS and sockets. A handler runs as one step: the
-- races that the source's locks leave open are not modelled.
pub mod Base
pub mod Protocol
pub mod Config
pub mod Signal
pub mod Screen
pub mod Backoff
pub mod Reconnect
pub mod Host
pub mod Transfer
pub mod Backup
pub mod Client
pub mod Clipboard
pub mod Monitoring
pub mod Mux
