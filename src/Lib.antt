-- ===== src/Lib.antt =====
-- Verification of quicmeshpoc: a lighthouse that introduces peers to each other, and the peers,
-- which connect directly and chat.
--
-- The parts and their files:
-- - Protocol: the messages of internal/signal/signal.go.
-- - Tls: internal/quicutil/tls.go, and when a handshake between its two configurations succeeds.
--   Logging: internal/logutil/logutil.go.
-- - Lighthouse: the server, cmd/lighthouse/main.go and cmd/lighthouse/dashboard.go. State is the
--   struct `lighthouse`; Register is handleRegister; Peers is handlePeers; Connect is handleConnect
--   and handleHandoff; Signals is handleSignalsStream with drainSignals, subscribeSignals,
--   unsubscribeSignals and flushSignals; Events is the log and the streams of the dashboard
--   (addEvent, broadcast, subscribe, unsubscribe, handleStream); Handoffs is the table of attempted
--   handoffs; Html and Frame are snapshotHTML with its helpers; Startup is main with
--   serverTLSConfig, and Routes its patterns. Serve puts the handlers and the rounds of the streams
--   together as one transition of the server; Streams is the two handlers that hold a response
--   open, with their select loops and the bytes that they write; Wakeup cuts handleConnect and the
--   streams at their locks and lets them interleave; Board is the server as its clients see it:
--   registrations and waiting requests.
-- - Sse: writeSSE of the lighthouse, and the scanner and the parser of streamSignals in
--   cmd/quicchat/mesh.go that read what it writes. Query: the name that a client puts into the
--   target of a request, and what the lighthouse reads there.
-- - Mesh: the client, cmd/quicchat/mesh.go. State is the struct `Mesh` and the effects of a step;
--   Start is NewMesh, newIncarnation and localCandidates; Names is incarnationChanged, trimNewline
--   and the test of autoConnect; Candidates is dedupeCandidates; Dial is dialFirst; Links is
--   Connect, reapStale, autoConnect, peersLoop, respondToPunch and Close; Listen is get, post and
--   what the loops make of an answer; Inbound is handleInbound; Chat is readLoopReader, sendLine,
--   SendChat and SendBroadcast; Backoff is the pauses of signalsStreamLoop; Loops is registerLoop,
--   peersLoop, signalsStreamLoop and acceptLoop; Run puts the steps together, and Flights
--   interleaves them with the goroutines that Connect starts.
-- - Tui: the interface, cmd/quicchat/tui.go: its model and Update; Keys is handleKey; View is View.
-- - Cli: the loop over the arguments in cmd/quicchat/main.go; Cli/Main is the rest of its main.
-- - System: the programs together: a request until it punches (Punch), the requests of a node until
--   its client has read them (Delivery), a registration that is renewed (Alive), a roster until a
--   dial (Roster) and until the sidebar (Sidebar), a peer that restarts (Restart), a dial until both
--   ends know each other (Meet), what one user types until another sees it (Conversation),
--   requests at their handlers (Requests), and TLS between all of them (Handshakes). Network is any
--   number of clients with the HELLO lines on their way between them, as a step relation.
-- - Common: Go's strings as lists of bytes, its maps with string keys as association lists, and
--   lists indexed by native numbers. Tests: runs and instances at concrete inputs.
--
-- A handler takes the state and gives the new state and the answer; a body that does not decode is
-- `none`. What the code asks of the machine is an argument, a `Host`: the readings of the clock,
-- the order in which a loop over a map visits the keys, and the text of a time of day. An instant
-- is in nanoseconds since Go's zero time; a channel, a stream and a connection are numbers. A
-- client's step gives the new table and, as values, what it does outside of it. A handler runs here
-- without another between its critical sections, except in Wakeup, and a goroutine of the client
-- touches the table in one place, except in Flights.
--
-- Recursion is on the data, and on fuel in four places: the digits of `n`, to the base 10 or 16,
-- are at most `n + 1`; a round of strings.TrimSpace takes off at least one byte, so that the length
-- of the text is enough; and a round over the arguments takes off at least one. The scanner of
-- streamSignals keeps its limit of 2^20 bytes for a line.
--
-- The JSON encoding, QUIC, HTTP/3, cryptography, autocert, the text box of the interface and the
-- styles of its rendering are code of other packages. The encoding enters as a codec, the text box,
-- the styles, the cryptographic calls and the roots of a client as interfaces, and the outcome of a
-- dial, of a write, of a request and of an address lookup as an argument. The flag package, which
-- ends the process at a bad flag or a request for help, is a parameter of Cli.
-- In Network the lighthouse is only the roster that a round reads, which shows what the nodes are at
-- that time; a dial there has one end, success or failure; and a reader can end at either end of a
-- link at any time, which removes the link by name, whichever connection it was for. The field
-- `lost` of a net only records where that left a link at one end.
-- Not modelled are the static page of the dashboard, the periods of the tickers, and what is written
-- to the logs apart from panics, which only call such code.
pub mod Common
pub mod Protocol
pub mod Sse
pub mod Query
pub mod Tls
pub mod Logging
pub mod Lighthouse
pub mod Mesh
pub mod Tui
pub mod Cli
pub mod System
mod Tests
