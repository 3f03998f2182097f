-- ===== src/Mesh/Flights.antt =====
-- The goroutines that Connect of cmd/quicchat/mesh.go starts, among all that touches the table of
-- links: their two critical sections, addConn and the deferred delete, come at any time after their
-- start, with other steps in between.
pub mod Even
pub mod Single
use quicmeshpoc.Common.{ℕ, zero, suc, Bytes, Bool, List, [], ◌∷◌, ◌++◌, Option, none, some, delete}
use quicmeshpoc.Protocol.{Peer, Signal}
use quicmeshpoc.Mesh.State.{
  Mesh, Effect, emit, close_conn, spawn_dial, punch, report_handoff, write_to, Step,
}
use quicmeshpoc.Mesh.Links.{add_conn, connect, poll, respond_to_punch, close, end_reader}
use quicmeshpoc.Mesh.Inbound.{handle_inbound}
use quicmeshpoc.Mesh.Chat.{send_chat, send_broadcast}

-- The peers that the goroutines on their way dial.
pub record Client : Type 0 where
  pub mesh : Mesh
  pub flights : List Peer

abbrev pub spawned : List Effect → List Peer
spawned [] = []
spawned (spawn_dial p ∷ fx) = p ∷ spawned fx
spawned (_ ∷ fx) = spawned fx

-- What runs between two waits: a round of peersLoop, the test of Connect, a signal, a connection
-- that comes in, the end of a reader, a line for one peer or for all, and the end of the program; and
-- of the i-th goroutine of Connect, that it adds its connection, and that it ends.
pub data Slice : Type 0 where
  polls : Option (List Peer) → Slice
  connects : Peer → Slice
  punched : (Bytes → Bool) → Signal → Slice
  accepts : ℕ → Bytes → Option Bytes → Slice
  ends : Bytes → Bytes → Slice
  says : Bytes → Bytes → (ℕ → Option Bytes) → Slice
  broadcasts : Bytes → (ℕ → Option Bytes) → Slice
  closes : Slice
  adds : ℕ → ℕ → Slice
  lands : ℕ → Slice

-- A step, with the goroutines that it starts.
abbrev pub started_by : Step → List Peer → Client
started_by s fs = record { mesh = s.0; flights = fs ++ spawned s.1 }

abbrev pub add_flight : Option Peer → ℕ → Client → Client
add_flight none conn c = c
add_flight (some p) conn c = record {
  mesh = add_conn (record { node_id = p.node_id; incarnation = p.incarnation; conn = conn }) c.mesh;
  flights = c.flights;
}

abbrev pub without_nth : ℕ → List Peer → List Peer
without_nth i [] = []
without_nth zero (p ∷ ps) = ps
without_nth (suc i) (p ∷ ps) = p ∷ without_nth i ps

abbrev pub land : Option Peer → ℕ → Client → Client
land none i c = c
land (some p) i c = record {
  mesh = record c.mesh { dialing = delete p.node_id c.mesh.dialing };
  flights = without_nth i c.flights;
}

abbrev pub flight_at : ℕ → List Peer → Option Peer
flight_at i [] = none
flight_at zero (p ∷ ps) = some p
flight_at (suc i) (p ∷ ps) = flight_at i ps

unfoldable pub slice : Slice → Client → Client
unfolding poll connect respond_to_punch handle_inbound end_reader send_chat send_broadcast close
    add_conn
slice (polls peers) c = started_by (poll peers c.mesh) c.flights
slice (connects p) c = started_by (connect p c.mesh) c.flights
slice (punched resolves s) c = started_by (respond_to_punch resolves s c.mesh) c.flights
slice (accepts conn remote line) c = started_by (handle_inbound conn remote line c.mesh) c.flights
slice (ends id err) c = started_by (end_reader id err c.mesh) c.flights
slice (says id said write) c = started_by (send_chat id said write c.mesh) c.flights
slice (broadcasts said write) c = started_by (send_broadcast said write c.mesh) c.flights
slice closes c = started_by (close c.mesh) c.flights
slice (adds i conn) c = add_flight (flight_at i c.flights) conn c
slice (lands i) c = land (flight_at i c.flights) i c

unfoldable pub slices : List Slice → Client → Client
unfolding slice
slices [] c = c
slices (t ∷ ts) c = slices ts (slice t c)
