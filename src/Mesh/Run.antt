-- ===== src/Mesh/Run.antt =====
-- The client as one transition system: what its goroutines, its peers and its user do to the table
-- of links in cmd/quicchat/mesh.go, in any order.
pub mod Invariant
pub mod Loops
use quicmeshpoc.Common.{ℕ, Bytes, List, [], ◌∷◌, ◌++◌, Option, none, some, Bool}
use quicmeshpoc.Protocol.{Peer, Signal}
use quicmeshpoc.Mesh.State.{Mesh, Step, Effect}
use quicmeshpoc.Mesh.Links.{Dialed, connect, dial_peer, poll, respond_to_punch, close, end_reader}
use quicmeshpoc.Mesh.Inbound.{handle_inbound}
use quicmeshpoc.Mesh.Chat.{send_chat, send_broadcast}

-- A round of peersLoop, a call of Connect, the end of a dial, a signal, a connection that comes in,
-- the end of a reader, a line for one peer or for all, and the end of the program.
pub data Move : Type 0 where
  polls : Option (List Peer) → Move
  connects : Peer → Move
  dials : Peer → Dialed → Move
  punched : (Bytes → Bool) → Signal → Move
  accepts : ℕ → Bytes → Option Bytes → Move
  ends : Bytes → Bytes → Move
  says : Bytes → Bytes → (ℕ → Option Bytes) → Move
  broadcasts : Bytes → (ℕ → Option Bytes) → Move
  closes : Move

unfoldable pub move : Move → Mesh → Step
unfolding poll connect dial_peer respond_to_punch handle_inbound end_reader send_chat send_broadcast
    close
move (polls peers) m = poll peers m
move (connects p) m = connect p m
move (dials p d) m = dial_peer p d m
move (punched resolves s) m = respond_to_punch resolves s m
move (accepts c remote line) m = handle_inbound c remote line m
move (ends id err) m = end_reader id err m
move (says id said write) m = send_chat id said write m
move (broadcasts said write) m = send_broadcast said write m
move closes m = close m

unfoldable pub moves : List Move → Mesh → Mesh
unfolding move
moves [] m = m
moves (x ∷ xs) m = moves xs (move x m).0
