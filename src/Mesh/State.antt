-- ===== src/Mesh/State.antt =====
-- The state of `Mesh` in cmd/quicchat/mesh.go, and what its goroutines do to the world outside.
use quicmeshpoc.Common.{ℕ, Bytes, List, Map, text}
use quicmeshpoc.Protocol.{Peer}

pub data ConnState : Type 0 where
  disconnected connecting connected failed : ConnState

-- connState.String
unfoldable pub state_name : ConnState → Bytes
unfolding text
state_name connecting = text "connecting"
state_name connected = text "connected"
state_name failed = text "failed"
state_name disconnected = text "disconnected"

-- `conn` is the identity of the QUIC connection, with its one stream.
pub record PeerConn : Type 0 where
  pub node_id : Bytes
  pub incarnation : Bytes
  pub conn : ℕ

-- The fields that change after NewMesh, and this node's own names; `dialing` is the set
-- `connecting`.
pub record Mesh : Type 0 where
  pub node_id : Bytes
  pub incarnation : Bytes
  pub conns : Map PeerConn
  pub dialing : Map (Unit {0})

-- The values given to the events callback.
pub data Msg : Type 0 where
  peers_msg : List Peer → Msg
  state_msg : Bytes → ConnState → Msg
  chat_msg : Bytes → Bytes → Bytes → Msg
  status_msg : Bytes → Msg

-- What a step does outside the state, in order: a message to the interface, the end of a
-- connection with its reason, the start of the goroutine that dials a peer, five punch packets to
-- an address, a report to the lighthouse that this node reached a peer, or bytes written to the
-- stream of a connection.
pub data Effect : Type 0 where
  emit : Msg → Effect
  close_conn : ℕ → Bytes → Effect
  spawn_dial : Peer → Effect
  punch : Bytes → Effect
  report_handoff : Bytes → Effect
  write_to : ℕ → Bytes → Effect

abbrev pub Step : Type 0
Step = Mesh × List Effect
