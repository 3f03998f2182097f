-- ===== src/Mesh/Chat.antt =====
-- Chat I/O in cmd/quicchat/mesh.go: readLoopReader, sendLine, SendChat and SendBroadcast.
pub mod Lines
pub mod Broadcast
pub mod Trimmed
use quicmeshpoc.Common.{
  ℕ, Bytes, Bool, List, [], ◌∷◌, ◌++◌, Option, none, some, text, decimal, lookup, Map, length,
  if◌then◌else◌, ◌==◌, str_eq,
}
use quicmeshpoc.Mesh.State.{disconnected, PeerConn, Mesh, Effect, emit, write_to, chat_msg, Step}
use quicmeshpoc.Mesh.Names.{trim_newline}
use quicmeshpoc.Mesh.Links.{remove_conn, set_state, status}

-- What the calls of ReadString('\n') return before the stream ends: the lines, each with its
-- newline. What stands behind the last newline comes with the error and is not used.
unfoldable pub read_strings : Bytes → Bytes → List Bytes
read_strings acc [] = []
read_strings acc (c ∷ s) =
    let cut = (acc ++ c ∷ []) ∷ read_strings [] s in
    let more = read_strings (acc ++ c ∷ []) s in if c == b'\n' then cut else more

-- The loop of readLoopReader up to the error, whose branch is `end_reader`.
unfoldable pub heard : Bytes → List Bytes → List Effect
unfolding trim_newline
heard id [] = []
heard id (line ∷ lines) =
    let rest = heard id lines in
    let said = trim_newline line in
    if str_eq said [] then rest else emit (chat_msg id id said) ∷ rest

-- What sendLine writes.
unfoldable pub sent_line : Bytes → Bytes
sent_line line = line ++ b'\n' ∷ []

-- SendChat behind the write, with its error if it failed.
unfoldable pub chat_sent : Option Bytes → ℕ → Bytes → Bytes → Mesh → Step
unfolding remove_conn sent_line text
chat_sent none c id said m = (m, write_to c (sent_line said) ∷ [])
chat_sent (some err) c id said m = (
  remove_conn id m,
  write_to c (sent_line said)
      ∷ status (text "send to " ++ id ++ text " failed: " ++ err)
      ∷ set_state id disconnected
      ∷ [],
)

-- SendChat, on the link that it finds.
unfoldable pub chat_over : Option PeerConn → Bytes → Bytes → (ℕ → Option Bytes) → Mesh → Step
unfolding chat_sent text
chat_over none id said write m = (m, status (text "not connected to " ++ id) ∷ [])
chat_over (some pc) id said write m = chat_sent (write pc.conn) pc.conn id said m

-- SendChat; `write` gives the error of a write to a connection, if it fails.
unfoldable pub send_chat : Bytes → Bytes → (ℕ → Option Bytes) → Mesh → Step
unfolding chat_over
send_chat id said write m = chat_over (lookup id m.conns) id said write m

unfoldable pub one_sent : Option Bytes → PeerConn → Bytes → Mesh → Step
unfolding remove_conn sent_line
one_sent none pc said m = (m, write_to pc.conn (sent_line said) ∷ [])
one_sent (some err) pc said m = (
  remove_conn pc.node_id m,
  write_to pc.conn (sent_line said) ∷ set_state pc.node_id disconnected ∷ [],
)

-- The goroutine that SendBroadcast starts for one peer.
unfoldable pub send_one : PeerConn → Bytes → (ℕ → Option Bytes) → Mesh → Step
unfolding one_sent
send_one pc said write m = one_sent (write pc.conn) pc said m

-- These goroutines, one after the other.
unfoldable pub send_all : Map PeerConn → Bytes → (ℕ → Option Bytes) → Mesh → Step
unfolding send_one
send_all [] said write m = (m, [])
send_all ((id, pc) ∷ conns) said write m =
    let (m', fx) = send_one pc said write m in
    let (m'', gx) = send_all conns said write m' in (m'', fx ++ gx)

-- SendBroadcast behind the copy of the links; its last status line may come before any write.
unfoldable pub broadcast_to : Map PeerConn → Bytes → (ℕ → Option Bytes) → Mesh → Step
unfolding send_all text decimal
broadcast_to [] said write m = (m, status (text "no connected peers to broadcast to") ∷ [])
broadcast_to (e ∷ conns) said write m =
    let (m', fx) = send_all (e ∷ conns) said write m in
    (
      m',
      fx ++ status (text "broadcast to " ++ decimal (length (e ∷ conns)) ++ text " peer(s)") ∷ [],
    )

unfoldable pub send_broadcast : Bytes → (ℕ → Option Bytes) → Mesh → Step
unfolding broadcast_to
send_broadcast said write m = broadcast_to m.conns said write m
