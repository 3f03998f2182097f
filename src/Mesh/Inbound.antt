-- ===== src/Mesh/Inbound.antt =====
-- The HELLO line in cmd/quicchat/mesh.go: what Connect sends and handleInbound reads.
pub mod Hello
use quicmeshpoc.Common.{
  ℕ, Bytes, Bool, List, [], ◌∷◌, ◌++◌, Option, none, some, text, fields, str_eq, if◌then◌else◌,
}
use quicmeshpoc.Mesh.State.{connected, PeerConn, Mesh, Step}
use quicmeshpoc.Mesh.Links.{add_conn, set_state, status}

-- The argument of sendLine in Connect, with the newline that sendLine writes behind it.
unfoldable pub hello_line : Bytes → Bytes → Bytes
unfolding text
hello_line node_id incarnation = text "HELLO " ++ (node_id ++ (b' ' ∷ (incarnation ++ b'\n' ∷ [])))

-- The name and the incarnation that the fields of the first line give; `none` is a malformed line.
unfoldable pub hello_names : List Bytes → Option (Bytes × Bytes)
unfolding text
hello_names (verb ∷ id ∷ []) = if str_eq verb (text "HELLO") then some (id, []) else none
hello_names (verb ∷ id ∷ incarnation ∷ rest) =
    if str_eq verb (text "HELLO") then some (id, incarnation) else none
hello_names _ = none

-- The state after a first line that names the peer.
unfoldable pub accept : Option (Bytes × Bytes) → ℕ → Bytes → Mesh → Step
unfolding add_conn text
accept none c remote m = (m, [])
accept (some (id, incarnation)) c remote m = (
  add_conn (record { node_id = id; incarnation = incarnation; conn = c }) m,
  set_state id connected
      ∷ status (text "accepted connection from " ++ id ++ text " (" ++ remote ++ text ")")
      ∷ [],
)

-- handleInbound up to its read loop: connection `c` from `remote`, and its first line, `none` if
-- it or the stream could not be read.
unfoldable pub handle_inbound : ℕ → Bytes → Option Bytes → Mesh → Step
unfolding hello_names accept fields
handle_inbound c remote none m = (m, [])
handle_inbound c remote (some line) m = accept (hello_names (fields line)) c remote m
