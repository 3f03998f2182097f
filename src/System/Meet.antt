-- ===== src/System/Meet.antt =====
-- A link from both ends: autoConnect, Connect and its HELLO at one client of cmd/quicchat/mesh.go, and
-- handleInbound at the other.
use quicmeshpoc.Common.{
  ℕ, Bytes, true, false, List, [], ◌∷◌, some, str_eq_refl, lookup, is_plain, ◌≡◌, ◌≢◌, arith,
}
use quicmeshpoc.Protocol.{Peer}
use quicmeshpoc.Mesh.State.{Mesh, PeerConn, spawn_dial}
use quicmeshpoc.Mesh.Names.{initiates, initiates_once}
use quicmeshpoc.Mesh.Links.{connect, dial_peer, linked, auto_one}
use quicmeshpoc.Mesh.Links.Table.{has_link, is_dialing, connect_lem, dial_peer_lem}
use quicmeshpoc.Mesh.Inbound.{hello_line, handle_inbound}
use quicmeshpoc.Mesh.Inbound.Hello.{handle_inbound-hello_line}

-- The entry of the roster for a client.
abbrev pub entry_of : Mesh → Bytes → List Bytes → Peer
entry_of m addr local_addrs = record {
  node_id = m.node_id;
  addr = addr;
  local_addrs = local_addrs;
  incarnation = m.incarnation;
}

abbrev pub link_to : Mesh → ℕ → PeerConn
link_to m c = record { node_id = m.node_id; incarnation = m.incarnation; conn = c }

-- The client with the smaller name, with neither a link nor a dial to the other, dials when the other
-- is in the roster; the other never dials it. When the dial succeeds and the other has read the
-- HELLO, each has the connection under the other's name with the other's incarnation, and the
-- dial is over. The names are not empty, and they and the incarnation are printable ASCII
-- without spaces.
pub link_formed :
    (a b : Mesh) (addr remote : Bytes) (local_addrs : List Bytes) (c d : ℕ)
    → initiates a.node_id b.node_id ≡ true
    → has_link b.node_id a ≡ false
    → is_dialing b.node_id a ≡ false
    → is_plain a.node_id ≡ true
    → is_plain a.incarnation ≡ true
    → a.node_id ≢ []
    → let p = entry_of b addr local_addrs in
      let dialing = auto_one p a in
      let a' = (dial_peer p (linked c) dialing.0).0 in
      let b' = (handle_inbound d remote (some (hello_line a.node_id a.incarnation)) b).0 in
      (dialing.1 ≡ spawn_dial p ∷ [])
      × (auto_one (entry_of a remote []) b ≡ (b, []))
      × (lookup b.node_id a'.conns ≡ some (link_to b c))
      × (lookup a.node_id b'.conns ≡ some (link_to a d))
      × (is_dialing b.node_id a' ≡ false)
unfolding auto_one
link_formed a b addr remote local_addrs c d first free idle pid pinc given =
    let p = entry_of b addr local_addrs in
    let start = connect_lem p a b.node_id in
    let done = dial_peer_lem p (linked c) (connect p a).0 b.node_id in
    let once = initiates_once a.node_id b.node_id in
    rw first (
      ground (arith, start.0, free, idle),
      ground (arith, once, first),
      ground (arith, done.1, str_eq_refl b.node_id),
      (handle_inbound-hello_line d remote a.node_id a.incarnation b pid pinc given).1,
      ground (arith, done.0, str_eq_refl b.node_id),
    )
