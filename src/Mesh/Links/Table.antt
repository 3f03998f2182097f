-- ===== src/Mesh/Links/Table.antt =====
-- Connect and its goroutine, and the end of a link.
use quicmeshpoc.Common.{
  Bytes, Bool, not, ◌&&◌, ◌||◌, [], ◌∷◌, some, is_some, lookup, if◌then◌else◌, ◌≡◌, arith, str_eq,
  str_eq_refl, str_eq_iff, lookup-insert, lookup-delete,
}
use quicmeshpoc.Protocol.{Peer}
use quicmeshpoc.Mesh.State.{Mesh, spawn_dial}
use quicmeshpoc.Mesh.Links.{connect, dial_peer, Dialed, linked}

-- Whether there is a link to the node, or a dial on its way.
abbrev pub has_link : Bytes → Mesh → Bool
has_link k m = is_some (lookup k m.conns)

abbrev pub is_dialing : Bytes → Mesh → Bool
is_dialing k m = is_some (lookup k m.dialing)

-- Connect starts a dial exactly if there is neither a link nor a dial to the peer; it then marks
-- that dial and nothing else, so that a second call does nothing until the dial has ended.
pub connect_lem :
    (p : Peer) (m : Mesh) (k : Bytes)
    → ((connect p m).1
        ≡ (if has_link p.node_id m || is_dialing p.node_id m then [] else spawn_dial p ∷ []))
      × (is_dialing k (connect p m).0
          ≡ (is_dialing k m || (str_eq p.node_id k && not (has_link k m))))
      × ((connect p m).0.conns ≡ m.conns)
      × (connect p (connect p m).0 ≡ ((connect p m).0, []))
unfolding connect
connect_lem p m k = ground (
  arith,
  lookup-insert p.node_id k tt m.dialing,
  lookup-insert p.node_id p.node_id tt m.dialing,
  str_eq_iff p.node_id k,
  str_eq_refl p.node_id,
)

-- However a dial ends, it is no longer on its way, and no other dial is touched; there is a new
-- link exactly if it succeeded, under the peer's name, with its incarnation and connection.
pub dial_peer_lem :
    (p : Peer) (d : Dialed) (m : Mesh) (k : Bytes)
    → (is_dialing k (dial_peer p d m).0 ≡ (is_dialing k m && not (str_eq p.node_id k)))
      × (lookup k (dial_peer p d m).0.conns ≡ elim d [
        | linked c ↦
            if str_eq p.node_id k
            then some (record { node_id = p.node_id; incarnation = p.incarnation; conn = c })
            else lookup k m.conns
        | _ ↦ lookup k m.conns
      ])
unfolding dial_peer
dial_peer_lem p (linked c) m k = ground (
  arith,
  lookup-delete p.node_id k m.dialing,
  lookup-insert p.node_id k (record { node_id = p.node_id; incarnation = p.incarnation; conn = c })
      m.conns,
)
dial_peer_lem p _ m k = ground (arith, lookup-delete p.node_id k m.dialing)
