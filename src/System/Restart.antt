-- ===== src/System/Restart.antt =====
-- A peer that restarts: handleRegister and handlePeers of cmd/lighthouse/main.go, and peersLoop with
-- reapStale and autoConnect of cmd/quicchat/mesh.go.
use quicmeshpoc.Common.{
  ◌≤◌, ◌+◌, Bytes, true, List, [], ◌∷◌, Option, none, some, str_eq_sym, lookup, ◌≡◌, arith,
}
use quicmeshpoc.Protocol.{Peer, PeersResponse}
use quicmeshpoc.Lighthouse.State.{Registration, Lighthouse, Host, VisitsAll, peer_ttl}
use quicmeshpoc.Lighthouse.Peers.{handle_peers, peer_of}
use quicmeshpoc.Lighthouse.Peers.Answer.{find_peer}
use quicmeshpoc.Lighthouse.Peers.Spec.{peers_in}
use quicmeshpoc.Lighthouse.Serve.{History, run}
use quicmeshpoc.Lighthouse.Serve.Invariant.{Inv}
use quicmeshpoc.Lighthouse.Board.Refines.{AllVisit}
use quicmeshpoc.Mesh.State.{Mesh, PeerConn}
use quicmeshpoc.Mesh.Names.{initiates, incarnation_changed}
use quicmeshpoc.Mesh.Links.{is_stale}
use quicmeshpoc.Mesh.Links.Table.{is_dialing}
use quicmeshpoc.Mesh.Links.Poll.{shows_restart, poll_lem}
use quicmeshpoc.Mesh.Listen.{Result, ok, answer, peers_round}
use quicmeshpoc.System.Alive.{latest, Renewed, stays_listed}
use quicmeshpoc.System.Roster.{response, body, peers_round-json, linked_after_roster, distinct}

shows_restart-find_peer :
    (k : Bytes) (link : Option PeerConn) (ps : List Peer) (p : Peer)
    → find_peer k ps ≡ some p
    → is_stale link p ≡ true
    → shows_restart k link ps ≡ true
unfolding find_peer
shows_restart-find_peer k link [] p e s = ground (arith, e)
shows_restart-find_peer k link (q ∷ ps) p e s =
    ground (arith, e, s, shows_restart-find_peer k link ps p, str_eq_sym k q.node_id)

-- A client with the smaller name and a link to a node that restarted, and that by now has registered
-- under another incarnation, neither of the two empty, gives the link up at its next reading of the
-- roster and has a dial on its way at once. The conditions on the lighthouse and on time are that no
-- call, and not this one, came later than the TTL after the node's last registration, that the roster
-- decodes from its encoding, and that a loop over a map visits each key once.
pub redialed_after_restart :
    (encode : PeersResponse → Bytes) (decode : Bytes → Result PeersResponse) (path status : Bytes)
    (id : Bytes) (host : Host) (h : History) (l : Lighthouse) (reg : Registration) (m : Mesh)
    (old : PeerConn)
    → VisitsAll host
    → AllVisit h
    → Inv l
    → lookup id l.nodes ≡ some reg
    → Renewed id reg h
    → host.now 0 ≤ (latest id reg h).last_seen + peer_ttl
    → initiates m.node_id id ≡ true
    → decode (encode (response host m.node_id (run l h))) ≡ ok (response host m.node_id (run l h))
    → lookup id m.conns ≡ some old
    → incarnation_changed old.incarnation (latest id reg h).incarnation ≡ true
    → let reply = (handle_peers host m.node_id (run l h)).1 in
      let m' = (peers_round decode path (answer 200 status (body encode reply)) m).0 in
      (lookup id m'.conns ≡ none) × (is_dialing id m' ≡ true)
unfolding peer_of
redialed_after_restart encode decode path status id host h l reg m old visits a v e r t first codec
      had changed =
    let ps = peers_in (handle_peers host m.node_id (run l h)).1 in
    let there =
      stays_listed id m.node_id host h l reg visits a v e r t (distinct m.node_id id first) in
    let shown : shows_restart id (lookup id m.conns) ps ≡ true =
      shows_restart-find_peer id (lookup id m.conns) ps (peer_of id (latest id reg h)) there
        (rw had changed) in
    let gone : lookup id
          (peers_round decode path
            (answer 200 status (body encode (handle_peers host m.node_id (run l h)).1)) m).0.conns
        ≡ none =
      rw (peers_round-json encode decode path status host m.node_id (run l h) m codec)
        (ground (arith, (poll_lem ps m id).0, shown)) in
    let next =
      linked_after_roster encode decode path status id host h l reg m visits a v e r t first
        codec in
    (gone, ground (arith, next, gone))
