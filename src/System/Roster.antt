-- ===== src/System/Roster.antt =====
-- From the lighthouse's roster to a dial: handlePeers of cmd/lighthouse/main.go, and get, peersLoop,
-- reapStale and autoConnect of cmd/quicchat/mesh.go.
use quicmeshpoc.Common.{
  ◌≤◌, ◌+◌, Bytes, true, false, ◌||◌, List, [], ◌∷◌, some, str_eq, str_eq_sym, lookup, ◌≡◌, ap,
  arith,
}
use quicmeshpoc.Protocol.{Peer, PeersResponse}
use quicmeshpoc.Lighthouse.State.{
  Registration, Lighthouse, Host, VisitsAll, Reply, json, http_error, no_content, peer_ttl,
}
use quicmeshpoc.Lighthouse.Peers.{handle_peers, peer_of}
use quicmeshpoc.Lighthouse.Peers.Answer.{find_peer}
use quicmeshpoc.Lighthouse.Peers.Spec.{peers_in}
use quicmeshpoc.Lighthouse.Serve.{History, run}
use quicmeshpoc.Lighthouse.Serve.Invariant.{Inv}
use quicmeshpoc.Lighthouse.Board.Refines.{AllVisit}
use quicmeshpoc.Mesh.State.{Mesh}
use quicmeshpoc.Mesh.Names.{initiates}
use quicmeshpoc.Mesh.Links.{poll}
use quicmeshpoc.Mesh.Links.Table.{has_link, is_dialing}
use quicmeshpoc.Mesh.Links.Poll.{in_roster, poll_lem}
use quicmeshpoc.Mesh.Listen.{Result, ok, answer, fetch, roster, peers_round}
use quicmeshpoc.System.Alive.{latest, Renewed, stays_listed}

in_roster-find_peer :
    (k : Bytes) (ps : List Peer) (p : Peer) → find_peer k ps ≡ some p → in_roster k ps ≡ true
unfolding find_peer
in_roster-find_peer k [] p e = ground (arith, e)
in_roster-find_peer k (q ∷ ps) p e =
    ground (arith, e, in_roster-find_peer k ps p, str_eq_sym k q.node_id)

abbrev pub response : Host → Bytes → Lighthouse → PeersResponse
response host self l = record { peers = peers_in (handle_peers host self l).1 }

-- The body of an answer; writeJSON is its only use of the encoding.
abbrev pub body : (PeersResponse → Bytes) → Reply PeersResponse → Bytes
body encode (json r) = encode r
body encode (http_error code s) = s
body encode no_content = []

-- A node that initiates toward another is not that node.
pub distinct : (a b : Bytes) → initiates a b ≡ true → str_eq b a ≡ false
unfolding initiates
distinct a b h = ground (arith, h, str_eq_sym a b)

pub peers_round-json :
    (encode : PeersResponse → Bytes) (decode : Bytes → Result PeersResponse) (path status : Bytes)
    (host : Host) (self : Bytes) (l : Lighthouse) (m : Mesh)
    → decode (encode (response host self l)) ≡ ok (response host self l)
    → peers_round decode path (answer 200 status (body encode (handle_peers host self l).1)) m
      ≡ poll (some (peers_in (handle_peers host self l).1)) m
unfolding peers_round fetch handle_peers roster
peers_round-json encode decode path status host self l m h = ap (λ r. poll (roster r) m) h

-- A client with the smaller name, which asks the lighthouse for the roster and gets an answer, is
-- linked to the other node afterwards, or has a dial to it on its way, if the other has kept
-- registering in time: no call, and not this one, came later than the TTL after its last
-- registration. The roster decodes from its encoding, and a loop over a
-- map visits each key once.
pub linked_after_roster :
    (encode : PeersResponse → Bytes) (decode : Bytes → Result PeersResponse) (path status : Bytes)
    (id : Bytes) (host : Host) (h : History) (l : Lighthouse) (reg : Registration) (m : Mesh)
    → VisitsAll host
    → AllVisit h
    → Inv l
    → lookup id l.nodes ≡ some reg
    → Renewed id reg h
    → host.now 0 ≤ (latest id reg h).last_seen + peer_ttl
    → initiates m.node_id id ≡ true
    → decode (encode (response host m.node_id (run l h))) ≡ ok (response host m.node_id (run l h))
    → let reply = (handle_peers host m.node_id (run l h)).1 in
      let m' = (peers_round decode path (answer 200 status (body encode reply)) m).0 in
      (has_link id m' || is_dialing id m') ≡ true
linked_after_roster encode decode path status id host h l reg m visits a v e r t first codec =
    let reply = (handle_peers host m.node_id (run l h)).1 in
    let there =
      in_roster-find_peer id (peers_in reply) (peer_of id (latest id reg h))
        (stays_listed id m.node_id host h l reg visits a v e r t (distinct m.node_id id first)) in
    rw (peers_round-json encode decode path status host m.node_id (run l h) m codec)
      (ground (arith, (poll_lem (peers_in reply) m id).1, there, first))
