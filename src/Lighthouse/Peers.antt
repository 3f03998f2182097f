-- ===== src/Lighthouse/Peers.antt =====
-- handlePeers of cmd/lighthouse/main.go.
pub mod Answer
pub mod Spec
use quicmeshpoc.Common.{
  ℕ, Bytes, Bool, true, false, List, [], ◌∷◌, ◌++◌, Option, none, some, str_eq, lookup, delete,
  keys, Map, text, ltb, ◌+◌, ◌-◌, foldl, if◌then◌else◌,
}
use quicmeshpoc.Protocol.{Peer, PeersResponse}
use quicmeshpoc.Lighthouse.State.{peer_ttl, Registration, Lighthouse, Host, Reply, json}
use quicmeshpoc.Lighthouse.Events.{add_event}

-- now.Sub(reg.lastSeen) > peerTTL; a registration from the future is not stale.
unfoldable pub is_stale : ℕ → Registration → Bool
is_stale now reg = ltb peer_ttl (now - reg.last_seen)

-- The variables of the loop.
pub record Scan : Type 0 where
  pub nodes : Map Registration
  pub expired : List Bytes
  pub peers : List Peer

unfoldable pub peer_of : Bytes → Registration → Peer
peer_of id reg = record {
  node_id = id;
  addr = reg.addr;
  local_addrs = reg.local_addrs;
  incarnation = reg.incarnation;
}

-- The body of the loop, for a key and the entry that the map has for it.
unfoldable pub visit_entry : ℕ → Bytes → Bytes → Option Registration → Scan → Scan
unfolding is_stale peer_of
visit_entry now self id none s = s
visit_entry now self id (some reg) s =
    if is_stale now reg
    then record s { nodes = delete id s.nodes; expired = s.expired ++ id ∷ [] }
    else if str_eq id self
    then s
    else record s { peers = s.peers ++ peer_of id reg ∷ [] }

unfoldable pub scan_nodes : ℕ → Bytes → List Bytes → Scan → Scan
unfolding visit_entry
scan_nodes now self [] s = s
scan_nodes now self (id ∷ ids) s =
    scan_nodes now self ids (visit_entry now self id (lookup id s.nodes) s)

-- The loop behind the critical section; each notice takes two readings of the clock.
unfoldable pub note_offline : Host → ℕ → List Bytes → Lighthouse → Lighthouse
unfolding text
note_offline host i [] l = l
note_offline host i (id ∷ ids) l =
    note_offline host (i + 2) ids
      (add_event host i (text "offline") (id ++ text " went offline (registration expired)") l)

unfoldable pub scan_peers : Host → Bytes → Lighthouse → Scan
unfolding scan_nodes
scan_peers host self l =
    scan_nodes (host.now 0) self (host.order 0 (keys l.nodes))
      (record { nodes = l.nodes; expired = []; peers = [] })

-- `self` is the query's `self` parameter, empty if it is missing.
unfoldable pub handle_peers : Host → Bytes → Lighthouse → Lighthouse × Reply PeersResponse
unfolding scan_peers note_offline
handle_peers host self l =
    let s = scan_peers host self l in
    (
      note_offline host 1 s.expired (record l { nodes = s.nodes }),
      json (record { peers = s.peers }),
    )
