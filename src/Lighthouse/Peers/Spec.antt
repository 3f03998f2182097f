-- ===== src/Lighthouse/Peers/Spec.antt =====
-- handlePeers as a client and the state see it.
use quicmeshpoc.Common.{
  ℕ, Bytes, true, false, ◌||◌, List, [], ◌∷◌, ◌++◌, Option, none, some, str_eq, lookup, keys,
  if◌then◌else◌, ◌≡◌, refl, ap, ◌∙◌, arith, member, Distinct, str_eq_iff, member-keys,
  Distinct-concat, str_eq_refl,
}
use quicmeshpoc.Protocol.{Peer, PeersResponse}
use quicmeshpoc.Lighthouse.State.{Registration, Lighthouse, Host, VisitsAll, Reply, json}
use quicmeshpoc.Lighthouse.Frame.{core-note_offline}
use quicmeshpoc.Lighthouse.Peers.{Scan, peer_of, visit_entry, scan_nodes, scan_peers, handle_peers}
use quicmeshpoc.Lighthouse.Peers.Answer.{
  fresh, listed, find_peer, names, lookup-scan_nodes, find_peer-scan_nodes,
}

names-append : (ps qs : List Peer) → names (ps ++ qs) ≡ names ps ++ names qs
unfolding names
names-append [] qs = refl
names-append (p ∷ ps) qs = ap (◌∷◌ p.node_id) (names-append ps qs)

member-names_concat :
    (k : Bytes) (ps : List Peer) (p : Peer)
    → member k (names (ps ++ p ∷ [])) ≡ (member k (names ps) || str_eq k p.node_id)
unfolding names member
member-names_concat k [] p = ground arith
member-names_concat k (q ∷ ps) p = ground (arith, member-names_concat k ps p)

Distinct-names_concat :
    (ps : List Peer) (p : Peer)
    → Distinct (names ps)
    → member p.node_id (names ps) ≡ false
    → Distinct (names (ps ++ p ∷ []))
unfolding names
Distinct-names_concat ps p d h =
    rw (names-append ps (p ∷ [])) (Distinct-concat p.node_id (names ps) d h)

module _ (now : ℕ) (self : Bytes) where
  member-visit_entry :
      (k id : Bytes) (o : Option Registration) (s : Scan)
      → str_eq k id ≡ false
      → member k (names (visit_entry now self id o s).peers) ≡ member k (names s.peers)
  unfolding visit_entry
  member-visit_entry k id none s h = refl
  member-visit_entry k id (some reg) s h =
      ground (arith, member-names_concat k s.peers (peer_of id reg))

  Distinct-visit_entry :
      (id : Bytes) (o : Option Registration) (s : Scan)
      → Distinct (names s.peers)
      → member id (names s.peers) ≡ false
      → Distinct (names (visit_entry now self id o s).peers)
  unfolding visit_entry
  Distinct-visit_entry id none s d h = d
  Distinct-visit_entry id (some reg) s d h =
      ground (arith, Distinct-names_concat s.peers (peer_of id reg) d)

  names-scan_nodes :
      (ids : List Bytes) (s : Scan)
      → Distinct ids
      → Distinct (names s.peers)
      → ((k : Bytes) → member k ids ≡ true → member k (names s.peers) ≡ false)
      → Distinct (names (scan_nodes now self ids s).peers)
  unfolding scan_nodes member
  names-scan_nodes [] s d n apart = n
  names-scan_nodes (id ∷ ids) s d n apart =
      names-scan_nodes ids s' d.1 (Distinct-visit_entry id o s n (apart id (rw (str_eq_refl id))))
        (λ k h. ground (arith, member-visit_entry k id o s, apart k, str_eq_iff k id))
    where
      o : Option Registration
      o = lookup id s.nodes

      s' : Scan
      s' = visit_entry now self id o s

module _ (host : Host) (visits : VisitsAll host) (self : Bytes) (l : Lighthouse) where
  scan_peers_lem :
      (k : Bytes)
      → Distinct (keys l.nodes)
      → (lookup k (scan_peers host self l).nodes ≡ fresh (host.now 0) (lookup k l.nodes))
        × (find_peer k (scan_peers host self l).peers
            ≡ (if str_eq k self then none else listed k (fresh (host.now 0) (lookup k l.nodes))))
  unfolding scan_peers find_peer
  scan_peers_lem k d = ground (
    arith,
    lookup-scan_nodes (host.now 0) self k (host.order 0 (keys l.nodes))
        (record { nodes = l.nodes; expired = []; peers = [] }),
    find_peer-scan_nodes (host.now 0) self k (host.order 0 (keys l.nodes))
        (record { nodes = l.nodes; expired = []; peers = [] }) (visits.once 0 (keys l.nodes) d),
    visits.each 0 (keys l.nodes) k,
    member-keys k l.nodes,
  )

abbrev pub peers_in : Reply PeersResponse → List Peer
peers_in (json r) = r.peers
peers_in _ = []

pub handle_peers_lem :
    (host : Host) (self : Bytes) (l : Lighthouse) (k : Bytes)
    → VisitsAll host
    → Distinct (keys l.nodes)
    → let out = handle_peers host self l in
      (find_peer k (peers_in out.1)
        ≡ (if str_eq k self then none else listed k (fresh (host.now 0) (lookup k l.nodes))))
      × Distinct (names (peers_in out.1))
      × (lookup k out.0.nodes ≡ fresh (host.now 0) (lookup k l.nodes))
unfolding handle_peers scan_peers
handle_peers_lem host self l k visits d =
    let start : Scan = record { nodes = l.nodes; expired = []; peers = [] } in
    let s = scan_peers host self l in
    (
      (scan_peers_lem host visits self l k d).1,
      names-scan_nodes (host.now 0) self (host.order 0 (keys l.nodes)) start
          (visits.once 0 (keys l.nodes) d) (unfold names in tt)
          (λ j h. unfold names member in refl),
      ap (λ (m : Lighthouse). lookup k m.nodes)
            (core-note_offline host 1 s.expired (record l { nodes = s.nodes }))
          ∙ (scan_peers_lem host visits self l k d).0,
    )
