-- ===== src/Lighthouse/Peers/Answer.antt =====
-- What handlePeers answers and what it collects.
use quicmeshpoc.Common.{
  ℕ, Bytes, not, ◌&&◌, List, [], ◌∷◌, ◌++◌, Option, none, some, str_eq, lookup, if◌then◌else◌, ◌≡◌,
  refl, arith, member, Distinct, str_eq_iff, lookup-delete,
}
use quicmeshpoc.Protocol.{Peer}
use quicmeshpoc.Lighthouse.State.{Registration}
use quicmeshpoc.Lighthouse.Peers.{is_stale, Scan, peer_of, visit_entry, scan_nodes}

-- The entry that a client sees: an old one counts for nothing.
abbrev pub fresh : ℕ → Option Registration → Option Registration
fresh now none = none
fresh now (some reg) = if is_stale now reg then none else some reg

abbrev pub listed : Bytes → Option Registration → Option Peer
listed id none = none
listed id (some reg) = some (peer_of id reg)

unfoldable pub find_peer : Bytes → List Peer → Option Peer
find_peer k [] = none
find_peer k (p ∷ ps) = if str_eq k p.node_id then some p else find_peer k ps

unfoldable pub names : List Peer → List Bytes
names [] = []
names (p ∷ ps) = p.node_id ∷ names ps

abbrev or_else : Option Peer → Option Peer → Option Peer
or_else none o = o
or_else (some p) o = some p

find_peer-append :
    (k : Bytes) (ps qs : List Peer)
    → find_peer k (ps ++ qs) ≡ or_else (find_peer k ps) (find_peer k qs)
unfolding find_peer
find_peer-append k [] qs = refl
find_peer-append k (p ∷ ps) qs = ground (arith, find_peer-append k ps qs)

module _ (now : ℕ) (self k : Bytes) where
  pub lookup-visit_entry :
      (id : Bytes) (o : Option Registration) (s : Scan)
      → o ≡ lookup id s.nodes
      → lookup k (visit_entry now self id o s).nodes
        ≡ (if str_eq k id then fresh now o else lookup k s.nodes)
  unfolding visit_entry
  lookup-visit_entry id none s e = ground (arith, str_eq_iff k id)
  lookup-visit_entry id (some reg) s e =
      ground (arith, lookup-delete id k s.nodes, str_eq_iff k id, str_eq_iff id k)

  pub lookup-scan_nodes :
      (ids : List Bytes) (s : Scan)
      → lookup k (scan_nodes now self ids s).nodes
        ≡ (if member k ids then fresh now (lookup k s.nodes) else lookup k s.nodes)
  unfolding scan_nodes member
  lookup-scan_nodes [] s = refl
  lookup-scan_nodes (id ∷ ids) s = ground (
    arith,
    lookup-scan_nodes ids (visit_entry now self id (lookup id s.nodes) s),
    lookup-visit_entry id (lookup id s.nodes) s refl,
    str_eq_iff k id,
  )

  find_peer-visit_entry :
      (id : Bytes) (o : Option Registration) (s : Scan)
      → find_peer k (visit_entry now self id o s).peers
        ≡ or_else
            (find_peer k s.peers)
            (if str_eq k id && not (str_eq id self) then listed id (fresh now o) else none)
  unfolding visit_entry find_peer
  find_peer-visit_entry id none s = ground arith
  find_peer-visit_entry id (some reg) s =
      ground (arith, find_peer-append k s.peers (peer_of id reg ∷ []))

  pub find_peer-scan_nodes :
      (ids : List Bytes) (s : Scan)
      → Distinct ids
      → find_peer k (scan_nodes now self ids s).peers
        ≡ or_else (find_peer k s.peers) (
            if member k ids && not (str_eq k self)
            then listed k (fresh now (lookup k s.nodes))
            else none)
  unfolding scan_nodes member
  find_peer-scan_nodes [] s d = ground arith
  find_peer-scan_nodes (id ∷ ids) s d = ground (
    arith,
    find_peer-scan_nodes ids (visit_entry now self id (lookup id s.nodes) s) d.1,
    find_peer-visit_entry id (lookup id s.nodes) s,
    lookup-visit_entry id (lookup id s.nodes) s refl,
    str_eq_iff k id,
  )
