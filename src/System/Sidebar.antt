-- ===== src/System/Sidebar.antt =====
-- From the lighthouse's roster to the sidebar: handlePeers of cmd/lighthouse/main.go, whose loop over a
-- map has no promised order, and mergePeers of cmd/quicchat/tui.go.
use quicmeshpoc.Common.{
  Bytes, true, false, List, [], ◌∷◌, none, some, str_eq, str_eq_iff, str_eq_sym, str_eq_refl,
  str_lt, Bool-cases, inl, inr, str_lt_total, str_lt_trans, keys, lookup, Map, member, Distinct,
  if◌then◌else◌, ◌≡◌, refl, ap, ◌∙◌, sym, arith,
}
use quicmeshpoc.Protocol.{Peer}
use quicmeshpoc.Lighthouse.State.{Lighthouse, Host, VisitsAll}
use quicmeshpoc.Lighthouse.Peers.{handle_peers}
use quicmeshpoc.Lighthouse.Peers.Answer.{find_peer, names}
use quicmeshpoc.Lighthouse.Peers.Spec.{peers_in, handle_peers_lem}
use quicmeshpoc.Mesh.State.{ConnState}
use quicmeshpoc.Tui.{PeerView, Model, insert_row, sort_rows, real_rows, merge_peers, state_of}

-- A name that is not behind another is before those that the other is before.
not_after : (a b c : Bytes) → str_lt b a ≡ false → str_lt b c ≡ true → str_lt a c ≡ true
not_after a b c h k = elim (Bool-cases (str_eq a b)) [
  | inl e ↦ rw ((str_eq_iff a b).0 e) k
  | inr e ↦ str_lt_trans a b c (ground (arith, h, e, str_lt_total a b)) k
]

-- Two rows with different names find their places in either order.
insert_row_comm :
    (v w : PeerView) (ws : List PeerView)
    → str_eq v.node_id w.node_id ≡ false
    → insert_row v (insert_row w ws) ≡ insert_row w (insert_row v ws)
unfolding insert_row
insert_row_comm v w [] h = ground (
  arith,
  h,
  str_lt_total v.node_id w.node_id,
  str_lt_total w.node_id v.node_id,
  str_eq_sym v.node_id w.node_id,
)
insert_row_comm v w (x ∷ ws) h = ground (
  arith,
  h,
  insert_row_comm v w ws h,
  not_after v.node_id x.node_id w.node_id,
  not_after w.node_id x.node_id v.node_id,
  str_lt_total v.node_id w.node_id,
)

abbrev row : Map ConnState → Peer → PeerView
row states p = record {
  node_id = p.node_id;
  addr = p.addr;
  local_addrs = p.local_addrs;
  state = state_of p.node_id states;
}

abbrev without : Bytes → List Peer → List Peer
without k [] = []
without k (p ∷ ps) = let rest = without k ps in if str_eq k p.node_id then rest else p ∷ rest

find_peer-without :
    (k j : Bytes) (ps : List Peer)
    → find_peer j (without k ps) ≡ (if str_eq k j then none else find_peer j ps)
unfolding find_peer
find_peer-without k j [] = ground arith
find_peer-without k j (p ∷ ps) = ground (
  arith,
  find_peer-without k j ps,
  str_eq_iff k p.node_id,
  str_eq_iff j p.node_id,
  str_eq_iff k j,
)

member-find_peer :
    (k : Bytes) (ps : List Peer) → member k (names ps) ≡ false → find_peer k ps ≡ none
unfolding find_peer names member
member-find_peer k [] h = refl
member-find_peer k (p ∷ ps) h = ground (arith, h, member-find_peer k ps)

member-without :
    (k j : Bytes) (ps : List Peer)
    → member j (names ps) ≡ false
    → member j (names (without k ps)) ≡ false
unfolding names member
member-without k j [] h = h
member-without k j (p ∷ ps) h = ground (arith, h, member-without k j ps)

Distinct-without :
    (k : Bytes) (ps : List Peer) → Distinct (names ps) → Distinct (names (without k ps))
unfolding names
Distinct-without k [] d = tt
Distinct-without k (p ∷ ps) d =
    ground (arith, d.0, Distinct-without k ps d.1, member-without k p.node_id ps)

without_missing : (k : Bytes) (ps : List Peer) → member k (names ps) ≡ false → without k ps ≡ ps
unfolding names member
without_missing k [] h = refl
without_missing k (p ∷ ps) h = ground (arith, h, without_missing k ps)

-- The rows of a roster are those of the roster without an entry, and the entry's row in its place.
sort_rows-without :
    (states : Map ConnState) (p : Peer) (ps : List Peer)
    → Distinct (names ps)
    → find_peer p.node_id ps ≡ some p
    → sort_rows (real_rows states ps)
      ≡ insert_row (row states p) (sort_rows (real_rows states (without p.node_id ps)))
unfolding sort_rows real_rows find_peer names
sort_rows-without states p [] d e = ground (arith, e)
sort_rows-without states p (q ∷ ps) d e = elim (Bool-cases (str_eq p.node_id q.node_id)) [
  | inl same ↦
      let first : q ≡ p = ground (arith, e, same) in
      rw
        (
          same,
          without_missing p.node_id ps (ground (arith, d.0, same, str_eq_iff p.node_id q.node_id)),
        )
        (ap (λ (r : Peer). insert_row (row states r) (sort_rows (real_rows states ps))) first)
  | inr apart ↦ rw apart (
      ap (insert_row (row states q)) (sort_rows-without states p ps d.1 (ground (arith, e, apart)))
      ∙ insert_row_comm (row states q) (row states p)
          (sort_rows (real_rows states (without p.node_id ps)))
          (str_eq_sym q.node_id p.node_id ∙ apart))
]

-- Rosters that list the same entries have the same rows.
same_rows :
    (states : Map ConnState) (ps qs : List Peer)
    → Distinct (names ps)
    → Distinct (names qs)
    → ((k : Bytes) → find_peer k ps ≡ find_peer k qs)
    → sort_rows (real_rows states ps) ≡ sort_rows (real_rows states qs)
unfolding sort_rows real_rows find_peer names
same_rows states [] [] d c h = refl
same_rows states [] (q ∷ qs) d c h = ground (arith, h q.node_id, str_eq_refl q.node_id)
same_rows states (p ∷ ps) qs d c h =
    ap (insert_row (row states p)) (
      same_rows states ps (without p.node_id qs) d.1 (Distinct-without p.node_id qs c) (λ k.
        ground (
          arith,
          h k,
          find_peer-without p.node_id k qs,
          member-find_peer k ps,
          d.0,
          str_eq_iff k p.node_id,
          str_eq_iff p.node_id k,
        )))
    ∙ sym (sort_rows-without states p qs c (ground (arith, h p.node_id, str_eq_refl p.node_id)))

-- The sidebar that a roster leads to depends neither on the order in which the lighthouse's loop over
-- its map lists the nodes nor on how the map came to hold its entries: two runs of handlePeers at one
-- time, on maps with the same entries, lead every model of the interface to the same one, if
-- each loop visits every key once.
pub merge_peers-handle_peers :
    {I : Type 0} (host host' : Host) (self : Bytes) (l l' : Lighthouse) (m : Model I)
    → VisitsAll host
    → VisitsAll host'
    → host.now 0 ≡ host'.now 0
    → Distinct (keys l.nodes)
    → Distinct (keys l'.nodes)
    → ((k : Bytes) → lookup k l.nodes ≡ lookup k l'.nodes)
    → merge_peers (peers_in (handle_peers host self l).1) m
      ≡ merge_peers (peers_in (handle_peers host' self l').1) m
unfolding merge_peers
merge_peers-handle_peers host host' self l l' m visits visits' now d d' same =
    let rows =
      same_rows m.states _ _ (handle_peers_lem host self l [] visits d).1
        (handle_peers_lem host' self l' [] visits' d').1
        (λ k. ground (
          arith,
          handle_peers_lem host self l k visits d,
          handle_peers_lem host' self l' k visits' d',
          now,
          same k,
        )) in
    rw rows refl
