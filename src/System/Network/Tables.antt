-- ===== src/System/Network/Tables.antt =====
-- What the steps of a client do to the incarnations that it has its links under.
use quicmeshpoc.Common.{
  ℕ, Bytes, Bool, true, false, not, ◌&&◌, List, [], ◌∷◌, Option, none, some, All, is_some, str_eq,
  str_eq_iff, lookup, lookup-insert, lookup-delete, is_plain, if◌then◌else◌, ◌≡◌, ◌≢◌, inl, inr,
  refl, ◌∙◌, arith, Bool-cases,
}
use quicmeshpoc.Protocol.{Peer}
use quicmeshpoc.Mesh.State.{Mesh, PeerConn}
use quicmeshpoc.Mesh.Names.{incarnation_changed}
use quicmeshpoc.Mesh.Links.{
  Dialed, linked, dial_failed, dial_peer, poll, end_reader, reap_stale, reap_one, drop_link,
  auto_connect, auto_one, connect, remove_conn,
}
use quicmeshpoc.Mesh.Links.Table.{dial_peer_lem}
use quicmeshpoc.Mesh.Links.Poll.{shows_restart, in_roster, poll_lem}
use quicmeshpoc.Mesh.Inbound.{hello_line, handle_inbound, accept}
use quicmeshpoc.Mesh.Inbound.Hello.{handle_inbound-hello_line}
use quicmeshpoc.System.Network.{held, holds}

-- The process of a client, which its steps leave alone.
abbrev pub Same : Mesh → Mesh → Type 0
Same m m' = (m'.node_id ≡ m.node_id) × (m'.incarnation ≡ m.incarnation)

Same-if : (m : Mesh) (b : Bool) (s t : Mesh) → Same m s → Same m t → Same m (if b then s else t)
Same-if m true s t h k = h
Same-if m false s t h k = k

then_Same : (m m' m'' : Mesh) → Same m m' → Same m' m'' → Same m m''
then_Same m m' m'' h k = (k.0 ∙ h.0, k.1 ∙ h.1)

drop_link-Same : (o : Option PeerConn) (p : Peer) (m : Mesh) → Same m (drop_link o p m).0
unfolding drop_link remove_conn
drop_link-Same none p m = (refl, refl)
drop_link-Same (some pc) p m = (refl, refl)

reap_one-Same : (p : Peer) (m : Mesh) → Same m (reap_one p m).0
unfolding reap_one
reap_one-Same p m = ground (arith, drop_link-Same (lookup p.node_id m.conns) p m)

reap_stale-Same : (ps : List Peer) (m : Mesh) → Same m (reap_stale ps m).0
unfolding reap_stale
reap_stale-Same [] m = (refl, refl)
reap_stale-Same (p ∷ ps) m =
    then_Same m (reap_one p m).0 (reap_stale ps (reap_one p m).0).0 (reap_one-Same p m)
      (reap_stale-Same ps (reap_one p m).0)

auto_one-Same : (p : Peer) (m : Mesh) → Same m (auto_one p m).0
unfolding auto_one connect
auto_one-Same p m = ground arith

auto_connect-Same : (ps : List Peer) (m : Mesh) → Same m (auto_connect ps m).0
unfolding auto_connect
auto_connect-Same [] m = (refl, refl)
auto_connect-Same (p ∷ ps) m =
    then_Same m (auto_one p m).0 (auto_connect ps (auto_one p m).0).0 (auto_one-Same p m)
      (auto_connect-Same ps (auto_one p m).0)

pub poll-Same : (ps : List Peer) (m : Mesh) → Same m (poll (some ps) m).0
unfolding poll
poll-Same ps m =
    then_Same m (reap_stale ps m).0 (auto_connect ps (reap_stale ps m).0).0 (reap_stale-Same ps m)
      (auto_connect-Same ps (reap_stale ps m).0)

module _ (k i : Bytes) where
  pub holds-poll :
      (ps : List Peer) (m : Mesh)
      → holds k i (poll (some ps) m).0
        ≡ (holds k i m && not (shows_restart k (lookup k m.conns) ps))
  holds-poll ps m = ground (arith, (poll_lem ps m k).0)

  pub holds-dial_peer :
      (p : Peer) (c : ℕ) (m : Mesh)
      → holds k i (dial_peer p (linked c) m).0
        ≡ (if str_eq p.node_id k then str_eq p.incarnation i else holds k i m)
  holds-dial_peer p c m = ground (arith, (dial_peer_lem p (linked c) m k).1)

  pub holds-dial_failed :
      (p : Peer) (err : Bytes) (m : Mesh)
      → holds k i (dial_peer p (dial_failed err) m).0 ≡ holds k i m
  holds-dial_failed p err m = ground (arith, (dial_peer_lem p (dial_failed err) m k).1)

  pub holds-handle_inbound :
      (d : ℕ) (remote id incarnation : Bytes) (m : Mesh)
      → is_plain id ≡ true
      → is_plain incarnation ≡ true
      → id ≢ []
      → holds k i (handle_inbound d remote (some (hello_line id incarnation)) m).0
        ≡ (if str_eq id k then str_eq incarnation i else holds k i m)
  unfolding accept
  holds-handle_inbound d remote id incarnation m p q h =
      rw ((handle_inbound-hello_line d remote id incarnation m p q h).0) (
        ground (
          arith,
          lookup-insert id k (record { node_id = id; incarnation = incarnation; conn = d }) m.conns,
        ))

  pub holds-end_reader :
      (b err : Bytes) (m : Mesh)
      → holds k i (end_reader b err m).0 ≡ (not (str_eq b k) && holds k i m)
  unfolding end_reader remove_conn
  holds-end_reader b err m = ground (arith, lookup-delete b k m.conns)

pub dial_peer-Same : (p : Peer) (d : Dialed) (m : Mesh) → Same m (dial_peer p d m).0
unfolding dial_peer
dial_peer-Same p (linked c) m = (refl, refl)
dial_peer-Same p (dial_failed err) m = (refl, refl)
dial_peer-Same p _ m = (refl, refl)

pub handle_inbound-Same :
    (d : ℕ) (remote id incarnation : Bytes) (m : Mesh)
    → is_plain id ≡ true
    → is_plain incarnation ≡ true
    → id ≢ []
    → Same m (handle_inbound d remote (some (hello_line id incarnation)) m).0
unfolding accept
handle_inbound-Same d remote id incarnation m p q h =
    rw ((handle_inbound-hello_line d remote id incarnation m p q h).0) (refl, refl)

pub table-handle_inbound :
    (k : Bytes) (d : ℕ) (remote id incarnation : Bytes) (m : Mesh)
    → is_plain id ≡ true
    → is_plain incarnation ≡ true
    → id ≢ []
    → let m' = (handle_inbound d remote (some (hello_line id incarnation)) m).0 in
      (lookup k m'.conns ≡ (
        if str_eq id k
        then some (record { node_id = id; incarnation = incarnation; conn = d })
        else lookup k m.conns))
      × (m'.dialing ≡ m.dialing)
unfolding accept
table-handle_inbound k d remote id incarnation m p q h =
    rw ((handle_inbound-hello_line d remote id incarnation m p q h).0) (
      lookup-insert id k (record { node_id = id; incarnation = incarnation; conn = d }) m.conns,
      refl,
    )

module _ (now : Bytes → Bytes) (k : Bytes) where
  abbrev pub AllNow : List Peer → Type 0
  AllNow ps = All (λ (p : Peer). p.incarnation ≡ now p.node_id) ps

  -- A roster of what the nodes are now shows no restart of a link under the incarnation of now.
  pub shows_restart_now :
      (link : Option PeerConn) (ps : List Peer)
      → AllNow ps
      → held (now k) link ≡ true
      → shows_restart k link ps ≡ false
  unfolding incarnation_changed
  shows_restart_now none ps a e = ground (arith, e)
  shows_restart_now (some pc) [] a e = refl
  shows_restart_now (some pc) (p ∷ ps) a e = ground (
    arith,
    shows_restart_now (some pc) ps a.1 e,
    a.0,
    e,
    str_eq_iff pc.incarnation (now k),
    str_eq_iff p.node_id k,
    str_eq_iff pc.incarnation p.incarnation,
  )

  -- And if it lists the node, it shows one of every other link, if no incarnation is empty.
  pub shows_restart_before :
      (link : Option PeerConn) (ps : List Peer)
      → AllNow ps
      → in_roster k ps ≡ true
      → now k ≢ []
      → held [] link ≡ false
      → is_some link ≡ true
      → shows_restart k link ps ≡ false
      → held (now k) link ≡ true
  unfolding incarnation_changed
  shows_restart_before none ps a r n o i s = ground (arith, i)
  shows_restart_before (some pc) [] a r n o i s = ground (arith, r)
  shows_restart_before (some pc) (p ∷ ps) a r n o i s = elim (Bool-cases (str_eq p.node_id k)) [
    | inl at ↦ ground (
      arith,
      a.0,
      s,
      at,
      n,
      o,
      str_eq_iff p.node_id k,
      str_eq_iff p.incarnation [],
      str_eq_iff (now k) [],
      str_eq_iff pc.incarnation p.incarnation,
      str_eq_iff pc.incarnation (now k),
    )
    | inr at ↦
        shows_restart_before (some pc) ps a.1 (ground (arith, r, at)) n o i (ground (arith, s, at))
  ]
