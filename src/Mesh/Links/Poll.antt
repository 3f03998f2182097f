-- ===== src/Mesh/Links/Poll.antt =====
-- One round of peersLoop.
use quicmeshpoc.Common.{
  Bytes, Bool, true, false, not, ◌&&◌, ◌||◌, List, [], ◌∷◌, Option, none, some, is_some, lookup,
  Map, if◌then◌else◌, ◌≡◌, refl, ap, ◌∙◌, arith, str_eq, str_eq_iff, lookup-delete, Bool-cases, inl,
  inr,
}
use quicmeshpoc.Protocol.{Peer}
use quicmeshpoc.Mesh.State.{PeerConn, Mesh}
use quicmeshpoc.Mesh.Names.{initiates}
use quicmeshpoc.Mesh.Links.{reap_one, reap_stale, auto_one, auto_connect, poll, is_stale, drop_link}
use quicmeshpoc.Mesh.Links.Table.{has_link, is_dialing, connect_lem}

-- Whether the roster shows the peer of the link under another incarnation.
abbrev pub shows_restart : Bytes → Option PeerConn → List Peer → Bool
shows_restart k link [] = false
shows_restart k link (p ∷ ps) = (str_eq p.node_id k && is_stale link p) || shows_restart k link ps

abbrev pub in_roster : Bytes → List Peer → Bool
in_roster k [] = false
in_roster k (p ∷ ps) = str_eq p.node_id k || in_roster k ps

lookup-drop_link :
    (o : Option PeerConn) (p : Peer) (m : Mesh) (k : Bytes)
    → o ≡ lookup p.node_id m.conns
    → lookup k (if is_stale o p then drop_link o p m else (m, [])).0.conns
      ≡ (if str_eq p.node_id k && is_stale (lookup k m.conns) p then none else lookup k m.conns)
unfolding drop_link
lookup-drop_link none p m k e = ground (arith, str_eq_iff p.node_id k)
lookup-drop_link (some pc) p m k e =
    ground (arith, lookup-delete p.node_id k m.conns, str_eq_iff p.node_id k)

dialing-drop_link :
    (o : Option PeerConn) (p : Peer) (m : Mesh)
    → let m' = (if is_stale o p then drop_link o p m else (m, [])).0 in
      (m'.dialing ≡ m.dialing) × (m'.node_id ≡ m.node_id)
unfolding drop_link
dialing-drop_link none p m = ground arith
dialing-drop_link (some pc) p m = ground arith

shows_restart-none : (k : Bytes) (ps : List Peer) → shows_restart k none ps ≡ false
shows_restart-none k [] = refl
shows_restart-none k (p ∷ ps) = ground (arith, shows_restart-none k ps)

lookup-reap_stale :
    (ps : List Peer) (m : Mesh) (k : Bytes)
    → lookup k (reap_stale ps m).0.conns
      ≡ (if shows_restart k (lookup k m.conns) ps then none else lookup k m.conns)
unfolding reap_stale reap_one
lookup-reap_stale [] m k = refl
lookup-reap_stale (p ∷ ps) m k = ground (
  arith,
  lookup-reap_stale ps (reap_one p m).0 k,
  lookup-drop_link (lookup p.node_id m.conns) p m k refl,
  shows_restart-none k ps,
)

reap_stale-keeps :
    (ps : List Peer) (m : Mesh)
    → ((reap_stale ps m).0.dialing ≡ m.dialing) × ((reap_stale ps m).0.node_id ≡ m.node_id)
unfolding reap_stale reap_one
reap_stale-keeps [] m = (refl, refl)
reap_stale-keeps (p ∷ ps) m =
    let one = dialing-drop_link (lookup p.node_id m.conns) p m in
    let rest = reap_stale-keeps ps (reap_one p m).0 in (rest.0 ∙ one.0, rest.1 ∙ one.1)

auto_one-keeps :
    (p : Peer) (m : Mesh)
    → ((auto_one p m).0.conns ≡ m.conns) × ((auto_one p m).0.node_id ≡ m.node_id)
unfolding auto_one
auto_one-keeps p m = ground arith

auto_one-dialing :
    (p : Peer) (m : Mesh) (k : Bytes)
    → is_dialing k (auto_one p m).0
      ≡ (is_dialing k m || (str_eq p.node_id k && initiates m.node_id k && not (has_link k m)))
unfolding auto_one
auto_one-dialing p m k = elim (Bool-cases (initiates m.node_id p.node_id)) [
  | inl e ↦ rw (e, (connect_lem p m k).1) (ground (arith, e, str_eq_iff p.node_id k))
  | inr e ↦ rw e (ground (arith, e, str_eq_iff p.node_id k))
]

auto_connect_lem :
    (ps : List Peer) (m : Mesh) (k : Bytes)
    → ((auto_connect ps m).0.conns ≡ m.conns)
      × (is_dialing k (auto_connect ps m).0
          ≡ (is_dialing k m || (in_roster k ps && initiates m.node_id k && not (has_link k m))))
unfolding auto_connect
auto_connect_lem [] m k = (refl, ground arith)
auto_connect_lem (p ∷ ps) m k =
    let m' = (auto_one p m).0 in
    let kept = auto_one-keeps p m in
    let rest = auto_connect_lem ps m' k in
    (
      rest.0 ∙ kept.0,
      ground (
        arith,
        rest.1,
        auto_one-dialing p m k,
        ap (λ (c : Map PeerConn). is_some (lookup k c)) kept.0,
        ap (λ (id : Bytes). initiates id k) kept.1,
      ),
    )

-- Which dials are on their way after a round.
pub dialing-poll :
    (peers : List Peer) (m : Mesh) (k : Bytes)
    → is_dialing k (poll (some peers) m).0 ≡ (
        is_dialing k m
        || (in_roster k peers && initiates m.node_id k && not (has_link k (poll (some peers) m).0)))
unfolding poll
dialing-poll peers m k =
    let reaped = (reap_stale peers m).0 in
    let kept = reap_stale-keeps peers m in
    let dialed = auto_connect_lem peers reaped k in
    ground (
      arith,
      dialed.1,
      ap (λ (c : Map PeerConn). is_some (lookup k c)) dialed.0,
      ap (λ (d : Map (Unit {0})). is_some (lookup k d)) kept.0,
      ap (λ (id : Bytes). initiates id k) kept.1,
    )

pub poll_lem :
    (peers : List Peer) (m : Mesh) (k : Bytes)
    → let m' = (poll (some peers) m).0 in
      (lookup k m'.conns
        ≡ (if shows_restart k (lookup k m.conns) peers then none else lookup k m.conns))
      × ((not (in_roster k peers && initiates m.node_id k) || has_link k m' || is_dialing k m')
          ≡ true)
      × (poll none m ≡ (m, []))
unfolding poll
poll_lem peers m k =
    let reaped = (reap_stale peers m).0 in
    let kept = reap_stale-keeps peers m in
    let dialed = auto_connect_lem peers reaped k in
    (
      ap (lookup k) dialed.0 ∙ lookup-reap_stale peers m k,
      ground (
        arith,
        dialed.1,
        ap (λ (c : Map PeerConn). is_some (lookup k c)) dialed.0,
        ap (λ (id : Bytes). initiates id k) kept.1,
      ),
      refl,
    )
