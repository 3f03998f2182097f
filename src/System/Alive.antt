-- ===== src/System/Alive.antt =====
-- registerLoop of cmd/quicchat/mesh.go against the TTL of cmd/lighthouse/main.go.
use quicmeshpoc.Common.{
  ℕ, ◌+◌, ◌≤◌, Bytes, false, not, ◌&&◌, [], ◌∷◌, Option, none, some, str_eq, lookup, if◌then◌else◌,
  ◌≡◌, refl, ap, ◌∙◌, sym, arith,
}
use quicmeshpoc.Lighthouse.State.{Registration, Lighthouse, Host, VisitsAll, peer_ttl}
use quicmeshpoc.Lighthouse.Register.{registration}
use quicmeshpoc.Lighthouse.Peers.{handle_peers, peer_of, is_stale}
use quicmeshpoc.Lighthouse.Peers.Answer.{fresh, find_peer}
use quicmeshpoc.Lighthouse.Peers.Spec.{peers_in, handle_peers_lem}
use quicmeshpoc.Lighthouse.Connect.{queued}
use quicmeshpoc.Lighthouse.Serve.{
  Call, registers, lists, connects, reports, opens, wakes, closes, watches, shows, leaves, step,
  History, run,
}
use quicmeshpoc.Lighthouse.Serve.Invariant.{Inv, step-Inv}
use quicmeshpoc.Lighthouse.Board.{Board, obey, posted}
use quicmeshpoc.Lighthouse.Board.Refines.{ask_of, step-Shows, AllVisit}

-- The registration that a call leaves of a node, if it is not too old for a reader.
abbrev pub renewed : Bytes → Host → Call → Registration → Registration
renewed id host (registers (some req) addr) reg =
    if not (str_eq req.node_id []) && str_eq req.node_id id
    then registration (host.now 0) req addr
    else reg
renewed id host _ reg = reg

abbrev pub latest : Bytes → Registration → History → Registration
latest id reg [] = reg
latest id reg ((host, c) ∷ h) = latest id (renewed id host c reg) h

-- No call comes later than the TTL after the node's last registration.
abbrev pub Renewed : Bytes → Registration → History → Type 0
Renewed id reg [] = Unit
Renewed id reg ((host, c) ∷ h) =
    (host.now 0 ≤ reg.last_seen + peer_ttl) × Renewed id (renewed id host c reg) h

abbrev board_of : Lighthouse → Board
board_of l = record { registered = λ k. lookup k l.nodes; mail = λ k. queued k l }

fresh-some :
    (now : ℕ) (reg : Registration)
    → now ≤ reg.last_seen + peer_ttl
    → fresh now (some reg) ≡ some reg
unfolding is_stale
fresh-some now reg h = ground arith

registered-posted :
    (from to id : Bytes) (o : Option Registration) (b : Board)
    → (posted from to o b).registered id ≡ b.registered id
registered-posted from to id none b = refl
registered-posted from to id (some reg) b = refl

registered-obey :
    (id : Bytes) (host : Host) (c : Call) (l : Lighthouse) (b : Board) (reg : Registration)
    → host.now 0 ≤ reg.last_seen + peer_ttl
    → b.registered id ≡ some reg
    → (obey (ask_of host c l) b).registered id ≡ some (renewed id host c reg)
unfolding obey ask_of
registered-obey id host (registers none addr) l b reg t h = h
registered-obey id host (registers (some req) addr) l b reg t h = ground (arith, h)
registered-obey id host (lists self) l b reg t h =
    ap (fresh (host.now 0)) h ∙ fresh-some (host.now 0) reg t
registered-obey id host (connects none) l b reg t h = h
registered-obey id host (connects (some req)) l b reg t h =
    ground (arith, h, registered-posted req.from req.to id (b.registered req.from) b)
registered-obey id host (reports body) l b reg t h = h
registered-obey id host (opens self) l b reg t h = ground (arith, h)
registered-obey id host (wakes self ch) l b reg t h = ground (arith, h)
registered-obey id host (closes self ch) l b reg t h = h
registered-obey id host watches l b reg t h = h
registered-obey id host (shows ch) l b reg t h = h
registered-obey id host (leaves ch) l b reg t h = h

lookup-step :
    (id : Bytes) (host : Host) (c : Call) (l : Lighthouse) (reg : Registration)
    → VisitsAll host
    → Inv l
    → host.now 0 ≤ reg.last_seen + peer_ttl
    → lookup id l.nodes ≡ some reg
    → lookup id (step host c l).nodes ≡ some (renewed id host c reg)
lookup-step id host c l reg visits v t h =
    sym (step-Shows host c (board_of l) l visits v (λ k. (refl, refl)) id).0
    ∙ registered-obey id host c l (board_of l) reg t h

lookup-run :
    (id : Bytes) (h : History) (l : Lighthouse) (reg : Registration)
    → AllVisit h
    → Inv l
    → Renewed id reg h
    → lookup id l.nodes ≡ some reg
    → (lookup id (run l h).nodes ≡ some (latest id reg h)) × Inv (run l h)
unfolding run
lookup-run id [] l reg a v r e = (e, v)
lookup-run id ((host, c) ∷ h) l reg a v r e =
    lookup-run id h (step host c l) (renewed id host c reg) a.1 (step-Inv host c l v) r.1
      (lookup-step id host c l reg a.0 v r.0 e)

-- A node that is registered stays in the roster of every other node as long as it registers again in
-- time: after any history of calls, none of them and no reading of the roster later than the TTL
-- after the node's last registration, it is listed with what it registered last. A loop over a
-- map visits each key once, as Go promises.
pub stays_listed :
    (id self : Bytes) (host : Host) (h : History) (l : Lighthouse) (reg : Registration)
    → VisitsAll host
    → AllVisit h
    → Inv l
    → lookup id l.nodes ≡ some reg
    → Renewed id reg h
    → host.now 0 ≤ (latest id reg h).last_seen + peer_ttl
    → str_eq id self ≡ false
    → find_peer id (peers_in (handle_peers host self (run l h)).1)
      ≡ some (peer_of id (latest id reg h))
stays_listed id self host h l reg visits a v e r t other =
    let ran = lookup-run id h l reg a v r e in
    let read = (handle_peers_lem host self (run l h) id visits ran.1.tables.nodes_once).0 in
    ground (arith, read, ran.0, other, fresh-some (host.now 0) (latest id reg h) t)
