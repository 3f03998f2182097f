-- ===== src/System/Network/Rest.antt =====
-- A net at rest.
use quicmeshpoc.Common.{Bytes, true, false, List, [], some, is_some, lookup, ◌≡◌, refl, ap, arith}
use quicmeshpoc.Protocol.{Peer}
use quicmeshpoc.Mesh.State.{Mesh}
use quicmeshpoc.Mesh.Names.{initiates}
use quicmeshpoc.Mesh.Links.{poll}
use quicmeshpoc.Mesh.Links.Table.{has_link, is_dialing}
use quicmeshpoc.Mesh.Links.Poll.{in_roster, shows_restart, poll_lem}
use quicmeshpoc.System.Network.{
  Net, incarnation_of, holds, IsCurrent, Step, polls, links, fails, arrives, ends, restarts, Reach,
  here, next, IsStart,
}
use quicmeshpoc.System.Network.Tables.{shows_restart_before}
use quicmeshpoc.System.Network.Invariant.{Inv, after-Inv}
use quicmeshpoc.System.Network.Steps.{polls-Owes, fails-Owes, links-Owes, ends-Owes}
use quicmeshpoc.System.Network.Arrivals.{arrives-Owes, restarts-Inv}

pub Step-Inv : {s t : Net} → Step s t → Inv s → Inv t
Step-Inv {s} (polls a peers cur) v = after-Inv s a _ s.wire s.lost v (polls-Owes s v a peers cur)
Step-Inv {s} (links a p c marked first given plain_a plain_i name) v =
    after-Inv s a _ _ s.lost v (links-Owes s v a p c first given plain_a plain_i name)
Step-Inv {s} (fails a p err) v = after-Inv s a _ s.wire s.lost v (fails-Owes s v a p err)
Step-Inv {s} (arrives before behind h d remote e) v =
    after-Inv s h.to _ _ _ v (arrives-Owes s v before behind h d remote e)
Step-Inv {s} (ends a b err) v = after-Inv s a _ s.wire _ v (ends-Owes s v a b err)
Step-Inv {s} (restarts a incarnation given new) v = restarts-Inv s v a incarnation given new

pub Reach-Inv : {s t : Net} → Inv s → Reach s t → Inv t
Reach-Inv v here = v
Reach-Inv v (next r st) = Step-Inv st (Reach-Inv v r)

module _ (s : Net) (h : IsStart s) where
  no_links : (k b i : Bytes) → holds b i (s.clients k) ≡ false
  unfolding lookup
  no_links k b i = rw (ap (holds b i) (h.fresh k)) refl

  pub start-Inv : Inv s
  start-Inv = record {
    names = λ k. ap (λ (m : Mesh). m.node_id) (h.fresh k);
    given = h.given;
    sound = rw h.quiet tt;
    known = λ a b. ground (arith, no_links a b []);
    kept = λ a b. ground (arith, no_links a b (incarnation_of s b));
  }

-- The client that is to dial, when its next round starts no dial: it has a link to the
-- other's present process.
pub dialer_linked :
    (t : Net) (a b : Bytes) (peers : List Peer)
    → Inv t
    → initiates a b ≡ true
    → IsCurrent t peers
    → in_roster b peers ≡ true
    → is_dialing b (poll (some peers) (t.clients a)).0 ≡ false
    → holds b (incarnation_of t b) (t.clients a) ≡ true
dialer_linked t a b peers v first cur listed idle =
    let m = t.clients a in
    let round = poll_lem peers m b in
    let link = lookup b m.conns in
    let name : initiates m.node_id b ≡ true = rw (v.names a) first in
    let linked_after : has_link b (poll (some peers) m).0 ≡ true =
      ground (arith, round.1, listed, idle, name) in
    let shown : shows_restart b link peers ≡ false = ground (arith, round.0, linked_after) in
    let before : is_some link ≡ true = ground (arith, round.0, linked_after, shown) in
    shows_restart_before (incarnation_of t) b link peers cur listed (v.given b)
      (ground (arith, v.known a b, first)) before shown
