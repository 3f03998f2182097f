-- ===== src/System/Network/Lost.antt =====
-- A link that only the client that dialed has: readLoopReader of cmd/quicchat/mesh.go removes a peer by
-- name when any connection to it ends.
use quicmeshpoc.Common.{
  ℕ, Bytes, Bool, true, false, ◌&&◌, ◌||◌, List, ◌∷◌, ◌++◌, All, some, is_some, str_eq, str_eq_iff,
  lookup, ◌≡◌, refl, ap, ◌∙◌, sym, subst, arith, Bool-cases, inl, inr, if◌then◌else◌,
}
use quicmeshpoc.Protocol.{Peer}
use quicmeshpoc.Mesh.State.{Mesh}
use quicmeshpoc.Mesh.Names.{initiates, initiates_once}
use quicmeshpoc.Mesh.Links.{linked, dial_peer, poll}
use quicmeshpoc.Mesh.Links.Table.{has_link, is_dialing, dial_peer_lem}
use quicmeshpoc.Mesh.Links.Poll.{poll_lem, dialing-poll}
use quicmeshpoc.Mesh.Inbound.{hello_line, handle_inbound}
use quicmeshpoc.System.Network.{
  Hello, Net, update_client, incarnation_of, holds, found_by, Step, polls, links, fails, arrives,
  ends, restarts,
}
use quicmeshpoc.System.Network.Tables.{
  Same, poll-Same, dial_peer-Same, handle_inbound-Same, holds-poll, holds-dial_peer,
  holds-handle_inbound, shows_restart_now, table-handle_inbound,
}
use quicmeshpoc.System.Network.Invariant.{waits, IsSound, Inv, after}
use quicmeshpoc.System.Network.Steps.{held-is_some}
use quicmeshpoc.System.Network.Arrivals.{All-remove, waits-append}
use quicmeshpoc.System.Network.Rest.{Step-Inv}
use quicmeshpoc.System.Network.Keeps.{Onward, at_rest, then_on, is_onward}

at_client :
    (P : Mesh → Type 0) (clients : Bytes → Mesh) (x : Bytes) (m : Mesh) (k : Bytes)
    → P (clients k)
    → (x ≡ k → P m)
    → P (update_client clients x m k)
at_client P clients x m k old new = elim (Bool-cases (str_eq x k)) [
  | inl e ↦ rw e (new ((str_eq_iff x k).0 e))
  | inr e ↦ rw e old
]

-- `a`, which dials first, is linked to the present process `i` of `b`, which has no link to it; no dial
-- and no HELLO is on its way.
module _ (a b i : Bytes) (first : initiates a b ≡ true) where
  pub record OneSided (t : Net) : Type 0 where
    pub now : incarnation_of t b ≡ i
    pub mine : holds b i (t.clients a) ≡ true
    pub unmarked : is_dialing b (t.clients a) ≡ false
    pub no_line : waits a b t.wire ≡ false
    pub gone : has_link a (t.clients b) ≡ false

  module _ (s : Net) (h : OneSided s) where
    after-OneSided :
        (x : Bytes) (m' : Mesh) (wire' : List Hello) (lost' : Bytes → Bytes → Bool)
        → Same (s.clients x) m'
        → (x ≡ a → (holds b i m' ≡ true) × (is_dialing b m' ≡ false))
        → (x ≡ b → has_link a m' ≡ false)
        → waits a b wire' ≡ false
        → OneSided (after s x m' wire' lost')
    after-OneSided x m' wire' lost' same at_a at_b none_waits = record {
      now =
          at_client (λ (m : Mesh). m.incarnation ≡ i) s.clients x m' b h.now
            (λ e. same.1 ∙ ap (incarnation_of s) e ∙ h.now);
      mine = at_client (λ (m : Mesh). holds b i m ≡ true) s.clients x m' a h.mine (λ e. (at_a e).0);
      unmarked =
          at_client (λ (m : Mesh). is_dialing b m ≡ false) s.clients x m' a h.unmarked
            (λ e. (at_a e).1);
      no_line = none_waits;
      gone = at_client (λ (m : Mesh). has_link a m ≡ false) s.clients x m' b h.gone at_b;
    }

    linked_at : (x : Bytes) → x ≡ a → holds b i (s.clients x) ≡ true
    linked_at x e = subst (λ z. holds b i (s.clients z) ≡ true) (sym e) h.mine

    idle_at : (x : Bytes) → x ≡ a → is_dialing b (s.clients x) ≡ false
    idle_at x e = subst (λ z. is_dialing b (s.clients z) ≡ false) (sym e) h.unmarked

    gone_at : (x : Bytes) → x ≡ b → has_link a (s.clients x) ≡ false
    gone_at x e = subst (λ z. has_link a (s.clients z) ≡ false) (sym e) h.gone

    back : initiates b a ≡ false
    back = ground (arith, initiates_once a b, first)

    polled_keeps :
        (x : Bytes) (peers : List Peer)
        → All (λ (p : Peer). p.incarnation ≡ incarnation_of s p.node_id) peers
        → x ≡ a
        → holds b i (poll (some peers) (s.clients x)).0 ≡ true
    polled_keeps x peers cur e =
        holds-poll b i peers (s.clients x)
        ∙ ground (
          arith,
          linked_at x e,
          shows_restart_now (incarnation_of s) b (lookup b (s.clients x).conns) peers cur
              (subst (λ j. holds b j (s.clients x) ≡ true) (sym h.now) (linked_at x e)),
        )

    polls-OneSided :
        (x : Bytes) (peers : List Peer)
        → All (λ (p : Peer). p.incarnation ≡ incarnation_of s p.node_id) peers
        → OneSided (after s x (poll (some peers) (s.clients x)).0 s.wire s.lost)
    polls-OneSided x peers cur =
        let m' = (poll (some peers) (s.clients x)).0 in
        after-OneSided x m' s.wire s.lost (poll-Same peers (s.clients x))
          (λ e. (
            polled_keeps x peers cur e,
            ground (
              arith,
              dialing-poll peers (s.clients x) b,
              idle_at x e,
              held-is_some i (lookup b m'.conns) (polled_keeps x peers cur e),
            ),
          ))
          (λ e. ground (arith, (poll_lem peers (s.clients x) a).0, gone_at x e)) h.no_line

    links-OneSided :
        (x : Bytes) (p : Peer) (c : ℕ)
        → is_dialing p.node_id (s.clients x) ≡ true
        → initiates x p.node_id ≡ true
        → OneSided (
            after s x
              (dial_peer p (linked c) (s.clients x)).0
              (record { from = x; to = p.node_id; incarnation = incarnation_of s x } ∷ s.wire)
              s.lost)
    links-OneSided x p c marked dials =
        let dialed = dial_peer_lem p (linked c) (s.clients x) in
        after-OneSided x _ _ s.lost (dial_peer-Same p (linked c) (s.clients x))
          (λ e. (
            ground (arith, holds-dial_peer b i p c (s.clients x), other e, linked_at x e),
            ground (arith, (dialed b).0, idle_at x e),
          ))
          (λ e. ground (arith, (dialed a).1, gone_at x e, away e))
          (ground (arith, h.no_line, unsent))
      where
        other : x ≡ a → str_eq p.node_id b ≡ false
        other e = elim (Bool-cases (str_eq p.node_id b)) [
          | inr f ↦ f
          | inl f ↦ absurd (
              ground (
                arith,
                idle_at x e,
                subst (λ z. is_dialing z (s.clients x) ≡ true) ((str_eq_iff p.node_id b).0 f)
                    marked,
              ))
        ]

        away : x ≡ b → str_eq p.node_id a ≡ false
        away e = elim (Bool-cases (str_eq p.node_id a)) [
          | inr f ↦ f
          | inl f ↦ absurd (
              ground (
                arith,
                back,
                subst (λ z. initiates b z ≡ true) ((str_eq_iff p.node_id a).0 f)
                    (subst (λ z. initiates z p.node_id ≡ true) e dials),
              ))
        ]

        unsent : (str_eq x a && str_eq p.node_id b) ≡ false
        unsent = elim (Bool-cases (str_eq x a)) [
          | inr f ↦ rw f refl
          | inl f ↦ rw f (other ((str_eq_iff x a).0 f))
        ]

    arrives-OneSided :
        (before behind : List Hello) (g : Hello) (d : ℕ) (remote : Bytes)
        → Inv s
        → s.wire ≡ before ++ g ∷ behind
        → OneSided (
            after s g.to
              (handle_inbound d remote (some (hello_line g.from g.incarnation)) (s.clients g.to)).0
              (before ++ behind)
              (found_by g s.lost))
    arrives-OneSided before behind g d remote v split =
        after-OneSided g.to _ _ _
          (handle_inbound-Same d remote g.from g.incarnation (s.clients g.to) ok.2 ok.3 ok.4)
          (λ e. (
            ground (
              arith,
              holds-handle_inbound b i d remote g.from g.incarnation (s.clients g.to) ok.2 ok.3
                  ok.4,
              linked_at g.to e,
              not_from_b e,
            ),
            ap (λ dialing. is_some (lookup b dialing)) (table b).1 ∙ idle_at g.to e,
          ))
          (λ e. ground (arith, (table a).0, gone_at g.to e, not_from_a e))
          (ground (arith, waited, h.no_line))
      where
        ok : IsSound (incarnation_of s) g
        ok =
            (All-remove (incarnation_of s) before behind g
              (subst (All (IsSound (incarnation_of s))) split v.sound)).0

        table :
            (k : Bytes)
            → let m' =
                (handle_inbound d remote
                  (some (hello_line g.from g.incarnation))
                  (s.clients g.to)).0 in
              (lookup k m'.conns ≡ (
                if str_eq g.from k
                then some (record { node_id = g.from; incarnation = g.incarnation; conn = d })
                else lookup k (s.clients g.to).conns))
              × (m'.dialing ≡ (s.clients g.to).dialing)
        table k =
            table-handle_inbound k d remote g.from g.incarnation (s.clients g.to) ok.2 ok.3 ok.4

        waited :
            waits a b s.wire ≡ ((str_eq g.from a && str_eq g.to b) || waits a b (before ++ behind))
        waited = ap (waits a b) split ∙ waits-append a b before behind g

        not_from_a : g.to ≡ b → str_eq g.from a ≡ false
        not_from_a e = ground (arith, waited, h.no_line, (str_eq_iff g.to b).1 e)

        not_from_b : g.to ≡ a → str_eq g.from b ≡ false
        not_from_b e = elim (Bool-cases (str_eq g.from b)) [
          | inr f ↦ f
          | inl f ↦ absurd (
              ground (
                arith,
                back,
                subst (λ z. initiates z a ≡ true) ((str_eq_iff g.from b).0 f)
                    (subst (λ z. initiates g.from z ≡ true) e ok.1),
              ))
        ]

  Step-OneSided :
      {s t : Net} (st : Step s t) → is_onward st ≡ true → Inv s → OneSided s → OneSided t
  Step-OneSided {s} (polls x peers cur) on v h = polls-OneSided s h x peers cur
  Step-OneSided {s} (links x p c marked dials given plain_x plain_i name) on v h =
      links-OneSided s h x p c marked dials
  Step-OneSided {s} (fails x p err) on v h = absurd (ground (arith, on))
  Step-OneSided {s} (arrives before behind g d remote split) on v h =
      arrives-OneSided s h before behind g d remote v split
  Step-OneSided {s} (ends x y err) on v h = absurd (ground (arith, on))
  Step-OneSided {s} (restarts x incarnation given new) on v h = absurd (ground (arith, on))

  pub Onward-OneSided : {s t : Net} → Onward s t → Inv s → OneSided s → Inv t × OneSided t
  Onward-OneSided at_rest v h = (v, h)
  Onward-OneSided (then_on r st on) v h =
      let (w, g) = Onward-OneSided r v h in (Step-Inv st w, Step-OneSided st on w g)
