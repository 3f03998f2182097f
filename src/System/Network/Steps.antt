-- ===== src/System/Network/Steps.antt =====
-- The invariant of the net, step by step.
use quicmeshpoc.Common.{
  ℕ, Bytes, Bool, true, false, not, ◌||◌, List, [], ◌∷◌, Option, none, some, is_some, str_eq,
  str_eq_iff, str_eq_refl, str_eq_sym, lookup, is_plain, ◌≡◌, ◌≢◌, inl, inr, refl, subst, arith,
  Bool-cases,
}
use quicmeshpoc.Protocol.{Peer}
use quicmeshpoc.Mesh.State.{PeerConn}
use quicmeshpoc.Mesh.Names.{initiates, initiates_once}
use quicmeshpoc.Mesh.Links.{linked, dial_failed, dial_peer, poll, end_reader}
use quicmeshpoc.Mesh.Links.Table.{has_link}
use quicmeshpoc.System.Network.{Hello, Net, incarnation_of, held, holds, IsCurrent, lost_at}
use quicmeshpoc.System.Network.Tables.{
  poll-Same, dial_peer-Same, holds-poll, holds-dial_peer, holds-dial_failed, holds-end_reader,
  shows_restart_now,
}
use quicmeshpoc.System.Network.Invariant.{waits, Inv, Owes, no_self}

-- A wire that stays owes nothing.
same_wire :
    (x a b : Bytes) (wire : List Hello) (l : Bool)
    → (str_eq x a || str_eq x b || not (waits a b wire || l) || waits a b wire || l) ≡ true
same_wire x a b wire l = ground arith

pub held-is_some : (i : Bytes) (link : Option PeerConn) → held i link ≡ true → is_some link ≡ true
held-is_some i none h = ground (arith, h)
held-is_some i (some pc) h = refl

module _ (s : Net) (v : Inv s) where
  pub polls-Owes :
      (a : Bytes) (peers : List Peer)
      → IsCurrent s peers
      → Owes s a (poll (some peers) (s.clients a)).0 s.wire s.lost
  polls-Owes a peers cur = record {
    same = poll-Same peers (s.clients a);
    sound = v.sound;
    no_empty = λ b. ground (arith, v.known a b, holds-poll b [] peers (s.clients a));
    out = λ b. ground (arith, v.kept a b, holds-poll b (incarnation_of s b) peers (s.clients a));
    into = λ b. elim (Bool-cases (holds b (incarnation_of s b) (s.clients a))) [
      | inl e ↦ ground (
        arith,
        v.kept b a,
        e,
        holds-poll b (incarnation_of s b) peers (s.clients a),
        shows_restart_now (incarnation_of s) b (lookup b (s.clients a).conns) peers cur e,
      )
      | inr e ↦ ground (arith, v.kept b a, e)
    ];
    others = λ b c. same_wire a b c s.wire (s.lost b c);
  }

  pub fails-Owes :
      (a : Bytes) (p : Peer) (err : Bytes)
      → Owes s a (dial_peer p (dial_failed err) (s.clients a)).0 s.wire s.lost
  fails-Owes a p err = record {
    same = dial_peer-Same p (dial_failed err) (s.clients a);
    sound = v.sound;
    no_empty = λ b. ground (arith, v.known a b, holds-dial_failed b [] p err (s.clients a));
    out = λ b.
        ground (arith, v.kept a b, holds-dial_failed b (incarnation_of s b) p err (s.clients a));
    into = λ b.
        ground (arith, v.kept b a, holds-dial_failed b (incarnation_of s b) p err (s.clients a));
    others = λ b c. same_wire a b c s.wire (s.lost b c);
  }

  pub links-Owes :
      (a : Bytes) (p : Peer) (c : ℕ)
      → initiates a p.node_id ≡ true
      → p.incarnation ≢ []
      → is_plain a ≡ true
      → is_plain (incarnation_of s a) ≡ true
      → a ≢ []
      → Owes s a
          (dial_peer p (linked c) (s.clients a)).0
          (record { from = a; to = p.node_id; incarnation = incarnation_of s a } ∷ s.wire)
          s.lost
  links-Owes a p c first given plain_a plain_i name = record {
    same = dial_peer-Same p (linked c) (s.clients a);
    sound = ((refl, first, plain_a, plain_i, name), v.sound);
    no_empty = λ b. ground (
      arith,
      v.known a b,
      holds-dial_peer b [] p c (s.clients a),
      str_eq_iff p.incarnation [],
      given,
    );
    out = λ b. ground (
      arith,
      v.kept a b,
      holds-dial_peer b (incarnation_of s b) p c (s.clients a),
      str_eq_refl a,
    );
    into = λ b. elim (Bool-cases (str_eq p.node_id b)) [
      | inl e ↦ ground (arith, other_way b e)
      | inr e ↦
          ground (arith, v.kept b a, e, holds-dial_peer b (incarnation_of s b) p c (s.clients a))
    ];
    others = λ b d. ground arith;
  }
    where
      other_way : (b : Bytes) → str_eq p.node_id b ≡ true → initiates b a ≡ false
      other_way b e =
          subst (λ y. initiates y a ≡ false) ((str_eq_iff p.node_id b).0 e)
            (ground (arith, initiates_once a p.node_id, first))

  pub ends-Owes :
      (a b err : Bytes) → Owes s a (end_reader b err (s.clients a)).0 s.wire (lost_at s a b)
  ends-Owes a b err = record {
    same = unfold end_reader in (refl, refl);
    sound = v.sound;
    no_empty = λ k. ground (arith, v.known a k, holds-end_reader k [] b err (s.clients a));
    out = λ k. elim (Bool-cases (str_eq a k)) [
      | inl e ↦ ground (arith, no_self a k e)
      | inr e ↦
          ground (arith, e, v.kept a k, holds-end_reader k (incarnation_of s k) b err (s.clients a))
    ];
    into = λ k. elim (Bool-cases (str_eq a k)) [
      | inl e ↦ ground (arith, no_self k a (rw (str_eq_sym k a) e))
      | inr e ↦ elim (Bool-cases (str_eq b k)) [
        | inl f ↦ ground (arith, e, f, str_eq_refl a, left k f)
        | inr f ↦
            ground
              (arith, e, f, v.kept k a, holds-end_reader k (incarnation_of s k) b err (s.clients a))
      ]
    ];
    others = λ k d. ground arith;
  }
    where
      left :
          (k : Bytes)
          → str_eq b k ≡ true
          → (not (holds a (incarnation_of s a) (s.clients k)) || has_link a (s.clients b)) ≡ true
      left k f =
          subst
            (λ y.
              (not (holds a (incarnation_of s a) (s.clients y)) || has_link a (s.clients b)) ≡ true)
            ((str_eq_iff b k).0 f)
            (ground (arith, held-is_some (incarnation_of s a) (lookup a (s.clients b).conns)))
