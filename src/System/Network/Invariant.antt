-- ===== src/System/Network/Invariant.antt =====
-- The two ends of every link, in every net that can be reached.
use quicmeshpoc.Common.{
  Bytes, Bool, true, false, not, ◌&&◌, ◌||◌, List, [], ◌∷◌, All, str_eq, str_eq_iff, is_plain, ◌≡◌,
  ◌≢◌, inl, inr, refl, ap, ◌∙◌, sym, subst, arith, Bool-cases,
}
use quicmeshpoc.Mesh.State.{Mesh}
use quicmeshpoc.Mesh.Names.{initiates, initiates_once}
use quicmeshpoc.System.Network.{Hello, Net, update_client, incarnation_of, holds}
use quicmeshpoc.System.Network.Tables.{Same}

-- Whether a HELLO from one node to another is on its way.
abbrev pub waits : Bytes → Bytes → List Hello → Bool
waits a b [] = false
waits a b (h ∷ wire) = (str_eq h.from a && str_eq h.to b) || waits a b wire

-- A HELLO on its way is from the node's present process, which can be read from it.
abbrev pub IsSound : (Bytes → Bytes) → Hello → Type 0
IsSound now h =
    (h.incarnation ≡ now h.from)
    × (initiates h.from h.to ≡ true)
    × (is_plain h.from ≡ true)
    × (is_plain h.incarnation ≡ true)
    × (h.from ≢ [])

-- `kept`: a link that a client dialed, to the present process of the other, is known there, or the
-- HELLO is on its way, or the link there was removed under it.
pub record Inv (s : Net) : Type 0 where
  pub names : (k : Bytes) → (s.clients k).node_id ≡ k
  pub given : (k : Bytes) → incarnation_of s k ≢ []
  pub sound : All (IsSound (incarnation_of s)) s.wire
  pub known : (a b : Bytes) → (initiates a b && holds b [] (s.clients a)) ≡ false
  pub kept :
      (a b : Bytes)
      → (not (initiates a b && holds b (incarnation_of s b) (s.clients a))
          || waits a b s.wire
          || holds a (incarnation_of s a) (s.clients b)
          || s.lost a b)
        ≡ true

All-IsSound :
    (now now' : Bytes → Bytes) (wire : List Hello)
    → ((k : Bytes) → now' k ≡ now k)
    → All (IsSound now) wire
    → All (IsSound now') wire
All-IsSound now now' [] e h = tt
All-IsSound now now' (x ∷ wire) e h =
    ((h.0.0 ∙ sym (e x.from), h.0.1, h.0.2, h.0.3, h.0.4), All-IsSound now now' wire e h.1)

pub no_self : (a b : Bytes) → str_eq a b ≡ true → initiates a b ≡ false
no_self a b e = ground (arith, initiates_once a b, e)

-- A step of one client, whose process stays.
module _ (s : Net) (x : Bytes) (m' : Mesh) (wire' : List Hello) (lost' : Bytes → Bytes → Bool) where
  abbrev pub after : Net
  after = record { clients = update_client s.clients x m'; wire = wire'; lost = lost' }

  pub incarnation_of-after :
      Same (s.clients x) m' → (k : Bytes) → incarnation_of after k ≡ incarnation_of s k
  incarnation_of-after same k = elim (Bool-cases (str_eq x k)) [
    | inl e ↦ rw (e, incarnation_of) (same.1 ∙ ap (incarnation_of s) ((str_eq_iff x k).0 e))
    | inr e ↦ rw (e, incarnation_of) refl
  ]

  names-after :
      Same (s.clients x) m'
      → ((k : Bytes) → (s.clients k).node_id ≡ k)
      → (k : Bytes) → (after.clients k).node_id ≡ k
  names-after same h k = elim (Bool-cases (str_eq x k)) [
    | inl e ↦ rw e (same.0 ∙ h x ∙ (str_eq_iff x k).0 e)
    | inr e ↦ rw e (h k)
  ]

  -- What the step owes as the client that dialed, and as the one that was dialed.
  pub record Owes : Type 0 where
    pub same : Same (s.clients x) m'
    pub sound : All (IsSound (incarnation_of s)) wire'
    pub no_empty : (b : Bytes) → (initiates x b && holds b [] m') ≡ false
    pub out :
        (b : Bytes)
        → (not (initiates x b && holds b (incarnation_of s b) m')
            || waits x b wire'
            || holds x (incarnation_of s x) (s.clients b)
            || lost' x b)
          ≡ true
    pub into :
        (a : Bytes)
        → (not (initiates a x && holds x (incarnation_of s x) (s.clients a))
            || waits a x wire'
            || holds a (incarnation_of s a) m'
            || lost' a x)
          ≡ true
    pub others :
        (a b : Bytes)
        → (str_eq x a
            || str_eq x b
            || not (waits a b s.wire || s.lost a b)
            || waits a b wire'
            || lost' a b)
          ≡ true

  known-after :
      Inv s → Owes → (a b : Bytes) → (initiates a b && holds b [] (after.clients a)) ≡ false
  known-after v o a b = elim (Bool-cases (str_eq x a)) [
    | inl e ↦ rw e (ground (arith, o.no_empty b, (str_eq_iff x a).0 e))
    | inr e ↦ rw e (v.known a b)
  ]

  kept-after :
      Inv s
      → Owes
      → (a b : Bytes)
      → (not (initiates a b && holds b (incarnation_of s b) (after.clients a))
          || waits a b wire'
          || holds a (incarnation_of s a) (after.clients b)
          || lost' a b)
        ≡ true
  kept-after v o a b = elim (Bool-cases (str_eq x a)) [
    | inl e ↦ elim (Bool-cases (str_eq x b)) [
      | inl f ↦ ground (
        arith,
        no_self a b ((str_eq_iff a b).1 (sym ((str_eq_iff x a).0 e) ∙ (str_eq_iff x b).0 f)),
      )
      | inr f ↦
          rw (e, f)
            (subst
              (λ y.
                (not (initiates y b && holds b (incarnation_of s b) m')
                  || waits y b wire'
                  || holds y (incarnation_of s y) (s.clients b)
                  || lost' y b)
                ≡ true)
              ((str_eq_iff x a).0 e) (o.out b))
    ]
    | inr e ↦ elim (Bool-cases (str_eq x b)) [
      | inl f ↦
          rw (e, f)
            (subst
              (λ y.
                (not (initiates a y && holds y (incarnation_of s y) (s.clients a))
                  || waits a y wire'
                  || holds a (incarnation_of s a) m'
                  || lost' a y)
                ≡ true)
              ((str_eq_iff x b).0 f) (o.into a))
      | inr f ↦ rw (e, f) (ground (arith, v.kept a b, o.others a b, e, f))
    ]
  ]

  pub after-Inv : Inv s → Owes → Inv after
  after-Inv v o = record {
    names = names-after o.same v.names;
    given = λ k. rw (incarnation_of-after o.same k) (v.given k);
    sound =
        All-IsSound (incarnation_of s) (incarnation_of after) wire' (incarnation_of-after o.same)
          o.sound;
    known = known-after v o;
    kept = λ a b.
        rw (incarnation_of-after o.same a, incarnation_of-after o.same b) (kept-after v o a b);
  }
