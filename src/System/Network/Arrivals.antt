-- ===== src/System/Network/Arrivals.antt =====
-- The invariant of the net when a HELLO arrives, and when a process starts again.
use quicmeshpoc.Common.{
  ℕ, Bytes, true, false, not, ◌&&◌, ◌||◌, List, [], ◌∷◌, ◌++◌, some, All, str_eq, str_eq_iff,
  str_eq_sym, lookup, if◌then◌else◌, ◌≡◌, ◌≢◌, inl, inr, refl, ap, ◌∙◌, sym, subst, arith,
  Bool-cases,
}
use quicmeshpoc.Mesh.State.{Mesh}
use quicmeshpoc.Mesh.Names.{initiates, initiates_once}
use quicmeshpoc.Mesh.Inbound.{hello_line, handle_inbound}
use quicmeshpoc.Mesh.Start.{fresh_mesh}
use quicmeshpoc.System.Network.{
  Hello, Net, update_client, incarnation_of, holds, is_about, without_node, found_by, forgot,
}
use quicmeshpoc.System.Network.Tables.{handle_inbound-Same, holds-handle_inbound}
use quicmeshpoc.System.Network.Invariant.{waits, IsSound, Inv, Owes}

pub waits-append :
    (a b : Bytes) (before behind : List Hello) (h : Hello)
    → waits a b (before ++ h ∷ behind)
      ≡ ((str_eq h.from a && str_eq h.to b) || waits a b (before ++ behind))
waits-append a b [] behind h = refl
waits-append a b (x ∷ before) behind h = ground (arith, waits-append a b before behind h)

pub All-remove :
    (now : Bytes → Bytes) (before behind : List Hello) (h : Hello)
    → All (IsSound now) (before ++ h ∷ behind)
    → IsSound now h × All (IsSound now) (before ++ behind)
All-remove now [] behind h a = a
All-remove now (x ∷ before) behind h a =
    let rest = All-remove now before behind h a.1 in (rest.0, (a.0, rest.1))

module _ (s : Net) (v : Inv s) where
  pub arrives-Owes :
      (before behind : List Hello) (h : Hello) (d : ℕ) (remote : Bytes)
      → s.wire ≡ before ++ h ∷ behind
      → Owes s h.to
          (handle_inbound d remote (some (hello_line h.from h.incarnation)) (s.clients h.to)).0
          (before ++ behind)
          (found_by h s.lost)
  arrives-Owes before behind h d remote e = record {
    same = handle_inbound-Same d remote h.from h.incarnation m ok.2 ok.3 ok.4;
    sound = split.1;
    no_empty = λ b. ground (arith, v.known h.to b, held_after b [], back b);
    out = λ b.
        ground
          (arith, v.kept h.to b, held_after b (incarnation_of s b), back b, waited h.to b, apart);
    into = λ a.
        ground (arith, v.kept a h.to, held_after a (incarnation_of s a), waited a h.to, of_now a);
    others = λ a b. ground (arith, waited a b);
  }
    where
      m : Mesh
      m = s.clients h.to

      split : IsSound (incarnation_of s) h × All (IsSound (incarnation_of s)) (before ++ behind)
      split =
          All-remove (incarnation_of s) before behind h
            (subst (All (IsSound (incarnation_of s))) e v.sound)

      ok : IsSound (incarnation_of s) h
      ok = split.0

      held_after :
          (k i : Bytes)
          → holds k i
              (handle_inbound d remote (some (hello_line h.from h.incarnation)) (s.clients h.to)).0
            ≡ (if str_eq h.from k then str_eq h.incarnation i else holds k i (s.clients h.to))
      held_after k i =
          holds-handle_inbound k i d remote h.from h.incarnation (s.clients h.to) ok.2 ok.3 ok.4

      waited :
          (a b : Bytes)
          → waits a b s.wire ≡ ((str_eq h.from a && str_eq h.to b) || waits a b (before ++ behind))
      waited a b = ap (waits a b) e ∙ waits-append a b before behind h

      apart : str_eq h.from h.to ≡ false
      apart = ground (arith, initiates_once h.from h.to, ok.1)

      back : (b : Bytes) → (str_eq h.from b && initiates h.to b) ≡ false
      back b = elim (Bool-cases (str_eq h.from b)) [
        | inl f ↦ rw f (
            subst (λ y. initiates h.to y ≡ false) ((str_eq_iff h.from b).0 f)
              (ground (arith, initiates_once h.from h.to, ok.1)))
        | inr f ↦ rw f refl
      ]

      of_now :
          (a : Bytes) → str_eq h.from a ≡ true → str_eq h.incarnation (incarnation_of s a) ≡ true
      of_now a f =
          (str_eq_iff h.incarnation (incarnation_of s a)).1
            (ok.0 ∙ ap (incarnation_of s) ((str_eq_iff h.from a).0 f))

waits-without_node :
    (a b k : Bytes) (wire : List Hello)
    → str_eq k a ≡ false
    → str_eq k b ≡ false
    → waits a b (without_node k wire) ≡ waits a b wire
waits-without_node a b k [] e f = refl
waits-without_node a b k (h ∷ wire) e f = ground (
  arith,
  waits-without_node a b k wire e f,
  e,
  f,
  str_eq_iff h.from a,
  str_eq_iff h.from k,
  str_eq_iff h.to b,
  str_eq_iff h.to k,
  str_eq_iff k a,
  str_eq_iff k b,
)

module _ (s : Net) (v : Inv s) (x incarnation : Bytes) where
  abbrev pub begun_again : Net
  begun_again = record {
    clients = update_client s.clients x (fresh_mesh x incarnation);
    wire = without_node x s.wire;
    lost = forgot x s.lost;
  }

  incarnation_of-others :
      (k : Bytes) → str_eq x k ≡ false → incarnation_of begun_again k ≡ incarnation_of s k
  incarnation_of-others k e = rw (e, incarnation_of) refl

  IsSound-restarted :
      (wire : List Hello)
      → All (IsSound (incarnation_of s)) wire
      → All (IsSound (incarnation_of begun_again)) (without_node x wire)
  IsSound-restarted [] a = tt
  IsSound-restarted (h ∷ wire) a = elim (Bool-cases (is_about x h)) [
    | inl e ↦ rw e (IsSound-restarted wire a.1)
    | inr e ↦ rw e (
      (
        a.0.0 ∙ sym (incarnation_of-others h.from (ground (arith, e, str_eq_sym x h.from))),
        a.0.1,
        a.0.2,
        a.0.3,
        a.0.4,
      ),
      IsSound-restarted wire a.1,
    )
  ]

  kept-begun_again :
      ((b : Bytes) → holds x incarnation (s.clients b) ≡ false)
      → (a b : Bytes)
      → (not (initiates a b && holds b (incarnation_of begun_again b) (begun_again.clients a))
          || waits a b (without_node x s.wire)
          || holds a (incarnation_of begun_again a) (begun_again.clients b)
          || forgot x s.lost a b)
        ≡ true
  unfolding lookup
  kept-begun_again new a b = elim (Bool-cases (str_eq x a)) [
    | inl e ↦ rw (e) (ground arith)
    | inr e ↦ elim (Bool-cases (str_eq x b)) [
      | inl f ↦ rw (e, f) (ground (arith, new a, (str_eq_iff x b).0 f))
      | inr f ↦ rw (e, f) (ground (arith, v.kept a b, waits-without_node a b x s.wire e f))
    ]
  ]

  known-begun_again : (a b : Bytes) → (initiates a b && holds b [] (begun_again.clients a)) ≡ false
  unfolding lookup
  known-begun_again a b = elim (Bool-cases (str_eq x a)) [
    | inl e ↦ rw e (ground arith)
    | inr e ↦ rw e (v.known a b)
  ]

  pub restarts-Inv :
      incarnation ≢ [] → ((b : Bytes) → holds x incarnation (s.clients b) ≡ false) → Inv begun_again
  restarts-Inv given new = record {
    names = λ k. elim (Bool-cases (str_eq x k)) [
      | inl e ↦ rw e ((str_eq_iff x k).0 e)
      | inr e ↦ rw e (v.names k)
    ];
    given = λ k. elim (Bool-cases (str_eq x k)) [
      | inl e ↦ rw (e, incarnation_of) given
      | inr e ↦ rw (e, incarnation_of) (v.given k)
    ];
    sound = IsSound-restarted s.wire v.sound;
    known = known-begun_again;
    kept = kept-begun_again new;
  }
