-- ===== src/System/Network/Dialing.antt =====
-- A dial as a step of the net.
use quicmeshpoc.Common.{
  Bytes, true, not, ◌||◌, ◌&&◌, List, [], ◌∷◌, some, str_eq, str_eq_iff, str_eq_refl, lookup, ◌≡◌,
  inl, inr, refl, ap, ◌∙◌, subst, arith, Bool-cases,
}
use quicmeshpoc.Mesh.Names.{initiates}
use quicmeshpoc.Mesh.Links.{linked, dial_peer, poll}
use quicmeshpoc.Mesh.Links.Table.{is_dialing, dial_peer_lem}
use quicmeshpoc.Mesh.Links.Poll.{dialing-poll}
use quicmeshpoc.System.Network.{Hello, Net, incarnation_of, holds, Step, links}
use quicmeshpoc.System.Network.Tables.{
  poll-Same, dial_peer-Same, holds-poll, holds-dial_peer, shows_restart_now,
}
use quicmeshpoc.System.Network.Invariant.{Inv, after}
use quicmeshpoc.System.Network.Keeps.{Keeps, client_after, after-Keeps, CanDial, current, is_onward}

module _ (t : Net) (v : Inv t) (a b : Bytes) where
  pub polled-Keeps :
      Keeps t (after t a (poll (some (current t b ∷ [])) (t.clients a)).0 t.wire t.lost)
  polled-Keeps =
      after-Keeps t a _ t.wire t.lost (poll-Same (current t b ∷ []) (t.clients a))
        (λ k e. ground (
          arith,
          e,
          holds-poll k (incarnation_of t k) (current t b ∷ []) (t.clients a),
          shows_restart_now (incarnation_of t) k (lookup k (t.clients a).conns) (current t b ∷ [])
              (refl, tt) e,
        ))
        (λ x y e. e)

  linked-Keeps :
      (wire' : List Hello)
      → Keeps t (after t a (dial_peer (current t b) (linked 0) (t.clients a)).0 wire' t.lost)
  linked-Keeps wire' =
      after-Keeps t a _ wire' t.lost (dial_peer-Same (current t b) (linked 0) (t.clients a)) stays
        (λ x y e. e)
    where
      stays :
          (k : Bytes)
          → holds k (incarnation_of t k) (t.clients a) ≡ true
          → holds k (incarnation_of t k) (dial_peer (current t b) (linked 0) (t.clients a)).0 ≡ true
      stays k e = elim (Bool-cases (str_eq b k)) [
        | inl f ↦ ground (
          arith,
          f,
          holds-dial_peer k (incarnation_of t k) (current t b) 0 (t.clients a),
          (str_eq_iff (incarnation_of t b) (incarnation_of t k)).1
              (ap (incarnation_of t) ((str_eq_iff b k).0 f)),
        )
        | inr f ↦
            ground
              (arith, e, f, holds-dial_peer k (incarnation_of t k) (current t b) 0 (t.clients a))
      ]

  pub polled-is_dialing :
      (x k : Bytes)
      → (not (
            is_dialing k (
              (after t a (poll (some (current t b ∷ [])) (t.clients a)).0 t.wire t.lost).clients x))
          || is_dialing k (t.clients x)
          || (str_eq a x && str_eq b k))
        ≡ true
  polled-is_dialing x k = elim (Bool-cases (str_eq a x)) [
    | inr e ↦ rw e (ground arith)
    | inl e ↦ rw e (
        subst
          (λ y.
            (not (is_dialing k (poll (some (current t b ∷ [])) (t.clients a)).0)
              || is_dialing k (t.clients y)
              || (true && str_eq b k))
            ≡ true)
          ((str_eq_iff a x).0 e) (ground (arith, dialing-poll (current t b ∷ []) (t.clients a) k)))
  ]

  linked-is_dialing :
      (wire' : List Hello) (x k : Bytes)
      → (not (
            is_dialing k (
              (after t a (dial_peer (current t b) (linked 0) (t.clients a)).0 wire' t.lost).clients
                x))
          || (is_dialing k (t.clients x) && not (str_eq a x && str_eq b k)))
        ≡ true
  linked-is_dialing wire' x k = elim (Bool-cases (str_eq a x)) [
    | inr e ↦ rw e (ground arith)
    | inl e ↦ rw e (
        subst
          (λ y.
            (not (is_dialing k (dial_peer (current t b) (linked 0) (t.clients a)).0)
              || (is_dialing k (t.clients y) && not (true && str_eq b k)))
            ≡ true)
          ((str_eq_iff a x).0 e)
          (ground (arith, (dial_peer_lem (current t b) (linked 0) (t.clients a) k).0)))
  ]

  -- A step after which the first client is linked to the other's present process.
  pub links_out :
      is_dialing b (t.clients a) ≡ true
      → initiates a b ≡ true
      → CanDial t a
      → (u : Net) × (st : Step t u) × (is_onward st ≡ true)
        × Keeps t u
        × ((x k : Bytes)
            → (not (is_dialing k (u.clients x))
                || (is_dialing k (t.clients x) && not (str_eq a x && str_eq b k)))
              ≡ true)
        × (holds b (incarnation_of t b) (u.clients a) ≡ true)
  links_out marked first can =
      let m' = (dial_peer (current t b) (linked 0) (t.clients a)).0 in
      let wire' = record { from = a; to = b; incarnation = incarnation_of t a } ∷ t.wire in
      (
        after t a m' wire' t.lost,
        links a (current t b) 0 marked first (v.given b) can.0 can.1 can.2,
        refl,
        linked-Keeps wire',
        linked-is_dialing wire',
        ap (holds b (incarnation_of t b)) (client_after t a m' wire' t.lost)
            ∙ holds-dial_peer b (incarnation_of t b) (current t b) 0 (t.clients a)
            ∙ rw (str_eq_refl b) (str_eq_refl (incarnation_of t b)),
      )
