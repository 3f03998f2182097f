-- ===== src/System/Network/Answering.antt =====
-- A HELLO that is read, as a step of the net.
use quicmeshpoc.Common.{
  Bytes, true, false, is_some, sym, ◌&&◌, List, [], ◌∷◌, ◌++◌, some, All, str_eq, str_eq_iff,
  str_eq_refl, lookup, if◌then◌else◌, ◌≡◌, inl, inr, refl, ap, ◌∙◌, subst, arith, Bool-cases,
}
use quicmeshpoc.Mesh.State.{Mesh}
use quicmeshpoc.Mesh.Links.Table.{is_dialing}
use quicmeshpoc.Mesh.Inbound.{hello_line, handle_inbound}
use quicmeshpoc.System.Network.{Hello, Net, incarnation_of, holds, found_by, Step, arrives}
use quicmeshpoc.System.Network.Tables.{
  handle_inbound-Same, holds-handle_inbound, table-handle_inbound,
}
use quicmeshpoc.System.Network.Invariant.{waits, IsSound, Inv, after}
use quicmeshpoc.System.Network.Arrivals.{All-remove}
use quicmeshpoc.System.Network.Keeps.{Keeps, client_after, after-Keeps, is_onward, Idles}

-- The HELLO that waits.
waiting :
    (a b : Bytes) (wire : List Hello)
    → waits a b wire ≡ true
    → (before : List Hello) × (h : Hello) × (behind : List Hello) × (wire ≡ before ++ h ∷ behind)
      × (h.from ≡ a)
      × (h.to ≡ b)
waiting a b [] e = ground (arith, e)
waiting a b (h ∷ wire) e = elim (Bool-cases (str_eq h.from a && str_eq h.to b)) [
  | inl f ↦ (
    [],
    h,
    wire,
    refl,
    ground (arith, f, str_eq_iff h.from a),
    ground (arith, f, str_eq_iff h.to b),
  )
  | inr f ↦
      let (before, h', behind, split, from, to) = waiting a b wire (ground (arith, e, f)) in
      (h ∷ before, h', behind, ap (◌∷◌ h) split, from, to)
]

arrival :
    (t : Net) (before behind : List Hello) (h : Hello)
    → Inv t
    → t.wire ≡ before ++ h ∷ behind
    → (u : Net) × (st : Step t u) × (is_onward st ≡ true)
      × Keeps t u
      × Idles t u
      × (holds h.from (incarnation_of t h.from) (u.clients h.to) ≡ true)
arrival t before behind h v e = (
  after t h.to m' (before ++ behind) (found_by h t.lost),
  arrives before behind h 0 [] e,
  refl,
  after-Keeps t h.to m' (before ++ behind) (found_by h t.lost)
      (handle_inbound-Same 0 [] h.from h.incarnation (t.clients h.to) ok.2 ok.3 ok.4) stays
      (λ x y e. ground (arith, e)),
  marks,
  ap (holds h.from (incarnation_of t h.from))
        (client_after t h.to m' (before ++ behind) (found_by h t.lost))
      ∙ knows h.from
      ∙ rw (str_eq_refl h.from) now,
)
  where
    m' : Mesh
    m' = (handle_inbound 0 [] (some (hello_line h.from h.incarnation)) (t.clients h.to)).0

    ok : IsSound (incarnation_of t) h
    ok =
        (All-remove (incarnation_of t) before behind h
          (subst (All (IsSound (incarnation_of t))) e v.sound)).0

    marks : Idles t (after t h.to m' (before ++ behind) (found_by h t.lost))
    marks x k e = elim (Bool-cases (str_eq h.to x)) [
      | inr f ↦ rw f e
      | inl f ↦ rw f (
          ap (λ dialing. is_some (lookup k dialing))
            (table-handle_inbound k 0 [] h.from h.incarnation (t.clients h.to) ok.2 ok.3 ok.4).1
          ∙ subst (λ y. is_dialing k (t.clients y) ≡ false) (sym ((str_eq_iff h.to x).0 f)) e)
    ]

    now : str_eq h.incarnation (incarnation_of t h.from) ≡ true
    now = (str_eq_iff h.incarnation (incarnation_of t h.from)).1 ok.0

    knows :
        (k : Bytes)
        → holds k (incarnation_of t k) m' ≡ (
            if str_eq h.from k
            then str_eq h.incarnation (incarnation_of t k)
            else holds k (incarnation_of t k) (t.clients h.to))
    knows k =
        holds-handle_inbound k (incarnation_of t k) 0 [] h.from h.incarnation (t.clients h.to) ok.2
          ok.3 ok.4

    stays :
        (k : Bytes)
        → holds k (incarnation_of t k) (t.clients h.to) ≡ true
        → holds k (incarnation_of t k) m' ≡ true
    stays k f = elim (Bool-cases (str_eq h.from k)) [
      | inl g ↦
          knows k
          ∙ rw g (
              subst (λ y. str_eq h.incarnation (incarnation_of t y) ≡ true)
                ((str_eq_iff h.from k).0 g) now)
      | inr g ↦ knows k ∙ rw g f
    ]

-- And one after which the other knows, when the HELLO is on its way.
pub answers :
    (t : Net) (a b : Bytes)
    → Inv t
    → waits a b t.wire ≡ true
    → (u : Net) × (st : Step t u) × (is_onward st ≡ true)
      × Keeps t u
      × Idles t u
      × (holds a (incarnation_of t a) (u.clients b) ≡ true)
answers t a b v w =
    let (before, h, behind, e, from, to) = waiting a b t.wire w in
    let (u, step, on, keeps, idles, known) = arrival t before behind h v e in
    (
      u,
      step,
      on,
      keeps,
      idles,
      subst (λ y. holds y (incarnation_of t y) (u.clients b) ≡ true) from
          (subst (λ z. holds h.from (incarnation_of t h.from) (u.clients z) ≡ true) to known),
    )
