-- ===== src/Lighthouse/Handoffs/Unique.antt =====
-- The rows of one pair, and what their number means for the writers.
use quicmeshpoc.Common.{
  ℕ, zero, suc, Bytes, true, List, [], ◌∷◌, ◌++◌, none, find_last, modify, ◌≡◌, refl, arith,
  str_eq_iff, Option-cases, inl, inr, drop, length, ◌-◌,
}
use quicmeshpoc.Lighthouse.State.{max_handoffs, Handoff}
use quicmeshpoc.Lighthouse.Handoffs.{
  is_row, find_handoff, rearmed, new_row, arm, pick_up, is_open, complete,
}
use quicmeshpoc.Lighthouse.Handoffs.Rows.{
  row, KeepsPair, is_some-row, row-concat, row-pick_up, is_row-KeepsPair,
}

abbrev pub OneRow : List Handoff → Type 0
OneRow [] = Unit
OneRow (h ∷ hs) = (row h.from h.to hs ≡ none) × OneRow hs

row-modify-none :
    (a b : Bytes) (f : Handoff → Handoff) (i : ℕ) (hs : List Handoff)
    → KeepsPair f
    → row a b hs ≡ none
    → row a b (modify f i hs) ≡ none
unfolding row modify
row-modify-none a b f i [] k h = refl
row-modify-none a b f zero (x ∷ hs) k h = ground (arith, is_row-KeepsPair f a b x k)
row-modify-none a b f (suc i) (x ∷ hs) k h = ground (arith, row-modify-none a b f i hs k)

OneRow-modify :
    (f : Handoff → Handoff) (i : ℕ) (hs : List Handoff)
    → KeepsPair f
    → OneRow hs
    → OneRow (modify f i hs)
unfolding modify
OneRow-modify f i [] k u = tt
OneRow-modify f zero (x ∷ hs) k u = (rw ((k x).0, (k x).1) u.0, u.1)
OneRow-modify f (suc i) (x ∷ hs) k u =
    (row-modify-none x.from x.to f i hs k u.0, OneRow-modify f i hs k u.1)

OneRow-concat :
    (hs : List Handoff) (h : Handoff)
    → OneRow hs
    → row h.from h.to hs ≡ none
    → OneRow (hs ++ h ∷ [])
unfolding row is_row
OneRow-concat [] h u e = (refl, tt)
OneRow-concat (x ∷ hs) h u e = ground (
  arith,
  OneRow-concat hs h u.1,
  row-concat x.from x.to x.from x.to hs h,
  str_eq_iff x.from h.from,
  str_eq_iff x.to h.to,
  str_eq_iff h.from x.from,
  str_eq_iff h.to x.to,
)

OneRow-drop : (n : ℕ) (hs : List Handoff) → OneRow hs → OneRow (drop n hs)
OneRow-drop zero hs u = u
OneRow-drop (suc n) [] u = u
OneRow-drop (suc n) (x ∷ hs) u = OneRow-drop n hs u.1

pub OneRow-pick_up :
    (from to : Bytes) (hs : List Handoff) → OneRow hs → OneRow (pick_up from to hs).0
unfolding pick_up
OneRow-pick_up from to [] u = tt
OneRow-pick_up from to (x ∷ hs) u =
    ground (arith, OneRow-pick_up from to hs u.1, row-pick_up from to x.from x.to hs)

pub OneRow-arm :
    (now : ℕ) (from to : Bytes) (hs : List Handoff) → OneRow hs → OneRow (arm now from to hs)
unfolding arm
OneRow-arm now from to hs u = elim (Option-cases (find_handoff from to hs)) [
  | inl e ↦
      let added =
        OneRow-concat hs (rearmed now (new_row from to)) u
          (ground (arith, is_some-row from to hs)) in
      rw (e, arm)
        (ground (
          arith,
          added,
          OneRow-drop (length (hs ++ rearmed now (new_row from to) ∷ []) - max_handoffs)
              (hs ++ rearmed now (new_row from to) ∷ []) added,
        ))
  | inr (i, e) ↦ rw (e, arm) (OneRow-modify (rearmed now) i hs (λ h. (refl, refl)) u)
]

pub OneRow-complete :
    (now : ℕ) (from to : Bytes) (hs : List Handoff) → OneRow hs → OneRow (complete now from to hs)
unfolding complete
OneRow-complete now from to hs u = elim (Option-cases (find_last (is_open from to) hs)) [
  | inl e ↦ rw (e, complete) u
  | inr (i, e) ↦
      rw (e, complete)
        (OneRow-modify (λ h. record h { completed = true; completed_at = now }) i hs
          (λ h. (refl, refl)) u)
]
