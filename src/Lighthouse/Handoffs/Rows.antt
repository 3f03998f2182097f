-- ===== src/Lighthouse/Handoffs/Rows.antt =====
-- The row of a pair, and what the three writers of the table do to it.
use quicmeshpoc.Common.{
  ℕ, zero, suc, Bytes, Bool, true, not, ◌&&◌, List, [], ◌∷◌, ◌++◌, Option, none, some, str_eq,
  find_last, modify, if◌then◌else◌, ◌≡◌, refl, arith, str_eq_iff, is_some,
}
use quicmeshpoc.Lighthouse.State.{Handoff}
use quicmeshpoc.Lighthouse.Handoffs.{is_row, pick_up}

-- The newest row from `a` to `b`.
unfoldable pub row : Bytes → Bytes → List Handoff → Option Handoff
unfolding is_row
row a b [] = none
row a b (h ∷ hs) = elim (row a b hs) [
  | some r ↦ some r
  | none ↦ if is_row a b h then some h else none
]

-- A write that goes to the row of the pair only.
abbrev pub on_pair : Bool → (Handoff → Handoff) → Option Handoff → Option Handoff
on_pair b f none = none
on_pair b f (some h) = some (if b then f h else h)

abbrev pub same_pair : Bytes → Bytes → Bytes → Bytes → Bool
same_pair from to a b = str_eq from a && str_eq to b

-- The write keeps the names of the row.
abbrev pub KeepsPair : (Handoff → Handoff) → Type 0
KeepsPair f = (h : Handoff) → ((f h).from ≡ h.from) × ((f h).to ≡ h.to)

pub is_some-row :
    (a b : Bytes) (hs : List Handoff) → is_some (row a b hs) ≡ is_some (find_last (is_row a b) hs)
unfolding row find_last
is_some-row a b [] = refl
is_some-row a b (x ∷ hs) = ground (arith, is_some-row a b hs)

-- A row of one pair is a row of another only if the pairs are the same.
is_row-same_pair :
    (from to a b : Bytes) (x : Handoff)
    → is_row from to x ≡ true
    → is_row a b x ≡ same_pair from to a b
unfolding is_row
is_row-same_pair from to a b x h = ground (
  arith,
  str_eq_iff x.from from,
  str_eq_iff x.to to,
  str_eq_iff x.from a,
  str_eq_iff x.to b,
  str_eq_iff from a,
  str_eq_iff to b,
)

pub is_row-KeepsPair :
    (f : Handoff → Handoff) (a b : Bytes) (x : Handoff)
    → KeepsPair f
    → is_row a b (f x) ≡ is_row a b x
unfolding is_row
is_row-KeepsPair f a b x k = rw ((k x).0, (k x).1)

pub same_pair-eq : (from to a b : Bytes) → same_pair from to a b ≡ true → (a ≡ from) × (b ≡ to)
same_pair-eq from to a b h = ground (arith, str_eq_iff from a, str_eq_iff to b)

module _ (from to a b : Bytes) where
  pub row-modify :
      (f : Handoff → Handoff) (hs : List Handoff) (i : ℕ)
      → KeepsPair f
      → find_last (is_row from to) hs ≡ some i
      → row a b (modify f i hs) ≡ on_pair (same_pair from to a b) f (row a b hs)
  unfolding row find_last modify
  row-modify f [] i k h = ground arith
  row-modify f (x ∷ hs) zero k h = ground (
    arith,
    is_some-row from to hs,
    same_pair-eq from to a b,
    is_row-same_pair from to a b x,
    is_row-KeepsPair f a b x k,
  )
  row-modify f (x ∷ hs) (suc i) k h =
      ground (arith, row-modify f hs i k, is_some-row from to hs, same_pair-eq from to a b)

  -- A new row at the end is the newest of its pair.
  pub row-concat :
      (hs : List Handoff) (h : Handoff)
      → row a b (hs ++ h ∷ []) ≡ (if is_row a b h then some h else row a b hs)
  unfolding row
  row-concat [] h = refl
  row-concat (x ∷ hs) h = ground (arith, row-concat hs h)

  -- A pick-up marks the row of its own pair, if that still waits.
  pub row-pick_up :
      (hs : List Handoff)
      → row a b (pick_up from to hs).0
        ≡ on_pair
            (same_pair from to a b)
            (λ h. if not h.picked_up && not h.completed then record h { picked_up = true } else h)
            (row a b hs)
  unfolding row pick_up is_row
  row-pick_up [] = refl
  row-pick_up (x ∷ hs) = ground (
    arith,
    row-pick_up hs,
    str_eq_iff x.from from,
    str_eq_iff x.to to,
    str_eq_iff x.from a,
    str_eq_iff x.to b,
    str_eq_iff from a,
    str_eq_iff to b,
  )
