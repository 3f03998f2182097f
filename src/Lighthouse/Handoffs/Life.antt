-- ===== src/Lighthouse/Handoffs/Life.antt =====
-- The life of a pair's row: armed, picked up, completed; and the size of the table.
use quicmeshpoc.Common.{
  ℕ, zero, suc, Bytes, true, false, List, [], ◌∷◌, ◌++◌, Option, none, some, find_last,
  if◌then◌else◌, ◌≡◌, refl, ◌∙◌, arith, str_eq_iff, str_eq_refl, is_some, Option-cases, Bool-cases,
  inl, inr, drop, length, ◌-◌, ◌≤◌, ◌<◌, length-append, length-drop, length-modify,
}
use quicmeshpoc.Lighthouse.State.{max_handoffs, Handoff}
use quicmeshpoc.Lighthouse.Events.{append_capped}
use quicmeshpoc.Lighthouse.Handoffs.{
  is_row, find_handoff, rearmed, new_row, arm, pick_up, is_open, complete,
}
use quicmeshpoc.Lighthouse.Handoffs.Rows.{
  row, on_pair, same_pair, row-modify, is_some-row, row-concat, same_pair-eq,
}
use quicmeshpoc.Lighthouse.Handoffs.Unique.{OneRow}

pub length-append_capped {ℓ} :
    {A : Type ℓ} (s : List A) (v : A) (max : ℕ)
    → length s ≤ max
    → length (append_capped s v max) ≤ max
unfolding append_capped
length-append_capped s v max h =
    ground (arith, length-append s (v ∷ []), length-drop (length (s ++ v ∷ []) - max) (s ++ v ∷ []))

pub length-arm :
    (now : ℕ) (from to : Bytes) (hs : List Handoff)
    → length hs ≤ max_handoffs
    → length (arm now from to hs) ≤ max_handoffs
unfolding arm
length-arm now from to hs h = elim (Option-cases (find_handoff from to hs)) [
  | inl e ↦ rw (e, arm) (length-append_capped hs (rearmed now (new_row from to)) max_handoffs h)
  | inr (i, e) ↦ rw (e, arm) (omega (arith, length-modify (rearmed now) i hs))
]

pub length-complete :
    (now : ℕ) (from to : Bytes) (hs : List Handoff) → length (complete now from to hs) ≡ length hs
unfolding complete
length-complete now from to hs = elim (Option-cases (find_last (is_open from to) hs)) [
  | inl e ↦ rw (e, complete)
  | inr (i, e) ↦ rw (e, complete) (length-modify _ i hs)
]

pub length-pick_up :
    (from to : Bytes) (hs : List Handoff) → length (pick_up from to hs).0 ≡ length hs
unfolding pick_up
length-pick_up from to [] = refl
length-pick_up from to (x ∷ hs) = ground (arith, length-pick_up from to hs)

-- Trimming to the newest rows keeps the one that was just added.
row-drop_concat :
    (from to : Bytes) (n : ℕ) (hs : List Handoff) (h : Handoff)
    → is_row from to h ≡ true
    → n ≤ length hs
    → row from to (drop n (hs ++ h ∷ [])) ≡ some h
unfolding row
row-drop_concat from to zero hs h e m = ground (arith, row-concat from to from to hs h)
row-drop_concat from to (suc n) [] h e m = absurd (omega arith)
row-drop_concat from to (suc n) (x ∷ hs) h e m = row-drop_concat from to n hs h e (omega arith)

abbrev pub armed : ℕ → Bytes → Bytes → Handoff
armed now from to = record {
  from = from;
  to = to;
  started = now;
  picked_up = false;
  completed = false;
  completed_at = 0;
}

-- The newest row of a pair carries the names of the pair.
row_names :
    (a b : Bytes) (hs : List Handoff) (h : Handoff)
    → row a b hs ≡ some h
    → (h.from ≡ a) × (h.to ≡ b)
unfolding row is_row
row_names a b [] h e = cc
row_names a b (x ∷ hs) h e =
    ground (arith, row_names a b hs h, str_eq_iff x.from a, str_eq_iff x.to b)

is_row-armed : (now : ℕ) (from to : Bytes) → is_row from to (armed now from to) ≡ true
unfolding is_row
is_row-armed now from to = rw (str_eq_refl from, str_eq_refl to)

row-append_capped :
    (now : ℕ) (from to : Bytes) (hs : List Handoff)
    → row from to (append_capped hs (armed now from to) max_handoffs) ≡ some (armed now from to)
unfolding append_capped
row-append_capped now from to hs =
    let h = armed now from to in
    ground (
      arith,
      length-append hs (h ∷ []),
      row-drop_concat from to (length (hs ++ h ∷ []) - max_handoffs) hs h
          (is_row-armed now from to),
      row-concat from to from to hs h,
      is_row-armed now from to,
    )

on_pair-rearmed :
    (now : ℕ) (from to : Bytes) (hs : List Handoff)
    → is_some (row from to hs) ≡ true
    → on_pair (same_pair from to from to) (rearmed now) (row from to hs) ≡ some (armed now from to)
unfolding rearmed
on_pair-rearmed now from to hs e = elim (Option-cases (row from to hs)) [
  | inl f ↦ absurd (ground (arith, f, e))
  | inr (h, f) ↦ rw (f, str_eq_refl from, str_eq_refl to) (ground (arith, row_names from to hs h f))
]

-- Whatever the table held, the pair is afterwards waiting, since `now`.
pub row-arm :
    (now : ℕ) (from to : Bytes) (hs : List Handoff)
    → row from to (arm now from to hs) ≡ some (armed now from to)
unfolding arm
row-arm now from to hs = elim (Option-cases (find_handoff from to hs)) [
  | inl e ↦ rw (e, arm) (row-append_capped now from to hs)
  | inr (i, e) ↦
      rw (e, arm)
        (row-modify from to from to (rearmed now) hs i (λ h. (refl, refl)) e
          ∙ on_pair-rearmed now from to hs (is_some-row from to hs ∙ rw e))
]

-- The other pairs keep their rows, as long as the table is not full.
pub row-arm_ne :
    (now : ℕ) (from to a b : Bytes) (hs : List Handoff)
    → same_pair from to a b ≡ false
    → length hs < max_handoffs
    → row a b (arm now from to hs) ≡ row a b hs
unfolding arm append_capped
row-arm_ne now from to a b hs ne room = elim (Option-cases (find_handoff from to hs)) [
  | inl e ↦
      rw (e, arm)
        (ground (
          arith,
          length-append hs (armed now from to ∷ []),
          row-concat from to a b hs (armed now from to),
          unfolded_is_row,
        ))
  | inr (i, e) ↦
      rw (e, arm)
        (row-modify from to a b (rearmed now) hs i (λ h. (refl, refl)) e
          ∙ rw ne (on_pair_false (row a b hs)))
]
  where
    unfolded_is_row : is_row a b (armed now from to) ≡ false
    unfolded_is_row = ne

    on_pair_false : (o : Option Handoff) → on_pair false (rearmed now) o ≡ o
    on_pair_false none = refl
    on_pair_false (some h) = refl

-- The newest open row of a pair is its one row, if that is open.
find_last-is_open :
    (from to : Bytes) (hs : List Handoff)
    → OneRow hs
    → find_last (is_open from to) hs ≡ (elim (row from to hs) [
      | none ↦ none
      | some h ↦ if h.completed then none else find_last (is_row from to) hs
    ])
unfolding find_last row is_open is_row
find_last-is_open from to [] u = refl
find_last-is_open from to (x ∷ hs) u = ground (
  arith,
  find_last-is_open from to hs u.1,
  str_eq_iff x.from from,
  str_eq_iff x.to to,
  is_some-row from to hs,
)

-- A report completes a row once: a later one does not move its time.
abbrev pub finish : ℕ → Handoff → Handoff
finish now h = if h.completed then h else record h { completed = true; completed_at = now }

pub row-complete :
    (now : ℕ) (from to a b : Bytes) (hs : List Handoff)
    → OneRow hs
    → row a b (complete now from to hs) ≡ on_pair (same_pair from to a b) (finish now) (row a b hs)
unfolding complete
row-complete now from to a b hs u = elim (Option-cases (row from to hs)) [
  | inl e ↦
      rw (find_last-is_open from to hs u, e, complete) (ground (arith, same_pair-eq from to a b))
  | inr (h, e) ↦ elim (Bool-cases h.completed) [
    | inl done ↦
        rw (find_last-is_open from to hs u, e, done, complete)
          (ground (arith, same_pair-eq from to a b))
    | inr still ↦ elim (Option-cases (find_last (is_row from to) hs)) [
      | inl f ↦ absurd (ground (arith, is_some-row from to hs))
      | inr (i, f) ↦
          rw (find_last-is_open from to hs u, e, still, f, complete)
            (row-modify from to a b _ hs i (λ x. (refl, refl)) f
              ∙ ground (arith, same_pair-eq from to a b))
    ]
  ]
]
