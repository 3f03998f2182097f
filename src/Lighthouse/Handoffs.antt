-- ===== src/Lighthouse/Handoffs.antt =====
-- The rows of the dashboard's table of handoffs. The Go slice holds pointers, each to a row of its
-- own, so a write through a pointer is a write at its index.
pub mod Rows
pub mod Unique
pub mod Life
use quicmeshpoc.Common.{
  ℕ, Bytes, Bool, true, false, not, ◌&&◌, List, [], ◌∷◌, ◌++◌, Option, none, some, str_eq,
  find_last, modify, if◌then◌else◌,
}
use quicmeshpoc.Lighthouse.State.{max_handoffs, Handoff}
use quicmeshpoc.Lighthouse.Events.{append_capped}

-- The row is of the attempt that leads from one node to the other.
unfoldable pub is_row : Bytes → Bytes → Handoff → Bool
is_row from to h = str_eq h.from from && str_eq h.to to

-- findHandoff: the newest row of the pair.
unfoldable pub find_handoff : Bytes → Bytes → List Handoff → Option ℕ
unfolding is_row find_last
find_handoff from to hs = find_last (is_row from to) hs

-- The fields that handleConnect writes through `h`.
unfoldable pub rearmed : ℕ → Handoff → Handoff
rearmed now h = record h { started = now; picked_up = false; completed = false; completed_at = 0 }

abbrev pub new_row : Bytes → Bytes → Handoff
new_row from to = record {
  from = from;
  to = to;
  started = 0;
  picked_up = false;
  completed = false;
  completed_at = 0;
}

-- handleConnect's use of the table: the pair's row is armed again, or a new one is added.
unfoldable pub arm : ℕ → Bytes → Bytes → List Handoff → List Handoff
unfolding find_handoff rearmed append_capped modify
arm now from to hs = elim (find_handoff from to hs) [
  | some i ↦ modify (rearmed now) i hs
  | none ↦ append_capped hs (rearmed now (new_row from to)) max_handoffs
]

-- The test in drainSignals.
unfoldable pub awaits_pickup : Bytes → Bytes → Handoff → Bool
unfolding is_row
awaits_pickup from self h = is_row from self h && not h.picked_up && not h.completed

-- The inner loop of drainSignals, for a signal from `from`: the rows, and `from` once for each row
-- that it marks.
unfoldable pub pick_up : Bytes → Bytes → List Handoff → List Handoff × List Bytes
unfolding awaits_pickup
pick_up from self [] = ([], [])
pick_up from self (h ∷ hs) =
    let (hs', marked) = pick_up from self hs in
    if awaits_pickup from self h
    then (record h { picked_up = true } ∷ hs', from ∷ marked)
    else (h ∷ hs', marked)

-- The test in the loop of handleHandoff.
unfoldable pub is_open : Bytes → Bytes → Handoff → Bool
unfolding is_row
is_open from to h = is_row from to h && not h.completed

-- The loop of handleHandoff: the newest open row of the pair is completed.
unfoldable pub complete : ℕ → Bytes → Bytes → List Handoff → List Handoff
unfolding is_open find_last modify
complete now from to hs = elim (find_last (is_open from to) hs) [
  | some i ↦ modify (λ h. record h { completed = true; completed_at = now }) i hs
  | none ↦ hs
]
