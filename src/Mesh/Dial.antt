-- ===== src/Mesh/Dial.antt =====
-- dialFirst of cmd/quicchat/mesh.go: the race of handshakes. The handshakes report in an order
-- that the network chooses, a list of results with one for each dial that was started.
use mathlib.Core.List.{append-nil, append_assoc}
use quicmeshpoc.Common.{
  ℕ, Bytes, List, [], ◌∷◌, ◌++◌, Option, none, some, text, ◌≡◌, refl, arith, sym, ◌∙◌,
}

-- A connection by its identity, or the error's text.
pub data DialResult : Type 0 where
  conn : ℕ → DialResult
  failure : Bytes → DialResult

-- `winner`, `firstErr`, and the connections closed as "redundant candidate".
pub record Race : Type 0 where
  pub winner : Option ℕ
  pub first_err : Option Bytes
  pub closed : List ℕ

abbrev pub no_race : Race
no_race = record { winner = none; first_err = none; closed = [] }

-- The body of the loop over the results.
unfoldable pub take_result : DialResult → Option ℕ → Option Bytes → Race → Race
take_result (conn c) none e r = record r { winner = some c }
take_result (conn c) (some w) e r = record r { closed = r.closed ++ c ∷ [] }
take_result (failure e) w none r = record r { first_err = some e }
take_result (failure e) w (some first) r = r

unfoldable pub race : List DialResult → Race → Race
unfolding take_result
race [] r = r
race (x ∷ xs) r = race xs (take_result x r.winner r.first_err r)

-- The candidates that resolve, each of which is dialed.
module _ {A : Type 0} (resolve : Bytes → Option A) where
  unfoldable pub dialed : List Bytes → List A
  dialed [] = []
  dialed (c ∷ cs) = elim (resolve c) [ none ↦ dialed cs | some a ↦ a ∷ dialed cs ]

unfoldable pub outcome : Race → DialResult
unfolding text
outcome r = elim r.winner [
  | some c ↦ conn c
  | none ↦ elim r.first_err [ some e ↦ failure e | none ↦ failure (text "no candidate connected") ]
]

-- The result, and the connections that are closed on the way. The results stand for those of the
-- dials that were started.
unfoldable pub dial_first : List Bytes → List DialResult → DialResult × List ℕ
unfolding race outcome text
dial_first [] results = (failure (text "no candidate addresses"), [])
dial_first (c ∷ cs) results = let r = race results no_race in (outcome r, r.closed)

-- The connections among the results, in the order of their arrival.
abbrev pub made : List DialResult → List ℕ
made [] = []
made (conn c ∷ xs) = c ∷ made xs
made (failure e ∷ xs) = made xs

abbrev pub errors : List DialResult → List Bytes
errors [] = []
errors (conn c ∷ xs) = errors xs
errors (failure e ∷ xs) = e ∷ errors xs

-- The answer to give, and what to close, by the connections and errors in order.
abbrev pub best : List ℕ → List Bytes → DialResult × List ℕ
best (c ∷ cs) es = (conn c, cs)
best [] (e ∷ es) = (failure e, [])
best [] [] = (failure (text "no candidate connected"), [])

race_won :
    (xs : List DialResult) (w : ℕ) (f : Option Bytes) (cl : List ℕ)
    → ((race xs (record { winner = some w; first_err = f; closed = cl })).winner ≡ some w)
      × ((race xs (record { winner = some w; first_err = f; closed = cl })).closed ≡ cl ++ made xs)
unfolding race
race_won [] w f cl = (refl, sym (append-nil cl))
race_won (conn c ∷ xs) w f cl =
    let ih = race_won xs w f (cl ++ c ∷ []) in (ih.0, ih.1 ∙ append_assoc cl (c ∷ []) (made xs))
race_won (failure x ∷ xs) w none cl = race_won xs w (some x) cl
race_won (failure x ∷ xs) w (some y) cl = race_won xs w (some y) cl

race_open :
    (xs : List DialResult) (y : Bytes) (es : List Bytes)
    → let r = race xs (record { winner = none; first_err = some y; closed = [] }) in
      (outcome r, r.closed) ≡ best (made xs) (y ∷ es)
unfolding race outcome
race_open [] y es = refl
race_open (conn c ∷ xs) y es = let won = race_won xs c (some y) [] in ground (arith, won.0, won.1)
race_open (failure x ∷ xs) y es = race_open xs y es

race-best :
    (xs : List DialResult)
    → (outcome (race xs no_race), (race xs no_race).closed) ≡ best (made xs) (errors xs)
unfolding race outcome
race-best [] = refl
race-best (conn c ∷ xs) = let won = race_won xs c none [] in ground (arith, won.0, won.1)
race-best (failure x ∷ xs) = race_open xs x (errors xs)

-- Whatever the order in which the handshakes report: the first connection made wins, and every
-- other one is closed, so that none leaks; only if none is made the result is an error, the first
-- one seen. With no candidates nothing is dialed.
pub dial_first_lem :
    (cands : List Bytes) (results : List DialResult)
    → dial_first cands results ≡ elim cands [
      | [] ↦ (failure (text "no candidate addresses"), [])
      | _ ↦ best (made results) (errors results)
    ]
unfolding dial_first
dial_first_lem [] results = refl
dial_first_lem (c ∷ cs) results = race-best results
