-- ===== src/Mesh/Loops/Paced.antt =====
-- The attempts and the pauses of signalsStreamLoop in cmd/quicchat/mesh.go.
use quicmeshpoc.Common.{
  ℕ, Bytes, Bool, true, false, ◌&&◌, ◌||◌, ◌==◌, leb, ltb, List, [], ◌∷◌, ◌++◌, Option,
  if◌then◌else◌,
}
use quicmeshpoc.Protocol.{Signal}
use quicmeshpoc.Mesh.State.{Effect}
use quicmeshpoc.Mesh.Backoff.{max_backoff}
use quicmeshpoc.Mesh.Loops.{Attempt, acted}

-- The attempts up to the one in which the context is done.
abbrev pub made : List Attempt → List Attempt
made [] = []
made (a ∷ attempts) = let rest = made attempts in if a.cancelled then a ∷ [] else a ∷ rest

abbrev pub behind : Attempt → List ℕ → Bool
behind a [] = true
behind a (p ∷ pauses) = ltb a.elapsed max_backoff || p == 0

-- One pause before each attempt, none longer than five seconds, and none behind a stream that was up
-- for as long.
abbrev pub paced : List Attempt → List ℕ → Bool
paced [] [] = true
paced (a ∷ attempts) (p ∷ pauses) = leb p max_backoff && behind a pauses && paced attempts pauses
paced _ _ = false

module _ (resolves : Bytes → Bool) (unmarshal : Bytes → Option Signal) where
  abbrev pub all_acted : List Attempt → List Effect
  all_acted [] = []
  all_acted (a ∷ attempts) = acted resolves unmarshal a ++ all_acted attempts
