-- ===== src/System/Network/Broadcast.antt =====
-- A broadcast in a net at rest: SendBroadcast at one client of cmd/quicchat/mesh.go, and the reader of
-- another.
use quicmeshpoc.Common.{ℕ, Bytes, Bool, false, ◌&&◌, ◌||◌, List, [], ◌∷◌, str_eq, ◌==◌}
use quicmeshpoc.Mesh.State.{Mesh}
use quicmeshpoc.Mesh.Run.Invariant.{Inv}
use quicmeshpoc.System.Network.{Net}

-- The table of every client is well formed.
abbrev WellFormed : Net → Type 0
WellFormed s = (k : Bytes) → Inv (s.clients k)

-- Whether this text is among what is written to a connection.
abbrev pub is_written : ℕ → Bytes → List (ℕ × Bytes) → Bool
is_written c s [] = false
is_written c s ((d, r) ∷ ws) = (c == d && str_eq s r) || is_written c s ws
