-- ===== src/Lighthouse/Board.antt =====
-- What the lighthouse of cmd/lighthouse/main.go promises its clients, with no word of how: who is
-- registered, and which requests wait for whom. Tables, channels, log and dashboard are hidden.
pub mod Refines
use quicmeshpoc.Common.{
  ℕ, Bytes, Bool, List, [], ◌∷◌, ◌++◌, Option, none, some, str_eq, if◌then◌else◌,
}
use quicmeshpoc.Protocol.{Signal}
use quicmeshpoc.Lighthouse.State.{Registration}
use quicmeshpoc.Lighthouse.Peers.Answer.{fresh}
use quicmeshpoc.Lighthouse.Connect.{signal_of}

pub record Board : Type 0 where
  pub registered : Bytes → Option Registration
  pub mail : Bytes → List Signal

abbrev pub empty_board : Board
empty_board = record { registered = λ k. none; mail = λ k. [] }

-- A node joins; the roster is read, at an instant; a node asks for another; a node's stream
-- collects; or the call is of no concern.
pub data Ask : Type 0 where
  joins : Bytes → Registration → Ask
  reads : ℕ → Ask
  posts : Bytes → Bytes → Ask
  collects : Bytes → Ask
  nothing : Ask

abbrev pub posted : Bytes → Bytes → Option Registration → Board → Board
posted from to none b = b
posted from to (some reg) b = record b {
  mail = λ k. if str_eq to k then b.mail k ++ signal_of from reg ∷ [] else b.mail k;
}

unfoldable pub obey : Ask → Board → Board
obey (joins id reg) b = record b {
  registered = λ k. if str_eq id k then some reg else b.registered k;
}
obey (reads now) b = record b { registered = λ k. fresh now (b.registered k) }
obey (posts from to) b = posted from to (b.registered from) b
obey (collects self) b = record b { mail = λ k. if str_eq self k then [] else b.mail k }
obey nothing b = b

unfoldable pub obey_all : List Ask → Board → Board
obey_all [] b = b
obey_all (a ∷ asks) b = obey_all asks (obey a b)
