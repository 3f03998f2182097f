-- ===== src/Mesh/Loops.antt =====
-- The loops of cmd/quicchat/mesh.go, each from its start to its end: registerLoop, peersLoop,
-- signalsStreamLoop and acceptLoop.
pub mod Paced
use quicmeshpoc.Common.{ℕ, Bytes, Bool, List, [], ◌∷◌, ◌++◌, Option, none, some, if◌then◌else◌}
use quicmeshpoc.Protocol.{RegisterResponse, PeersResponse, Signal}
use quicmeshpoc.Mesh.State.{Mesh, Effect, Step}
use quicmeshpoc.Mesh.Backoff.{next_backoff}
use quicmeshpoc.Mesh.Inbound.{handle_inbound}
use quicmeshpoc.Mesh.Listen.{Outcome, Result, register_round, peers_round, listen}

-- The rounds until the context is done, with what becomes of each request.
unfoldable pub register_loop : (Bytes → Result RegisterResponse) → List Outcome → Mesh → Step
unfolding register_round
register_loop decode [] m = (m, [])
register_loop decode (out ∷ outs) m =
    let (m', fx) = register_round decode out m in
    let (m'', gx) = register_loop decode outs m' in (m'', fx ++ gx)

unfoldable pub peers_loop : (Bytes → Result PeersResponse) → Bytes → List Outcome → Mesh → Step
unfolding peers_round
peers_loop decode path [] m = (m, [])
peers_loop decode path (out ∷ outs) m =
    let (m', fx) = peers_round decode path out m in
    let (m'', gx) = peers_loop decode path outs m' in (m'', fx ++ gx)

-- A call of streamSignals: the answer, what the scanner says at its end, how long it took, the table
-- of links at that time, and whether the context is done when it returns.
pub record Attempt : Type 0 where
  pub response : Outcome
  pub ending : Option Bytes
  pub elapsed : ℕ
  pub table : Mesh
  pub cancelled : Bool

-- What the loop does outside, and how long it waits before each attempt.
pub record Life : Type 0 where
  pub effects : List Effect
  pub pauses : List ℕ

module _ (resolves : Bytes → Bool) (unmarshal : Bytes → Option Signal) where
  -- What streamSignals does in an attempt.
  abbrev pub acted : Attempt → List Effect
  acted a = (listen resolves unmarshal a.ending a.response a.table).0

  -- The loop with the value of its variable; the list ends where the context is done in a pause.
  unfoldable pub signals_stream_loop : ℕ → List Attempt → Life
  unfolding next_backoff listen
  signals_stream_loop backoff [] = record { effects = []; pauses = [] }
  signals_stream_loop backoff (a ∷ attempts) =
      let rest = signals_stream_loop (next_backoff a.elapsed backoff) attempts in
      if a.cancelled
      then record { effects = acted a; pauses = backoff ∷ [] }
      else record { effects = acted a ++ rest.effects; pauses = backoff ∷ rest.pauses }

-- A connection that Accept returns: its number, its remote address, and the first line on it.
pub record Accepted : Type 0 where
  pub conn : ℕ
  pub remote : Bytes
  pub line : Option Bytes

-- The loop until Accept returns an error, `none`, with its goroutines one after the other.
unfoldable pub accept_loop : List (Option Accepted) → Mesh → Step
unfolding handle_inbound
accept_loop [] m = (m, [])
accept_loop (none ∷ rest) m = (m, [])
accept_loop (some i ∷ rest) m =
    let (m', fx) = handle_inbound i.conn i.remote i.line m in
    let (m'', gx) = accept_loop rest m' in (m'', fx ++ gx)
