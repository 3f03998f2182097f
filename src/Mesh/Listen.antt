-- ===== src/Mesh/Listen.antt =====
-- streamSignals of cmd/quicchat/mesh.go around its parser, with post and get: what becomes of an
-- answer of the lighthouse. The network enters as the answer, and encoding/json as `decode`.
pub mod Answers
use quicmeshpoc.Common.{
  ℕ, Bytes, Bool, List, [], ◌∷◌, ◌++◌, Option, none, some, text, ltb, ◌==◌, if◌then◌else◌,
}
use quicmeshpoc.Protocol.{Peer, PeersResponse, RegisterResponse, Signal}
use quicmeshpoc.Sse.{stream_signals}
use quicmeshpoc.Mesh.State.{Mesh, Effect, Step}
use quicmeshpoc.Mesh.Links.{respond_to_punch, poll, status}

-- How a request ends: with an error before there is an answer, or with a status code, its text and
-- a body.
pub data Outcome : Type 0 where
  failure : Bytes → Outcome
  answer : ℕ → Bytes → Bytes → Outcome

pub data Result (A : Type 0) : Type 0 where
  ok : A → Result A
  err : Bytes → Result A

-- fmt.Errorf("%s: %s", path, resp.Status)
unfoldable pub status_error : Bytes → Bytes → Bytes
unfolding text
status_error path status = path ++ (text ": " ++ status)

module _ {A : Type 0} (decode : Bytes → Result A) where
  -- get; and post, where it is given a place for the answer.
  unfoldable pub fetch : Bytes → Outcome → Result A
  unfolding status_error
  fetch path (failure e) = err e
  fetch path (answer code status body) =
      if ltb code 300 then decode body else err (status_error path status)

-- post without a place for the answer.
unfoldable pub send : Bytes → Outcome → Result (Unit {0})
unfolding status_error
send path (failure e) = err e
send path (answer code status body) = if ltb code 300 then ok tt else err (status_error path status)

unfoldable pub registered : Result RegisterResponse → List Effect
unfolding text
registered (err e) = status (text "register error: " ++ e) ∷ []
registered (ok r) = status (text "registered; lighthouse sees me at " ++ r.your_addr) ∷ []

-- One round of registerLoop.
unfoldable pub register_round : (Bytes → Result RegisterResponse) → Outcome → Mesh → Step
unfolding fetch registered text
register_round decode out m = (m, registered (fetch decode (text "/register") out))

unfoldable pub roster : Result PeersResponse → Option (List Peer)
roster (err e) = none
roster (ok r) = some r.peers

-- One round of peersLoop from the answer to its request on.
unfoldable pub peers_round : (Bytes → Result PeersResponse) → Bytes → Outcome → Mesh → Step
unfolding fetch roster poll
peers_round decode path out m = poll (roster (fetch decode path out)) m

-- respondToPunch for each signal in turn; it leaves the table of links as it is.
unfoldable pub respond_all : (Bytes → Bool) → List Signal → Mesh → List Effect
unfolding respond_to_punch
respond_all resolves [] m = []
respond_all resolves (s ∷ ss) m = (respond_to_punch resolves s m).1 ++ respond_all resolves ss m

-- streamSignals: what it does, while the table of links is `m`, and its error, where `ending` is
-- what the scanner says at the end.
unfoldable pub listen :
    (Bytes → Bool)
    → (Bytes → Option Signal)
    → Option Bytes
    → Outcome
    → Mesh
    → List Effect × Option Bytes
unfolding respond_all status_error text
listen resolves unmarshal ending (failure e) m = ([], some e)
listen resolves unmarshal ending (answer code status body) m =
    if code == 200
    then (respond_all resolves (stream_signals unmarshal body) m, ending)
    else ([], some (status_error (text "/signals/stream") status))
