-- ===== src/Mesh/Listen/Answers.antt =====
-- The table of links and the answers of the lighthouse.
use quicmeshpoc.Common.{ℕ, Bytes, Bool, [], Option, some, text, ◌≡◌, ◌≤◌, refl, arith}
use quicmeshpoc.Protocol.{PeersResponse, Signal}
use quicmeshpoc.Mesh.State.{Mesh}
use quicmeshpoc.Mesh.Listen.{
  failure, answer, Result, err, status_error, fetch, send, peers_round, listen,
}

-- An answer with a status of 300 or more is an error with the path and the status, whatever
-- its body holds; so a round of peersLoop on it does nothing, and neither does one on a failed request
-- or on a body that does not decode. A stream of signals that is not answered with 200 ends with
-- an error and punches nowhere.
pub peers_round_refused :
    (decode : Bytes → Result PeersResponse) (resolves : Bytes → Bool)
    (unmarshal : Bytes → Option Signal) (ending : Option Bytes) (path status body e : Bytes)
    (code : ℕ) (m : Mesh)
    → 300 ≤ code
    → (fetch decode path (answer code status body) ≡ err (status_error path status))
      × (send path (answer code status body) ≡ err (status_error path status))
      × (peers_round decode path (answer code status body) m ≡ (m, []))
      × (peers_round decode path (failure e) m ≡ (m, []))
      × (listen resolves unmarshal ending (answer code status body) m
          ≡ ([], some (status_error (text "/signals/stream") status)))
unfolding fetch send peers_round listen
peers_round_refused decode resolves unmarshal ending path status body e code m h =
    (ground arith, ground arith, ground arith, refl, ground arith)
