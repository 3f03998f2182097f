-- ===== src/Lighthouse/Streams.antt =====
-- The two handlers that hold a response open, with their select loops: handleSignalsStream of
-- cmd/lighthouse/main.go and handleStream of cmd/lighthouse/dashboard.go.
pub mod History
pub mod Awake
use quicmeshpoc.Common.{
  ℕ, Bytes, Bool, List, [], ◌∷◌, ◌++◌, Option, none, some, str_eq, text, if◌then◌else◌,
}
use quicmeshpoc.Protocol.{Signal}
use quicmeshpoc.Sse.{write_sse, keep_alive}
use quicmeshpoc.Lighthouse.State.{Lighthouse, Host}
use quicmeshpoc.Lighthouse.Events.{open_stream, push_snapshot, unsubscribe}
use quicmeshpoc.Lighthouse.Signals.{open_signals, wake_signals, unsubscribe_signals}
use quicmeshpoc.Lighthouse.Serve.{Call, step}

-- What happens while a stream is open: another request is handled, or its loop takes the case of its
-- channel, or that of the ticker.
pub data Event : Type 0 where
  meanwhile : Host → Call → Event
  receives : Host → Event
  beats : Event

-- What a handler answers: an error, or a body that is written piece by piece.
pub data Response : Type 0 where
  http_error : ℕ → Bytes → Response
  streamed : Bytes → Response

module _ (marshal : Signal → Bytes) where
  -- The writes of flushSignals, in front of what is written next.
  unfoldable pub write_signals : List Signal → Bytes → Bytes
  unfolding write_sse text
  write_signals [] rest = rest
  write_signals (s ∷ ss) rest = write_sse (text "signal") (marshal s) (write_signals ss rest)

  -- The loop until the context is done, and the deferred call behind it: the state, and the body.
  unfoldable pub signals_loop : Bytes → ℕ → List Event → Lighthouse → Lighthouse × Bytes
  unfolding step wake_signals write_signals keep_alive unsubscribe_signals
  signals_loop self ch [] l = (unsubscribe_signals self ch l, [])
  signals_loop self ch (meanwhile host c ∷ es) l = signals_loop self ch es (step host c l)
  signals_loop self ch (receives host ∷ es) l =
      let (l', sent) = wake_signals host self ch l in
      let (l'', body) = signals_loop self ch es l' in (l'', write_signals sent body)
  signals_loop self ch (beats ∷ es) l =
      let (l', body) = signals_loop self ch es l in (l', keep_alive body)

  unfoldable pub open_and_loop : Host → Bytes → List Event → Lighthouse → Lighthouse × Response
  unfolding open_signals signals_loop
  open_and_loop host self es l =
      let (l', ch, sent) = open_signals host self l in
      let (l'', body) = signals_loop self ch es l' in (l'', streamed (write_signals sent body))

  -- `flushes` tells whether the writer is an http.Flusher.
  unfoldable pub serve_signals_stream :
      Host → Bytes → Bool → List Event → Lighthouse → Lighthouse × Response
  unfolding open_and_loop text
  serve_signals_stream host self flushes es l =
      if str_eq self []
      then (l, http_error 400 (text "missing ?self="))
      else if flushes
      then open_and_loop host self es l
      else (l, http_error 500 (text "streaming unsupported"))

abbrev pub in_front : Option Bytes → Bytes → Bytes
in_front none rest = rest
in_front (some piece) rest = piece ++ rest

unfoldable pub dashboard_loop : ℕ → List Event → Lighthouse → Lighthouse × Bytes
unfolding step push_snapshot keep_alive unsubscribe
dashboard_loop ch [] l = (unsubscribe ch l, [])
dashboard_loop ch (meanwhile host c ∷ es) l = dashboard_loop ch es (step host c l)
dashboard_loop ch (receives host ∷ es) l =
    let (l', piece) = push_snapshot ch l in
    let (l'', body) = dashboard_loop ch es l' in (l'', in_front piece body)
dashboard_loop ch (beats ∷ es) l = let (l', body) = dashboard_loop ch es l in (l', keep_alive body)

unfoldable pub serve_stream : Host → Bool → List Event → Lighthouse → Lighthouse × Response
unfolding open_stream dashboard_loop text
serve_stream host flushes es l =
    let (l', ch, first) = open_stream host l in
    let (l'', body) = dashboard_loop ch es l' in
    if flushes
    then (l'', streamed (first ++ body))
    else (l, http_error 500 (text "streaming unsupported"))
