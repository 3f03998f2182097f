-- ===== src/Lighthouse/Streams/History.antt =====
-- The stream of a node as a history of the server's transitions.
use quicmeshpoc.Common.{ℕ, Bytes, false, List, [], ◌∷◌, str_eq, ◌≡◌, refl, sym, ap, arith, ◌∙◌}
use quicmeshpoc.Protocol.{Signal}
use quicmeshpoc.Lighthouse.State.{Lighthouse, Host}
use quicmeshpoc.Lighthouse.Signals.{open_signals}
use quicmeshpoc.Lighthouse.Serve.{
  Call, opens, wakes, closes, handle_signals_stream, step, History, run,
}
use quicmeshpoc.Lighthouse.Streams.{Event, meanwhile, receives, beats, signals_loop, open_and_loop}

-- The transitions that a loop takes part in, with `wakes` or `shows` for its channel; `last` is the
-- deferred call.
abbrev pub history : Call → List Event → (Host × Call) → History
history call [] last = last ∷ []
history call (meanwhile host c ∷ es) last = (host, c) ∷ history call es last
history call (receives host ∷ es) last = (host, call) ∷ history call es last
history call (beats ∷ es) last = history call es last

-- The channel that the next stream gets.
abbrev pub next : Lighthouse → ℕ
next l = l.next_channel

-- The whole life of a stream that is opened now.
abbrev pub signals_life : Host → Bytes → List Event → Lighthouse → History
signals_life host self es l =
    (host, opens self) ∷ history (wakes self (next l)) es (host, closes self (next l))

module _ (marshal : Signal → Bytes) where
  pub run-signals_loop :
      (self : Bytes) (ch : ℕ) (es : List Event) (host : Host) (l : Lighthouse)
      → (signals_loop marshal self ch es l).0
        ≡ run l (history (wakes self ch) es (host, closes self ch))
  unfolding signals_loop run
  run-signals_loop self ch [] host l = refl
  run-signals_loop self ch (meanwhile h c ∷ es) host l =
      run-signals_loop self ch es host (step h c l)
  run-signals_loop self ch (receives h ∷ es) host l =
      unfold step in run-signals_loop self ch es host _
  run-signals_loop self ch (beats ∷ es) host l = run-signals_loop self ch es host l

pub step-opens :
    (host : Host) (self : Bytes) (l : Lighthouse)
    → str_eq self [] ≡ false
    → step host (opens self) l ≡ (open_signals host self l).0
unfolding step handle_signals_stream
step-opens host self l e = ground (arith, e)

pub open_and_loop_life :
    (marshal : Signal → Bytes) (host : Host) (self : Bytes) (es : List Event) (l : Lighthouse)
    → str_eq self [] ≡ false
    → (open_and_loop marshal host self es l).0 ≡ run l (signals_life host self es l)
unfolding open_and_loop run
open_and_loop_life marshal host self es l e =
    run-signals_loop marshal self (next l) es host _
    ∙ ap (λ m. run m (history (wakes self (next l)) es (host, closes self (next l))))
        (sym (step-opens host self l e))
