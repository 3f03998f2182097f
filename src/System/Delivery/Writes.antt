-- ===== src/System/Delivery/Writes.antt =====
-- What the loop of handleSignalsStream in cmd/lighthouse/main.go writes, piece by piece.
use quicmeshpoc.Common.{
  ℕ, Bytes, true, false, List, [], ◌∷◌, ◌++◌, All, str_eq, str_eq_refl, ◌≡◌, refl, sym, ap, ◌∙◌,
  arith, text,
}
use quicmeshpoc.Protocol.{Signal}
use quicmeshpoc.Lighthouse.State.{Lighthouse, Host}
use quicmeshpoc.Lighthouse.Connect.{queued}
use quicmeshpoc.Lighthouse.Signals.{open_signals, wake_signals}
use quicmeshpoc.Lighthouse.Serve.{
  Call, registers, lists, connects, reports, opens, wakes, closes, watches, shows, leaves,
  handle_signals_stream, step,
}
use quicmeshpoc.Lighthouse.Serve.Queue.{sent, all_sent}
use quicmeshpoc.Lighthouse.Streams.{
  Event, meanwhile, receives, beats, Response, streamed, write_signals, signals_loop, open_and_loop,
  serve_signals_stream,
}
use quicmeshpoc.Lighthouse.Streams.History.{history}
use quicmeshpoc.Lighthouse.Streams.Awake.{is_apart, Awake, wakes-Awake, queued-closes}
use quicmeshpoc.Lighthouse.Streams.Awake.Others.{step-Awake}
use quicmeshpoc.Sse.{write_sse, keep_alive}
use quicmeshpoc.Sse.RoundTrip.{Codec, Write, event, heartbeat, written, events, IsSendable}
use quicmeshpoc.System.Punch.{as_events}

-- What happens meanwhile is of others, and of no other stream under this name.
abbrev pub IsApart : Bytes → ℕ → Event → Type 0
IsApart self ch (meanwhile host c) = is_apart self ch c ≡ true
IsApart self ch _ = Unit

abbrev pub body_of : Response → Bytes
body_of (streamed body) = body
body_of _ = []

-- What the loop writes, piece by piece.
abbrev pub writes : Bytes → ℕ → List Event → Lighthouse → List (Write Signal)
writes self ch [] l = []
writes self ch (meanwhile host c ∷ es) l = writes self ch es (step host c l)
writes self ch (receives host ∷ es) l =
    let out = wake_signals host self ch l in as_events out.1 ++ writes self ch es out.0
writes self ch (beats ∷ es) l = heartbeat ∷ writes self ch es l

pub events-append :
    (ss : List Signal) (ws : List (Write Signal)) → events (as_events ss ++ ws) ≡ ss ++ events ws
unfolding events
events-append [] ws = refl
events-append (s ∷ ss) ws = ap (◌∷◌ s) (events-append ss ws)

module _ (self : Bytes) (ch : ℕ) where
  sent-apart :
      (host : Host) (c : Call) (l : Lighthouse)
      → is_apart self ch c ≡ true
      → sent self host c l ≡ []
  unfolding sent
  sent-apart host (opens other) l h = ground (arith, h)
  sent-apart host (wakes other c) l h = ground (arith, h)
  sent-apart host (registers body addr) l h = refl
  sent-apart host (lists id) l h = refl
  sent-apart host (connects body) l h = refl
  sent-apart host (reports body) l h = refl
  sent-apart host (closes other c) l h = refl
  sent-apart host watches l h = refl
  sent-apart host (shows c) l h = refl
  sent-apart host (leaves c) l h = refl

  sent-wakes :
      (host : Host) (l : Lighthouse)
      → sent self host (wakes self ch) l ≡ (wake_signals host self ch l).1
  unfolding sent
  sent-wakes host l = rw (str_eq_refl self) refl

  pub events-writes :
      (host : Host) (es : List Event) (l : Lighthouse)
      → All (IsApart self ch) es
      → events (writes self ch es l)
        ≡ all_sent self l (history (wakes self ch) es (host, closes self ch))
  unfolding events all_sent step
  events-writes host [] l h = unfold sent in refl
  events-writes host (meanwhile g c ∷ es) l h =
      rw (sent-apart g c l h.0) (events-writes host es (step g c l) h.1)
  events-writes host (receives g ∷ es) l h =
      let out = wake_signals g self ch l in
      events-append out.1 (writes self ch es out.0)
      ∙ ap (◌++◌ out.1) (events-writes host es out.0 h.1)
      ∙ ap
          (λ (ss : List Signal).
            ss ++ all_sent self out.0 (history (wakes self ch) es (host, closes self ch)))
          (sym (sent-wakes g l))
  events-writes host (beats ∷ es) l h = events-writes host es l h.1

  -- With no token left when the client leaves, nothing is left in the queue.
  pub queued-signals_loop :
      (marshal : Signal → Bytes) (es : List Event) (l : Lighthouse)
      → All (IsApart self ch) es
      → Awake self ch l
      → (signals_loop marshal self ch es l).0.woken ch ≡ false
      → queued self (signals_loop marshal self ch es l).0 ≡ []
  unfolding signals_loop
  queued-signals_loop marshal [] l h v e = queued-closes self ch l v e
  queued-signals_loop marshal (meanwhile g c ∷ es) l h v e =
      queued-signals_loop marshal es (step g c l) h.1 (step-Awake self ch g c l h.0 v) e
  queued-signals_loop marshal (receives g ∷ es) l h v e =
      queued-signals_loop marshal es _ h.1 (wakes-Awake self ch g l v) e
  queued-signals_loop marshal (beats ∷ es) l h v e = queued-signals_loop marshal es l h.1 v e

pub sent-opens :
    (host : Host) (self : Bytes) (l : Lighthouse)
    → str_eq self [] ≡ false
    → sent self host (opens self) l ≡ (open_signals host self l).2
unfolding sent handle_signals_stream
sent-opens host self l e = ground (arith, e, str_eq_refl self)

pub serve-open :
    (marshal : Signal → Bytes) (host : Host) (self : Bytes) (es : List Event) (l : Lighthouse)
    → str_eq self [] ≡ false
    → serve_signals_stream marshal host self true es l ≡ open_and_loop marshal host self es l
unfolding serve_signals_stream
serve-open marshal host self es l e = rw e refl

module _ (codec : Codec Signal) where
  pub write_signals-written :
      (ss : List Signal) (ws : List (Write Signal))
      → write_signals codec.marshal ss (written codec ws) ≡ written codec (as_events ss ++ ws)
  unfolding write_signals written
  write_signals-written [] ws = refl
  write_signals-written (s ∷ ss) ws =
      unfold write_sse text in
      ap (λ (r : Bytes). write_sse (text "signal") (codec.marshal s) r)
        (write_signals-written ss ws)

  pub written-signals_loop :
      (self : Bytes) (ch : ℕ) (es : List Event) (l : Lighthouse)
      → (signals_loop codec.marshal self ch es l).1 ≡ written codec (writes self ch es l)
  unfolding signals_loop written
  written-signals_loop self ch [] l = refl
  written-signals_loop self ch (meanwhile g c ∷ es) l = written-signals_loop self ch es (step g c l)
  written-signals_loop self ch (receives g ∷ es) l =
      let out = wake_signals g self ch l in
      ap (write_signals codec.marshal out.1) (written-signals_loop self ch es out.0)
      ∙ write_signals-written out.1 (writes self ch es out.0)
  written-signals_loop self ch (beats ∷ es) l =
      unfold keep_alive in ap keep_alive (written-signals_loop self ch es l)

  pub All-prefix :
      (ws : List (Write Signal)) (rest : List Signal)
      → All (IsSendable codec) (as_events (events ws ++ rest))
      → All (IsSendable codec) ws
  unfolding events
  All-prefix [] rest h = tt
  All-prefix (event s ∷ ws) rest h = (h.0, All-prefix ws rest h.1)
  All-prefix (heartbeat ∷ ws) rest h = (tt, All-prefix ws rest h)
