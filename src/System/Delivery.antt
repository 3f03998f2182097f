-- ===== src/System/Delivery.antt =====
-- From the requests that the lighthouse accepts to the signals that a client reads: the whole of
-- handleSignalsStream of cmd/lighthouse/main.go, and streamSignals of cmd/quicchat/mesh.go.
pub mod Writes
use mathlib.Core.List.{append-nil}
use quicmeshpoc.Common.{
  ℕ, Bytes, true, false, List, [], ◌∷◌, ◌++◌, All, str_eq, str_eq_iff, str_eq_refl, ◌≡◌, ◌≢◌, refl,
  sym, subst, ap, ◌∙◌, arith, text,
}
use quicmeshpoc.Protocol.{Signal}
use quicmeshpoc.Lighthouse.State.{Lighthouse, Host}
use quicmeshpoc.Lighthouse.Connect.{queued}
use quicmeshpoc.Lighthouse.Signals.{open_signals, wake_signals}
use quicmeshpoc.Lighthouse.Serve.{
  Call, registers, lists, connects, reports, opens, wakes, closes, watches, shows, leaves,
  handle_signals_stream, step, run,
}
use quicmeshpoc.Lighthouse.Serve.Queue.{sent, all_sent, all_accepted, delivery}
use quicmeshpoc.Lighthouse.Streams.{
  Event, meanwhile, receives, beats, Response, streamed, write_signals, signals_loop, open_and_loop,
  serve_signals_stream,
}
use quicmeshpoc.Lighthouse.Streams.History.{
  next, history, signals_life, step-opens, open_and_loop_life,
}
use quicmeshpoc.Lighthouse.Streams.Awake.{is_apart, Awake, wakes-Awake, opens-Awake, queued-closes}
use quicmeshpoc.Lighthouse.Streams.Awake.Others.{step-Awake}
use quicmeshpoc.Sse.{write_sse, keep_alive, stream_signals}
use quicmeshpoc.Sse.RoundTrip.{
  Codec, Write, event, heartbeat, written, events, IsSendable, stream_signals-written,
}
use quicmeshpoc.System.Punch.{as_events}
use quicmeshpoc.System.Delivery.Writes.{
  IsApart, body_of, writes, events-append, sent-opens, serve-open, events-writes,
  queued-signals_loop, write_signals-written, written-signals_loop, All-prefix,
}

module _ (codec : Codec Signal) where
  module _ (host : Host) (self : Bytes) (es : List Event) (l : Lighthouse) where
    -- What the whole stream writes.
    abbrev all_writes : List (Write Signal)
    all_writes =
        let out = open_signals host self l in as_events out.2 ++ writes self (next l) es out.0

    body-all_writes :
        str_eq self [] ≡ false
        → body_of (serve_signals_stream codec.marshal host self true es l).1
          ≡ written codec all_writes
    unfolding open_and_loop
    body-all_writes e =
        let out = open_signals host self l in
        ap (λ (r : Lighthouse × Response). body_of r.1) (serve-open codec.marshal host self es l e)
        ∙ ap (write_signals codec.marshal out.2) (written-signals_loop codec self (next l) es out.0)
        ∙ write_signals-written codec out.2 (writes self (next l) es out.0)

    events-all_writes :
        str_eq self [] ≡ false
        → All (IsApart self (next l)) es
        → events all_writes ≡ all_sent self l (signals_life host self es l)
    unfolding all_sent
    events-all_writes e h =
        let out = open_signals host self l in
        events-append out.2 (writes self (next l) es out.0)
        ∙ ap (◌++◌ out.2) (events-writes self (next l) host es out.0 h)
        ∙ rw (sent-opens host self l e, step-opens host self l e) refl

    queued-life :
        str_eq self [] ≡ false
        → All (IsApart self (next l)) es
        → (serve_signals_stream codec.marshal host self true es l).0.woken (next l) ≡ false
        → queued self (run l (signals_life host self es l)) ≡ []
    unfolding open_and_loop
    queued-life e h w =
        let opened = serve-open codec.marshal host self es l e in
        ap (queued self) (sym (open_and_loop_life codec.marshal host self es l e))
        ∙ queued-signals_loop self (next l) codec.marshal es (open_signals host self l).0 h
            (opens-Awake self (next l) host l refl)
            (ap (λ (r : Lighthouse × Response). r.0.woken (next l)) (sym opened) ∙ w)

    -- The client of a signal stream reads from its body exactly the requests for its node that were
    -- waiting when the stream was opened, and then those that the lighthouse accepted
    -- while it was open, in their order: none is lost, repeated or overtaken, whatever the other
    -- requests and streams do meanwhile and wherever the heartbeats come, if the name is not
    -- empty, no other stream under it is opened or served meanwhile, no token is left in
    -- the channel when the stream ends, and the signals decode from their encoding and fit in the
    -- client's buffer.
    pub delivered :
        self ≢ []
        → All (IsApart self (next l)) es
        → All
            (IsSendable codec)
            (as_events (queued self l ++ all_accepted self l (signals_life host self es l)))
        → (serve_signals_stream codec.marshal host self true es l).0.woken (next l) ≡ false
        → stream_signals codec.unmarshal
            (body_of (serve_signals_stream codec.marshal host self true es l).1)
          ≡ queued self l ++ all_accepted self l (signals_life host self es l)
    delivered named h fits w =
        let e : str_eq self [] ≡ false = ground (arith, named, str_eq_iff self []) in
        let life = signals_life host self es l in
        let all = events-all_writes e h in
        let balance =
          ap (λ (ss : List Signal). ss ++ queued self (run l life)) all ∙ delivery self l life in
        let sendable = All-prefix codec all_writes (queued self (run l life)) (
          subst (λ (ss : List Signal). All (IsSendable codec) (as_events ss)) (sym balance) fits) in
        ap (stream_signals codec.unmarshal) (body-all_writes e)
        ∙ stream_signals-written codec all_writes sendable
        ∙ sym (append-nil (events all_writes))
        ∙ ap (◌++◌ (events all_writes)) (sym (queued-life e h w))
        ∙ balance
