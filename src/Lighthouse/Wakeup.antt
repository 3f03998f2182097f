-- ===== src/Lighthouse/Wakeup.antt =====
-- handleConnect and handleSignalsStream of cmd/lighthouse/main.go cut at their locks: a request that
-- is queued under the lock sends its nudge later, and a stream that took its token, or that has just
-- subscribed, empties the queue later. The other handlers touch neither queues nor nudge channels.
pub mod Kept
pub mod Due
use quicmeshpoc.Common.{
  ℕ, zero, suc, Bytes, Bool, true, false, not, ◌&&◌, List, [], ◌∷◌, ◌++◌, Option, none, some,
  get_elem?, lookup, ◌==◌, if◌then◌else◌,
}
use quicmeshpoc.Protocol.{ConnectRequest, Signal}
use quicmeshpoc.Lighthouse.State.{Registration, Lighthouse, Host}
use quicmeshpoc.Lighthouse.Connect.{enqueue, nudge}
use quicmeshpoc.Lighthouse.Signals.{subscribe_signals, unsubscribe_signals, flush_signals}

-- `in_flight` holds, for each request that is queued and has not nudged yet, the channel that it
-- read under the lock; `owner` the name that the stream of a channel was opened with; `flushing`
-- the streams that are about to call flushSignals; `written` what flushSignals has written to the stream
-- of each channel, in order.
pub record World : Type 0 where
  pub server : Lighthouse
  pub in_flight : List ℕ
  pub owner : ℕ → Bytes
  pub flushing : ℕ → Bool
  pub written : ℕ → List Signal

abbrev pub set_flag : ℕ → Bool → (ℕ → Bool) → ℕ → Bool
set_flag ch b f c = if c == ch then b else f c

-- The nudge that the request still has to send, if its target has a stream.
abbrev pub pending_nudge : Option ℕ → List ℕ
pending_nudge none = []
pending_nudge (some ch) = ch ∷ []

unfoldable pub remove_at : ℕ → List ℕ → List ℕ
remove_at i [] = []
remove_at zero (c ∷ cs) = cs
remove_at (suc i) (c ∷ cs) = c ∷ remove_at i cs

-- A request is queued; one of the requests sends its nudge; a stream subscribes; it flushes; it
-- takes its token; it ends.
pub data Turn : Type 0 where
  asks : ConnectRequest → Registration → Turn
  nudges : ℕ → Turn
  opens : Bytes → Turn
  flushes takes ends : ℕ → Turn

unfoldable pub send_nudge : Option ℕ → ℕ → World → World
unfolding nudge remove_at
send_nudge none i w = w
send_nudge (some ch) i w = record w {
  server = nudge (some ch) w.server;
  in_flight = remove_at i w.in_flight;
}

unfoldable pub take_token : ℕ → World → World
take_token ch w = record w {
  server = record w.server { woken = set_flag ch false w.server.woken };
  flushing = set_flag ch true w.flushing;
}

unfoldable pub open_stream : Bytes → World → World
unfolding subscribe_signals
open_stream self w =
    let (l, ch) = subscribe_signals self w.server in
    record w {
      server = l;
      owner = λ c. if c == ch then self else w.owner c;
      flushing = set_flag ch true w.flushing;
    }

unfoldable pub flush_stream : Host → ℕ → World → World
unfolding flush_signals
flush_stream host ch w =
    let (l, sent) = flush_signals host (w.owner ch) w.server in
    record w {
      server = l;
      flushing = set_flag ch false w.flushing;
      written = λ c. if c == ch then w.written c ++ sent else w.written c;
    }

-- A turn that is not possible changes nothing.
unfoldable pub turn : Host → Turn → World → World
unfolding enqueue send_nudge take_token open_stream flush_stream unsubscribe_signals
turn host (asks req reg) w = record w {
  server = enqueue (host.now 0) req reg w.server;
  in_flight = w.in_flight ++ pending_nudge (lookup req.to w.server.signal_subs);
}
turn host (nudges i) w = send_nudge (get_elem? w.in_flight i) i w
turn host (opens self) w = open_stream self w
turn host (flushes ch) w = if w.flushing ch then flush_stream host ch w else w
turn host (takes ch) w = if w.server.woken ch && not (w.flushing ch) then take_token ch w else w
turn host (ends ch) w =
    if w.flushing ch then w else record w { server = unsubscribe_signals (w.owner ch) ch w.server }

unfoldable pub turns : List (Host × Turn) → World → World
unfolding turn
turns [] w = w
turns ((host, t) ∷ ts) w = turns ts (turn host t w)
