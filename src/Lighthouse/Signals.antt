-- ===== src/Lighthouse/Signals.antt =====
-- The responder's stream in cmd/lighthouse/main.go: drainSignals, subscribeSignals,
-- unsubscribeSignals, flushSignals and handleSignalsStream.
pub mod Spec
use quicmeshpoc.Common.{
  ℕ, Bytes, Bool, true, false, List, [], ◌∷◌, ◌++◌, Option, none, some, str_eq, lookup, insert,
  delete, text, ◌==◌, ◌+◌, if◌then◌else◌,
}
use quicmeshpoc.Protocol.{Signal}
use quicmeshpoc.Lighthouse.State.{Handoff, Lighthouse, Host}
use quicmeshpoc.Lighthouse.Events.{add_event}
use quicmeshpoc.Lighthouse.Handoffs.{pick_up}
use quicmeshpoc.Lighthouse.Connect.{queued}

-- The outer loop of drainSignals.
unfoldable pub pick_up_all : Bytes → List Signal → List Handoff → List Handoff × List Bytes
unfolding pick_up
pick_up_all self [] hs = (hs, [])
pick_up_all self (s ∷ ss) hs =
    let (hs', marked) = pick_up s.from_node_id self hs in
    let (hs'', later) = pick_up_all self ss hs' in (hs'', marked ++ later)

pub record Drained : Type 0 where
  pub state : Lighthouse
  pub pending : List Signal
  pub picked_up : List Bytes

unfoldable pub drain_signals : Bytes → Lighthouse → Drained
unfolding pick_up_all
drain_signals self l =
    let (hs, marked) = pick_up_all self (queued self l) l.handoffs in
    record {
      state = record l { signals = delete self l.signals; handoffs = hs };
      pending = queued self l;
      picked_up = marked;
    }

-- A new channel is empty.
unfoldable pub subscribe_signals : Bytes → Lighthouse → Lighthouse × ℕ
subscribe_signals self l = (
  record l {
    signal_subs = insert self l.next_channel l.signal_subs;
    woken = λ c. if c == l.next_channel then false else l.woken c;
    next_channel = l.next_channel + 1;
  },
  l.next_channel,
)

-- l.signalSubs[self] == ch; a missing entry is a nil channel, which equals no channel made.
unfoldable pub is_current : Option ℕ → ℕ → Bool
is_current none ch = false
is_current (some c) ch = c == ch

unfoldable pub unsubscribe_signals : Bytes → ℕ → Lighthouse → Lighthouse
unfolding is_current
unsubscribe_signals self ch l =
    if is_current (lookup self l.signal_subs) ch
    then record l { signal_subs = delete self l.signal_subs }
    else l

-- The log entries of flushSignals; each takes two readings of the clock.
unfoldable pub note_punching : Host → ℕ → Bytes → List Bytes → Lighthouse → Lighthouse
unfolding text
note_punching host i self [] l = l
note_punching host i self (from ∷ rest) l = note_punching host (i + 2) self rest (
    add_event host i (text "punching")
      (self ++ text " picked up punch request from " ++ from ++ text " — punching…") l)

-- The state, and the signals that are written to the stream as `signal` events, in order.
unfoldable pub flush_signals : Host → Bytes → Lighthouse → Lighthouse × List Signal
unfolding drain_signals note_punching
flush_signals host self l =
    let d = drain_signals self l in (note_punching host 0 self d.picked_up d.state, d.pending)

-- handleSignalsStream up to its loop, for a name that is not empty: the state, the stream's channel
-- and what the first flush writes.
unfoldable pub open_signals : Host → Bytes → Lighthouse → Lighthouse × ℕ × List Signal
unfolding subscribe_signals flush_signals
open_signals host self l =
    let (l', ch) = subscribe_signals self l in
    let (l'', sent) = flush_signals host self l' in (l'', ch, sent)

-- `case <-ch`: the token is taken and the queue flushed. With no token the case is not ready.
unfoldable pub wake_signals : Host → Bytes → ℕ → Lighthouse → Lighthouse × List Signal
unfolding flush_signals
wake_signals host self ch l =
    if l.woken ch
    then flush_signals host self (record l { woken = λ c. if c == ch then false else l.woken c })
    else (l, [])
