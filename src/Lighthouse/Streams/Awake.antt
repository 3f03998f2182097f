-- ===== src/Lighthouse/Streams/Awake.antt =====
-- The token of a signal stream that is open while other requests are handled.
pub mod Others
use quicmeshpoc.Common.{
  ℕ, Bytes, Bool, true, false, not, ◌&&◌, ◌||◌, ◌==◌, ◌<◌, List, [], ◌∷◌, ◌++◌, Option, none, some,
  str_eq, str_eq_iff, str_eq_refl, lookup, insert, lookup-insert, lookup-delete, ◌≡◌, refl, sym,
  subst, ◌∙◌, arith, Bool-cases, inl, inr,
}
use quicmeshpoc.Protocol.{RegisterRequest, ConnectRequest, Signal}
use quicmeshpoc.Lighthouse.State.{Lighthouse, Host, Registration}
use quicmeshpoc.Lighthouse.Events.{open_stream, push_snapshot, unsubscribe, add_event}
use quicmeshpoc.Lighthouse.Frame.{core, core-note_offline}
use quicmeshpoc.Lighthouse.Register.{handle_register, registration}
use quicmeshpoc.Lighthouse.Register.Spec.{core-register}
use quicmeshpoc.Lighthouse.Peers.{handle_peers, scan_peers}
use quicmeshpoc.Lighthouse.Connect.{
  queued, signal_of, connect, handle_connect, handle_handoff, enqueue, nudge,
}
use quicmeshpoc.Lighthouse.Connect.Spec.{core-connect}
use quicmeshpoc.Lighthouse.Signals.{
  flush_signals, open_signals, wake_signals, subscribe_signals, unsubscribe_signals, is_current,
  drain_signals,
}
use quicmeshpoc.Lighthouse.Signals.Spec.{core-flush_signals}
use quicmeshpoc.Lighthouse.Serve.Queue.{queued-unsubscribe}
use quicmeshpoc.Lighthouse.Serve.{
  Call, registers, lists, connects, reports, opens, wakes, closes, watches, shows, leaves,
  handle_signals_stream, step,
}

-- A call that is not of this stream, nor of another stream under its name.
abbrev pub is_apart : Bytes → ℕ → Call → Bool
is_apart self ch (opens other) = not (str_eq other self)
is_apart self ch (wakes other c) = not (str_eq other self) && not (c == ch)
is_apart self ch (closes other c) = not (str_eq other self)
is_apart self ch _ = true

abbrev pub is_empty : List Signal → Bool
is_empty [] = true
is_empty (s ∷ ss) = false

-- The stream is the current one of its name, and has its token unless nothing is queued for it.
pub record Awake (self : Bytes) (ch : ℕ) (l : Lighthouse) : Type 0 where
  pub current : lookup self l.signal_subs ≡ some ch
  pub made : ch < l.next_channel
  pub waiting : (l.woken ch || is_empty (queued self l)) ≡ true

module _ (self : Bytes) (ch : ℕ) where
  -- The state does not depend on the log and the browsers.
  pub along-core :
      {l : Lighthouse} (m : Lighthouse) → core l ≡ core m → Awake self ch m → Awake self ch l
  along-core {l} m e v = again (subst (Awake self ch) (sym e) (there v))
    where
      there : Awake self ch m → Awake self ch (core m)
      there w = record { current = w.current; made = w.made; waiting = w.waiting }

      again : Awake self ch (core l) → Awake self ch l
      again w = record { current = w.current; made = w.made; waiting = w.waiting }

  -- A flush of this stream leaves nothing queued.
  own-Awake :
      (host : Host) (l : Lighthouse)
      → lookup self l.signal_subs ≡ some ch
      → ch < l.next_channel
      → Awake self ch (flush_signals host self l).0
  own-Awake host l e h = along-core (drain_signals self l).state (core-flush_signals host self l) (
      unfold drain_signals in
      record {
        current = e;
        made = h;
        waiting = ground (arith, lookup-delete self self l.signals, str_eq_refl self);
      })

  pub wakes-Awake :
      (host : Host) (l : Lighthouse)
      → Awake self ch l
      → Awake self ch (wake_signals host self ch l).0
  unfolding wake_signals
  wakes-Awake host l v = elim (Bool-cases (l.woken ch)) [
    | inl w ↦ rw w (own-Awake host _ v.current v.made)
    | inr w ↦ rw w v
  ]

  pub opens-Awake :
      (host : Host) (l : Lighthouse)
      → ch ≡ l.next_channel
      → Awake self ch (open_signals host self l).0
  unfolding open_signals subscribe_signals
  opens-Awake host l e =
      own-Awake host _
        (ground (arith, e, lookup-insert self self l.next_channel l.signal_subs, str_eq_refl self))
        (omega (arith, e))

  is_empty-nil : (ss : List Signal) → is_empty ss ≡ true → ss ≡ []
  is_empty-nil [] h = refl
  is_empty-nil (s ∷ ss) h = cc

  -- With no token in the channel, nothing is queued.
  pub queued-closes :
      (l : Lighthouse)
      → Awake self ch l
      → (unsubscribe_signals self ch l).woken ch ≡ false
      → queued self (unsubscribe_signals self ch l) ≡ []
  unfolding unsubscribe_signals
  queued-closes l v h =
      queued-unsubscribe self self ch l
      ∙ is_empty-nil (queued self l) (ground (arith, v.waiting, h))
