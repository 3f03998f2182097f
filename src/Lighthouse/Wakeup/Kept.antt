-- ===== src/Lighthouse/Wakeup/Kept.antt =====
-- The requests in a queue and the wake-ups of its stream.
use quicmeshpoc.Common.{
  ℕ, zero, suc, ◌<◌, Bytes, Bool, true, false, not, ◌&&◌, ◌||◌, List, [], ◌∷◌, ◌++◌, Option, none,
  some, get_elem?, lookup, ◌==◌, if◌then◌else◌, ◌≡◌, ◌⊎◌, refl, ap, ◌∙◌, sym, arith, str_eq,
  str_eq_iff, lookup-insert, Bool-cases, inl, inr,
}
use quicmeshpoc.Protocol.{ConnectRequest, Signal}
use quicmeshpoc.Lighthouse.State.{Registration, Lighthouse, Host, new_lighthouse}
use quicmeshpoc.Lighthouse.Connect.{enqueue, nudge, queued}
use quicmeshpoc.Lighthouse.Connect.Spec.{queued-enqueue}
use quicmeshpoc.Lighthouse.Signals.{subscribe_signals, unsubscribe_signals}
use quicmeshpoc.Lighthouse.Signals.Spec.{
  core-flush_signals, flush_signals_lem, unsubscribe_signals_lem,
}
use quicmeshpoc.Lighthouse.Wakeup.{
  World, pending_nudge, remove_at, Turn, asks, nudges, opens, flushes, takes, ends, send_nudge,
  take_token, open_stream, flush_stream, turn, turns,
}

abbrev pub is_waiting : ℕ → List ℕ → Bool
is_waiting ch [] = false
is_waiting ch (c ∷ cs) = c == ch || is_waiting ch cs

abbrev pub is_empty : List Signal → Bool
is_empty [] = true
is_empty (s ∷ ss) = false

-- A flush of the stream is on its way: it has its token, a nudge to it is still to come, or it is
-- about to flush.
abbrev pub is_due : ℕ → World → Bool
is_due ch w = w.server.woken ch || is_waiting ch w.in_flight || w.flushing ch

-- The current stream of a name was opened under it, and if its queue is not empty a flush is due.
abbrev pub Awake : World → Type 0
Awake w =
    (self : Bytes) (ch : ℕ)
    → lookup self w.server.signal_subs ≡ some ch
    → (w.owner ch ≡ self)
      × (ch < w.server.next_channel)
      × ((is_empty (queued self w.server) || is_due ch w) ≡ true)

is_waiting-append :
    (ch : ℕ) (cs ds : List ℕ) → is_waiting ch (cs ++ ds) ≡ (is_waiting ch cs || is_waiting ch ds)
is_waiting-append ch [] ds = refl
is_waiting-append ch (c ∷ cs) ds = ground (arith, is_waiting-append ch cs ds)

is_waiting-remove_at :
    (ch d i : ℕ) (cs : List ℕ)
    → get_elem? cs i ≡ some d
    → (is_waiting ch (remove_at i cs) || d == ch) ≡ is_waiting ch cs
unfolding remove_at
is_waiting-remove_at ch d i [] h = ground arith
is_waiting-remove_at ch d zero (c ∷ cs) h = ground arith
is_waiting-remove_at ch d (suc i) (c ∷ cs) h = ground (arith, is_waiting-remove_at ch d i cs h)

is_waiting-pending_nudge :
    (o : Option ℕ) (ch : ℕ) → o ≡ some ch → is_waiting ch (pending_nudge o) ≡ true
is_waiting-pending_nudge none ch e = ground arith
is_waiting-pending_nudge (some c) ch e = ground arith

asks-Awake :
    (host : Host) (req : ConnectRequest) (reg : Registration) (w : World)
    → Awake w
    → Awake (turn host (asks req reg) w)
unfolding turn enqueue
asks-Awake host req reg w h self ch e =
    let old = h self ch e in
    let subs = w.server.signal_subs in
    (
      old.0,
      old.1,
      elim (Bool-cases (str_eq req.to self)) [
        | inl same ↦ ground (
          arith,
          is_waiting-append ch w.in_flight (pending_nudge (lookup req.to subs)),
          is_waiting-pending_nudge (lookup req.to subs) ch
              (ap (λ (k : Bytes). lookup k subs) ((str_eq_iff req.to self).0 same) ∙ e),
        )
        | inr differs ↦ ground (
          arith,
          old.2,
          differs,
          queued-enqueue (host.now 0) req reg w.server self,
          is_waiting-append ch w.in_flight (pending_nudge (lookup req.to subs)),
        )
      ],
    )

send_nudge-Awake :
    (o : Option ℕ) (i : ℕ) (w : World)
    → o ≡ get_elem? w.in_flight i
    → Awake w
    → Awake (send_nudge o i w)
unfolding send_nudge nudge
send_nudge-Awake none i w e h self ch k = h self ch k
send_nudge-Awake (some d) i w e h self ch k =
    let old = h self ch k in
    (old.0, old.1, ground (arith, old.2, is_waiting-remove_at ch d i w.in_flight (sym e)))

take_token-Awake : (ch : ℕ) (w : World) → Awake w → Awake (take_token ch w)
unfolding take_token
take_token-Awake c w h self ch k = let old = h self ch k in (old.0, old.1, ground (arith, old.2))

open_stream-Awake : (self : Bytes) (w : World) → Awake w → Awake (open_stream self w)
unfolding open_stream subscribe_signals
open_stream-Awake name w h self ch k =
    let found = lookup-insert name self w.server.next_channel w.server.signal_subs in
    elim (Bool-cases (str_eq name self)) [
      | inl same ↦
          let new : ch ≡ w.server.next_channel = ground (arith, found, same, k) in
          (ground (arith, new, str_eq_iff name self, same), omega (arith, new), ground (arith, new))
      | inr differs ↦
          let old = h self ch (ground (arith, found, differs, k)) in
          (ground (arith, old.0, old.1), omega (arith, old.1), ground (arith, old.1, old.2))
    ]

flush_stream-Awake : (host : Host) (ch : ℕ) (w : World) → Awake w → Awake (flush_stream host ch w)
unfolding flush_stream
flush_stream-Awake host c w h self ch k =
    let name = w.owner c in
    let same = core-flush_signals host name w.server in
    let old = h self ch (sym (ap (λ (l : Lighthouse). lookup self l.signal_subs) same) ∙ k) in
    (
      old.0,
      omega (arith, old.1, ap (λ (l : Lighthouse). l.next_channel) same),
      ground (
        arith,
        old.0,
        old.2,
        str_eq_iff name self,
        (flush_signals_lem host name self [] w.server).1,
        ap (λ (l : Lighthouse). l.woken ch) same,
      ),
    )

ends-Awake :
    (ch : ℕ) (w : World)
    → Awake w
    → Awake (record w { server = unsubscribe_signals (w.owner ch) ch w.server })
unfolding unsubscribe_signals
ends-Awake c w h self ch k =
    let left = unsubscribe_signals_lem (w.owner c) self c w.server in
    let old = h self ch (ground (arith, left, k)) in
    (old.0, ground (arith, old.1), ground (arith, old.2))

Awake-if : (b : Bool) (w w' : World) → Awake w → Awake w' → Awake (if b then w else w')
Awake-if true w w' h k = h
Awake-if false w w' h k = k

turn-Awake : (host : Host) (t : Turn) (w : World) → Awake w → Awake (turn host t w)
turn-Awake host (asks req reg) w h = asks-Awake host req reg w h
turn-Awake host (nudges i) w h =
    unfold turn in send_nudge-Awake (get_elem? w.in_flight i) i w refl h
turn-Awake host (opens self) w h = unfold turn in open_stream-Awake self w h
turn-Awake host (flushes ch) w h =
    unfold turn in
    Awake-if (w.flushing ch) (flush_stream host ch w) w (flush_stream-Awake host ch w h) h
turn-Awake host (takes ch) w h =
    unfold turn in
    Awake-if (w.server.woken ch && not (w.flushing ch)) (take_token ch w) w
      (take_token-Awake ch w h) h
turn-Awake host (ends ch) w h =
    unfold turn in
    Awake-if (w.flushing ch) w (record w { server = unsubscribe_signals (w.owner ch) ch w.server })
      h (ends-Awake ch w h)

pub turns-Awake : (ts : List (Host × Turn)) (w : World) → Awake w → Awake (turns ts w)
unfolding turns
turns-Awake [] w h = h
turns-Awake ((host, t) ∷ ts) w h = turns-Awake ts (turn host t w) (turn-Awake host t w h)

-- The start of the server: no streams, no requests.
abbrev pub start : World
start = record {
  server = new_lighthouse;
  in_flight = [];
  owner = λ ch. [];
  flushing = λ ch. false;
  written = λ ch. [];
}

pub start-Awake : Awake start
unfolding lookup
start-Awake self ch k = ground (arith, k)

-- However requests and streams interleave from the start of the server on, no wake-up is lost: if
-- the stream of a node is open, then its queue is empty, or a flush of that stream is due, since it
-- has its token, a nudge to it is still to come, or it is about to flush.
pub no_lost_wakeup :
    (ts : List (Host × Turn)) (self : Bytes) (ch : ℕ)
    → lookup self (turns ts start).server.signal_subs ≡ some ch
    → (queued self (turns ts start).server ≡ []) ⊎ (is_due ch (turns ts start) ≡ true)
no_lost_wakeup ts self ch k =
    either (queued self (turns ts start).server) (is_due ch (turns ts start))
      (turns-Awake ts start start-Awake self ch k).2
  where
    either : (q : List Signal) (b : Bool) → (is_empty q || b) ≡ true → (q ≡ []) ⊎ (b ≡ true)
    either [] b h = inl refl
    either (s ∷ ss) b h = inr h
