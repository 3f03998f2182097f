-- ===== src/Lighthouse/Wakeup/Due.antt =====
-- A flush that is due comes: the turns that lead to it.
use quicmeshpoc.Common.{
  ℕ, suc, Bytes, Bool, true, false, ◌&&◌, ◌||◌, List, [], ◌∷◌, Option, none, some, get_elem?,
  lookup, ◌==◌, if◌then◌else◌, ◌≡◌, refl, ap, ◌∙◌, sym, arith, str_eq_refl, Bool-cases, length, ◌≤◌,
  ◌++◌, not, Map, get_or, subst, inl, inr,
}
use mathlib.Core.List.{append-nil}
use quicmeshpoc.Protocol.{Signal}
use quicmeshpoc.Lighthouse.State.{Host}
use quicmeshpoc.Lighthouse.Connect.{queued, nudge}
use quicmeshpoc.Lighthouse.Signals.Spec.{flush_signals_lem}
use quicmeshpoc.Lighthouse.Wakeup.{
  World, Turn, nudges, flushes, takes, send_nudge, take_token, flush_stream, turn, turns,
}
use quicmeshpoc.Lighthouse.Wakeup.Kept.{
  is_waiting, is_due, start, turns-Awake, start-Awake, no_lost_wakeup,
}

-- The queue of the name is empty, and what was in it is written to the stream, behind what had been.
abbrev pub Flushed : Bytes → ℕ → World → World → Type 0
Flushed self ch w w' =
    (queued self w'.server ≡ []) × (w'.written ch ≡ w.written ch ++ queued self w.server)

-- Turns that touch no queue and no stream.
abbrev SameQueues : World → World → Type 0
SameQueues w w' =
    (w'.owner ≡ w.owner) × (w'.written ≡ w.written) × (w'.server.signals ≡ w.server.signals)

Flushed-later :
    (ch : ℕ) (w w1 w2 : World)
    → SameQueues w w1
    → Flushed (w1.owner ch) ch w1 w2
    → Flushed (w.owner ch) ch w w2
Flushed-later ch w w1 w2 same f = (
  subst (λ (owner : ℕ → Bytes). queued (owner ch) w2.server ≡ []) same.0 f.0,
  f.1
      ∙ ap (λ (written : ℕ → List Signal). written ch ++ queued (w1.owner ch) w1.server) same.1
      ∙ ap (λ (owner : ℕ → Bytes). w.written ch ++ queued (owner ch) w1.server) same.0
      ∙ ap
          (λ (signals : Map (List Signal)). w.written ch ++ get_or (lookup (w.owner ch) signals) [])
          same.2,
)

flushed :
    (host : Host) (ch : ℕ) (w : World)
    → w.flushing ch ≡ true
    → Flushed (w.owner ch) ch w (turn host (flushes ch) w)
unfolding turn flush_stream
flushed host ch w h =
    let out = flush_signals_lem host (w.owner ch) (w.owner ch) [] w.server in
    rw h (
      out.1
          ∙ ap (λ (b : Bool). if b then [] else queued (w.owner ch) w.server)
              (str_eq_refl (w.owner ch)),
      ground (arith, out.0),
    )

-- After these turns, whatever they find, a stream that has its token has flushed.
abbrev pub flush_turns : Host → ℕ → List (Host × Turn)
flush_turns host ch = (host, takes ch) ∷ (host, flushes ch) ∷ []

turn-takes :
    (host : Host) (ch : ℕ) (w : World)
    → (w.server.woken ch || w.flushing ch) ≡ true
    → ((turn host (takes ch) w).flushing ch ≡ true) × SameQueues w (turn host (takes ch) w)
unfolding turn take_token
turn-takes host ch w h = elim (Bool-cases (w.server.woken ch && not (w.flushing ch))) [
  | inl e ↦ rw e (ground arith, (refl, refl, refl))
  | inr e ↦ rw e (ground (arith, h, e), (refl, refl, refl))
]

woken-Flushed :
    (host : Host) (ch : ℕ) (w : World)
    → (w.server.woken ch || w.flushing ch) ≡ true
    → Flushed (w.owner ch) ch w (turns (flush_turns host ch) w)
unfolding turns
woken-Flushed host ch w h =
    let taken = turn-takes host ch w h in
    let w1 = turn host (takes ch) w in
    Flushed-later ch w w1 (turn host (flushes ch) w1) taken.1 (flushed host ch w1 taken.0)

waiting_index :
    (ch : ℕ) (cs : List ℕ) → is_waiting ch cs ≡ true → (i : ℕ) × (get_elem? cs i ≡ some ch)
waiting_index ch [] h = absurd (ground (arith, h))
waiting_index ch (c ∷ cs) h = elim (Bool-cases (c == ch)) [
  | inl e ↦ (0, ground (arith, e))
  | inr e ↦ let (i, g) = waiting_index ch cs (ground (arith, e, h)) in (suc i, g)
]

nudged :
    (host : Host) (i ch : ℕ) (w : World) (o : Option ℕ)
    → o ≡ some ch
    → ((send_nudge o i w).server.woken ch ≡ true) × SameQueues w (send_nudge o i w)
unfolding send_nudge nudge
nudged host i ch w none e = ground (arith, e)
nudged host i ch w (some c) e = (ground (arith, e), (refl, refl, refl))

-- The turns of requests and streams that are under way already: no new request, and no stream that
-- opens or ends.
abbrev pub is_delivery : Turn → Bool
is_delivery (nudges i) = true
is_delivery (takes ch) = true
is_delivery (flushes ch) = true
is_delivery _ = false

abbrev pub all_delivery : List (Host × Turn) → Bool
all_delivery [] = true
all_delivery ((host, t) ∷ ts) = is_delivery t && all_delivery ts

-- What a flush that is due can do, in three turns at most.
abbrev pub Delivers : Bytes → ℕ → World → Type 0
Delivers self ch w =
    (more : List (Host × Turn)) × (all_delivery more ≡ true)
    × (length more ≤ 3)
    × Flushed self ch w (turns more w)

nudged-Flushed :
    (host : Host) (i ch : ℕ) (w : World)
    → get_elem? w.in_flight i ≡ some ch
    → Flushed (w.owner ch) ch w (turns ((host, nudges i) ∷ flush_turns host ch) w)
unfolding turns turn
nudged-Flushed host i ch w g =
    let o = get_elem? w.in_flight i in
    let n = nudged host i ch w o g in
    let w1 = send_nudge o i w in
    Flushed-later ch w w1 (turns (flush_turns host ch) w1) n.1
      (woken-Flushed host ch w1 (ground (arith, n.0)))

is_waiting-Delivers :
    (host : Host) (ch : ℕ) (w : World)
    → (i : ℕ) × (get_elem? w.in_flight i ≡ some ch)
    → Delivers (w.owner ch) ch w
is_waiting-Delivers host ch w (i, g) =
    ((host, nudges i) ∷ flush_turns host ch, refl, omega arith, nudged-Flushed host i ch w g)

is_due-Delivers :
    (host : Host) (ch : ℕ) (w : World) → is_due ch w ≡ true → Delivers (w.owner ch) ch w
is_due-Delivers host ch w h = elim (Bool-cases (w.server.woken ch || w.flushing ch)) [
  | inl now ↦ (flush_turns host ch, refl, omega arith, woken-Flushed host ch w now)
  | inr later ↦
      is_waiting-Delivers host ch w (waiting_index ch w.in_flight (ground (arith, h, later)))
]

-- At every moment from the start of the server on, however requests and streams interleaved: at most
-- three turns of the requests and streams that are under way, with no further request and no new
-- stream, write to the open stream of a node exactly what is queued for it, in order, behind what
-- had been written there, and leave the queue empty.
pub turns-Delivers :
    (host : Host) (ts : List (Host × Turn)) (self : Bytes) (ch : ℕ)
    → lookup self (turns ts start).server.signal_subs ≡ some ch
    → Delivers self ch (turns ts start)
turns-Delivers host ts self ch k =
    let w = turns ts start in
    let awake = turns-Awake ts start start-Awake self ch k in
    elim (no_lost_wakeup ts self ch k) [
      | inl empty ↦ (
        [],
        refl,
        omega arith,
        (
          unfold turns in empty,
          unfold turns in (sym (append-nil (w.written ch)) ∙ ap (◌++◌ (w.written ch)) (sym empty)),
        ),
      )
      | inr due ↦
          subst (λ (name : Bytes). Delivers name ch w) awake.0 (is_due-Delivers host ch w due)
    ]
