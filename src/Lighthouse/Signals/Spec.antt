-- ===== src/Lighthouse/Signals/Spec.antt =====
-- Draining, and who holds the stream of a name.
use quicmeshpoc.Common.{
  ℕ, Bytes, Bool, true, false, not, ◌&&◌, ◌||◌, List, [], ◌∷◌, Option, none, some, str_eq, lookup,
  if◌then◌else◌, ◌≡◌, refl, ap, ◌∙◌, arith, str_eq_iff, str_eq_refl, lookup-delete, length, ◌==◌,
}
use quicmeshpoc.Protocol.{Signal}
use quicmeshpoc.Lighthouse.State.{Handoff, Lighthouse, Host}
use quicmeshpoc.Lighthouse.Frame.{core, core-note_punching}
use quicmeshpoc.Lighthouse.Handoffs.{pick_up}
use quicmeshpoc.Lighthouse.Handoffs.Rows.{row, on_pair, same_pair, row-pick_up}
use quicmeshpoc.Lighthouse.Handoffs.Unique.{OneRow, OneRow-pick_up}
use quicmeshpoc.Lighthouse.Handoffs.Life.{length-pick_up}
use quicmeshpoc.Lighthouse.Connect.{queued}
use quicmeshpoc.Lighthouse.Signals.{pick_up_all, drain_signals, unsubscribe_signals, flush_signals}

pub OneRow-pick_up_all :
    (self : Bytes) (ss : List Signal) (hs : List Handoff)
    → OneRow hs
    → OneRow (pick_up_all self ss hs).0
unfolding pick_up_all
OneRow-pick_up_all self [] hs u = u
OneRow-pick_up_all self (s ∷ ss) hs u =
    OneRow-pick_up_all self ss (pick_up s.from_node_id self hs).0
      (OneRow-pick_up s.from_node_id self hs u)

pub length-pick_up_all :
    (self : Bytes) (ss : List Signal) (hs : List Handoff)
    → length (pick_up_all self ss hs).0 ≡ length hs
unfolding pick_up_all
length-pick_up_all self [] hs = refl
length-pick_up_all self (s ∷ ss) hs =
    length-pick_up_all self ss (pick_up s.from_node_id self hs).0
    ∙ length-pick_up s.from_node_id self hs

-- Whether one of the signals is from the node.
abbrev pub is_from : Bytes → List Signal → Bool
is_from a [] = false
is_from a (s ∷ ss) = str_eq s.from_node_id a || is_from a ss

abbrev pub mark : Handoff → Handoff
mark h = if not h.picked_up && not h.completed then record h { picked_up = true } else h

on_pair_again :
    (c d : Bool) (o : Option Handoff) → on_pair c mark (on_pair d mark o) ≡ on_pair (d || c) mark o
on_pair_again c d none = refl
on_pair_again c d (some h) = ground arith

same_pair_self : (from self a : Bytes) → same_pair from self a self ≡ str_eq from a
same_pair_self from self a = ground (arith, str_eq_refl self)

row-pick_up_all :
    (self a : Bytes) (ss : List Signal) (hs : List Handoff)
    → row a self (pick_up_all self ss hs).0 ≡ on_pair (is_from a ss) mark (row a self hs)
unfolding pick_up_all
row-pick_up_all self a [] hs = ground arith
row-pick_up_all self a (s ∷ ss) hs =
    row-pick_up_all self a ss (pick_up s.from_node_id self hs).0
    ∙ rw (row-pick_up s.from_node_id self a self hs, same_pair_self s.from_node_id self a)
        (on_pair_again (is_from a ss) (str_eq s.from_node_id a) (row a self hs))

pub core-flush_signals :
    (host : Host) (self : Bytes) (l : Lighthouse)
    → core (flush_signals host self l).0 ≡ core (drain_signals self l).state
unfolding flush_signals
core-flush_signals host self l =
    let d = drain_signals self l in core-note_punching host 0 self d.picked_up d.state

queued-drain_signals :
    (self k : Bytes) (l : Lighthouse)
    → queued k (drain_signals self l).state ≡ (if str_eq self k then [] else queued k l)
unfolding drain_signals
queued-drain_signals self k l = ground (arith, lookup-delete self k l.signals)

-- A flush writes the whole queue of its node, in order, and empties it;
-- it leaves the other queues alone. On the dashboard the row from each sender of
-- a written signal to the node is marked as picked up, unless it was picked up or completed.
pub flush_signals_lem :
    (host : Host) (self k a : Bytes) (l : Lighthouse)
    → let out = flush_signals host self l in
      (out.1 ≡ queued self l)
      × (queued k out.0 ≡ (if str_eq self k then [] else queued k l))
      × (row a self out.0.handoffs
          ≡ on_pair (is_from a (queued self l)) mark (row a self l.handoffs))
flush_signals_lem host self k a l = (
  unfold flush_signals in refl,
  ap (queued k) (core-flush_signals host self l) ∙ queued-drain_signals self k l,
  ap (λ (m : Lighthouse). row a self m.handoffs) (core-flush_signals host self l)
      ∙ (unfold drain_signals in row-pick_up_all self a (queued self l) l.handoffs),
)

-- A stream that is torn down takes its own channel out of the table and no other: the stream
-- that replaced it under the same name stays, and so do those of the other names.
pub unsubscribe_signals_lem :
    (self k : Bytes) (ch : ℕ) (l : Lighthouse)
    → lookup k (unsubscribe_signals self ch l).signal_subs ≡ elim (lookup k l.signal_subs) [
      | none ↦ none
      | some c ↦ if str_eq self k && c == ch then none else some c
    ]
unfolding unsubscribe_signals
unsubscribe_signals_lem self k ch l =
    ground (arith, lookup-delete self k l.signal_subs, str_eq_iff self k)
