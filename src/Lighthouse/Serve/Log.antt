-- ===== src/Lighthouse/Serve/Log.antt =====
-- The sizes of the activity log and of the browsers' buffers.
use quicmeshpoc.Common.{
  ℕ, Bytes, ◌||◌, List, [], ◌∷◌, Option, none, some, str_eq, lookup, insert, ◌≡◌, ◌≤◌, ◌+◌, refl,
  ap, arith, inl, inr, Bool-cases, All, All-append, length, length-append,
}
use quicmeshpoc.Protocol.{RegisterRequest, ConnectRequest}
use quicmeshpoc.Lighthouse.State.{Lighthouse, Host, Registration, Subscriber, max_events}
use quicmeshpoc.Lighthouse.Html.{snapshot_html}
use quicmeshpoc.Lighthouse.Events.{
  open_stream, push_snapshot, unsubscribe, without, take_snapshot, receive, add_event, broadcast,
  offer_all, channel_capacity,
}
use quicmeshpoc.Lighthouse.Handoffs.Life.{length-append_capped}
use quicmeshpoc.Lighthouse.Register.{handle_register, announce, register, registration, restarted}
use quicmeshpoc.Lighthouse.Peers.{handle_peers, scan_peers, note_offline}
use quicmeshpoc.Lighthouse.Connect.{connect, handle_connect, handle_handoff, enqueue, nudge}
use quicmeshpoc.Lighthouse.Signals.{
  flush_signals, open_signals, wake_signals, subscribe_signals, unsubscribe_signals, drain_signals,
  note_punching,
}
use quicmeshpoc.Lighthouse.Serve.{
  Call, registers, lists, connects, reports, opens, wakes, closes, watches, shows, leaves,
  handle_signals_stream, step,
}

-- The log and the browsers: a bounded log, and buffers within their channels' capacity.
pub record LogInv (l : Lighthouse) : Type 0 where
  pub few_events : length l.events ≤ max_events
  pub small_buffers : All (λ s. length s.buffer ≤ channel_capacity) l.subs

offer_all-small :
    (html : Bytes) (ss : List Subscriber)
    → All (λ s. length s.buffer ≤ channel_capacity) ss
    → All (λ s. length s.buffer ≤ channel_capacity) (offer_all html ss)
unfolding offer_all
offer_all-small html [] h = tt
offer_all-small html (s ∷ ss) h =
    (ground (arith, length-append s.buffer (html ∷ [])), offer_all-small html ss h.1)

broadcast-LogInv : (host : Host) (i : ℕ) (l : Lighthouse) → LogInv l → LogInv (broadcast host i l)
unfolding broadcast
broadcast-LogInv host i l v = record {
  few_events = v.few_events;
  small_buffers = offer_all-small (snapshot_html host i l) l.subs v.small_buffers;
}

add_event-LogInv :
    (host : Host) (i : ℕ) (kind msg : Bytes) (l : Lighthouse)
    → LogInv l
    → LogInv (add_event host i kind msg l)
unfolding add_event
add_event-LogInv host i kind msg l v = broadcast-LogInv host (i + 1) _ (record {
  few_events = length-append_capped l.events _ max_events v.few_events;
  small_buffers = v.small_buffers;
})

note_offline-LogInv :
    (host : Host) (i : ℕ) (ids : List Bytes) (l : Lighthouse)
    → LogInv l
    → LogInv (note_offline host i ids l)
unfolding note_offline
note_offline-LogInv host i [] l v = v
note_offline-LogInv host i (id ∷ ids) l v =
    note_offline-LogInv host (i + 2) ids _ (add_event-LogInv host i _ _ l v)

note_punching-LogInv :
    (host : Host) (i : ℕ) (self : Bytes) (ids : List Bytes) (l : Lighthouse)
    → LogInv l
    → LogInv (note_punching host i self ids l)
unfolding note_punching
note_punching-LogInv host i self [] l v = v
note_punching-LogInv host i self (id ∷ ids) l v =
    note_punching-LogInv host (i + 2) self ids _ (add_event-LogInv host i _ _ l v)

handle_register-LogInv :
    (host : Host) (body : Option RegisterRequest) (addr : Bytes) (l : Lighthouse)
    → LogInv l
    → LogInv (handle_register host body addr l).0
unfolding handle_register register
handle_register-LogInv host none addr l v = v
handle_register-LogInv host (some req) addr l v = elim (Bool-cases (str_eq req.node_id [])) [
  | inl e ↦ rw e v
  | inr e ↦ rw e (
      announced (lookup req.node_id l.nodes)
        (record l { nodes = insert req.node_id (registration (host.now 0) req addr) l.nodes })
        (record { few_events = v.few_events; small_buffers = v.small_buffers }))
]
  where
    announced :
        (o : Option Registration) (m : Lighthouse) → LogInv m → LogInv (announce host o req addr m)
    announced none m w = unfold announce in add_event-LogInv host 1 _ _ m w
    announced (some prev) m w = elim (Bool-cases (restarted prev req)) [
      | inl e ↦ unfold announce in rw e (add_event-LogInv host 1 _ _ m w)
      | inr e ↦ unfold announce in rw e (broadcast-LogInv host 1 m w)
    ]

handle_connect-LogInv :
    (host : Host) (body : Option ConnectRequest) (l : Lighthouse)
    → LogInv l
    → LogInv (handle_connect host body l).0
unfolding handle_connect
handle_connect-LogInv host none l v = v
handle_connect-LogInv host (some req) l v =
    elim (Bool-cases (str_eq req.from [] || str_eq req.to [])) [
      | inl e ↦ rw e v
      | inr e ↦ rw e (connected (lookup req.from l.nodes))
    ]
  where
    nudged : (o : Option ℕ) (m : Lighthouse) → LogInv m → LogInv (nudge o m)
    nudged none m w = unfold nudge in w
    nudged (some ch) m w =
        unfold nudge in record { few_events = w.few_events; small_buffers = w.small_buffers }

    connected : (o : Option Registration) → LogInv (connect host req o l).0
    connected none = unfold connect in v
    connected (some reg) =
        unfold connect in
        add_event-LogInv host 1 _ _ _ (
          nudged (lookup req.to l.signal_subs) (enqueue (host.now 0) req reg l)
            (record { few_events = v.few_events; small_buffers = v.small_buffers }))

handle_handoff-LogInv :
    (host : Host) (body : Option ConnectRequest) (l : Lighthouse)
    → LogInv l
    → LogInv (handle_handoff host body l).0
unfolding handle_handoff
handle_handoff-LogInv host none l v = v
handle_handoff-LogInv host (some req) l v =
    elim (Bool-cases (str_eq req.from [] || str_eq req.to [])) [
      | inl e ↦ rw e v
      | inr e ↦ rw e (
          add_event-LogInv host 1 _ _ _
            (record { few_events = v.few_events; small_buffers = v.small_buffers }))
    ]

flush_signals-LogInv :
    (host : Host) (self : Bytes) (l : Lighthouse) → LogInv l → LogInv (flush_signals host self l).0
unfolding flush_signals drain_signals
flush_signals-LogInv host self l v =
    let d = drain_signals self l in
    note_punching-LogInv host 0 self d.picked_up d.state
      (record { few_events = v.few_events; small_buffers = v.small_buffers })

without-small :
    (ch : ℕ) (ss : List Subscriber)
    → All (λ s. length s.buffer ≤ channel_capacity) ss
    → All (λ s. length s.buffer ≤ channel_capacity) (without ch ss)
unfolding without
without-small ch [] h = tt
without-small ch (s ∷ ss) h = ground (arith, without-small ch ss h.1)

receive-small :
    (s : Subscriber) (html : List Bytes)
    → s.buffer ≡ html
    → length s.buffer ≤ channel_capacity
    → length (receive s html).0.buffer ≤ channel_capacity
unfolding receive
receive-small s [] e h = h
receive-small s (x ∷ html) e h = omega (arith, ap length e)

take_snapshot-small :
    (ch : ℕ) (ss : List Subscriber)
    → All (λ s. length s.buffer ≤ channel_capacity) ss
    → All (λ s. length s.buffer ≤ channel_capacity) (take_snapshot ch ss).0
unfolding take_snapshot
take_snapshot-small ch [] h = tt
take_snapshot-small ch (s ∷ ss) h =
    ground (arith, take_snapshot-small ch ss h.1, receive-small s s.buffer refl h.0)

open-LogInv :
    (host : Host) (self : Bytes) (l : Lighthouse)
    → LogInv l
    → LogInv (handle_signals_stream host self l).0
unfolding handle_signals_stream open_signals subscribe_signals
open-LogInv host self l v = elim (Bool-cases (str_eq self [])) [
  | inl e ↦ rw e v
  | inr e ↦ rw e (
      flush_signals-LogInv host self _
        (record { few_events = v.few_events; small_buffers = v.small_buffers }))
]

wake-LogInv :
    (host : Host) (self : Bytes) (ch : ℕ) (l : Lighthouse)
    → LogInv l
    → LogInv (wake_signals host self ch l).0
unfolding wake_signals
wake-LogInv host self ch l v = elim (Bool-cases (l.woken ch)) [
  | inl e ↦ rw e (
      flush_signals-LogInv host self _
        (record { few_events = v.few_events; small_buffers = v.small_buffers }))
  | inr e ↦ rw e v
]

pub step-LogInv : (host : Host) (c : Call) (l : Lighthouse) → LogInv l → LogInv (step host c l)
unfolding step
step-LogInv host (registers body addr) l v = handle_register-LogInv host body addr l v
step-LogInv host (lists self) l v =
    let s = scan_peers host self l in
    unfold handle_peers in
    note_offline-LogInv host 1 s.expired (record l { nodes = s.nodes })
      (record { few_events = v.few_events; small_buffers = v.small_buffers })
step-LogInv host (connects body) l v = handle_connect-LogInv host body l v
step-LogInv host (reports body) l v = handle_handoff-LogInv host body l v
step-LogInv host (opens self) l v = open-LogInv host self l v
step-LogInv host (wakes self ch) l v = wake-LogInv host self ch l v
step-LogInv host (closes self ch) l v = unfold unsubscribe_signals in ground arith
step-LogInv host watches l v =
    unfold open_stream in
    record {
      few_events = v.few_events;
      small_buffers =
          All-append (λ s. length s.buffer ≤ channel_capacity) l.subs _ v.small_buffers
            (omega arith, tt);
    }
step-LogInv host (shows ch) l v =
    unfold push_snapshot in
    record {
      few_events = v.few_events;
      small_buffers = take_snapshot-small ch l.subs v.small_buffers;
    }
step-LogInv host (leaves ch) l v =
    unfold unsubscribe in
    record { few_events = v.few_events; small_buffers = without-small ch l.subs v.small_buffers }
