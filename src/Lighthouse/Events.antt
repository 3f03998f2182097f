-- ===== src/Lighthouse/Events.antt =====
-- The activity log and the push to browsers: `appendCapped`, `addEvent`, `broadcast`, `subscribe`,
-- `unsubscribe` and the stream of cmd/lighthouse/dashboard.go.
use quicmeshpoc.Common.{
  ℕ, Bytes, List, [], ◌∷◌, ◌++◌, Option, none, some, ◌==◌, ltb, length, drop, text, ◌+◌, ◌-◌,
  if◌then◌else◌,
}
use quicmeshpoc.Sse.{write_sse}
use quicmeshpoc.Lighthouse.State.{max_events, Subscriber, Lighthouse, Host}
use quicmeshpoc.Lighthouse.Html.{snapshot_html}

-- The slice with `v` behind it, trimmed to its newest `max` entries.
unfoldable pub append_capped {ℓ} : {A : Type ℓ} → List A → A → ℕ → List A
append_capped s v max =
    let s' = s ++ v ∷ [] in if ltb max (length s') then drop (length s' - max) s' else s'

-- make(chan string, 4)
abbrev pub channel_capacity : ℕ
channel_capacity = 4

-- A send that does not block: a full buffer drops the snapshot.
unfoldable pub offer : Bytes → Subscriber → Subscriber
offer html sub =
    if ltb (length sub.buffer) channel_capacity
    then record sub { buffer = sub.buffer ++ html ∷ [] }
    else sub

-- Each subscriber is offered the snapshot once; the order of the offers changes nothing, since
-- each is to a channel of its own.
unfoldable pub offer_all : Bytes → List Subscriber → List Subscriber
unfolding offer
offer_all html [] = []
offer_all html (s ∷ ss) = offer html s ∷ offer_all html ss

unfoldable pub broadcast : Host → ℕ → Lighthouse → Lighthouse
unfolding offer_all
broadcast host i l = record l { subs = offer_all (snapshot_html host i l) l.subs }

-- `i` is the first of the two readings of the clock.
unfoldable pub add_event : Host → ℕ → Bytes → Bytes → Lighthouse → Lighthouse
unfolding append_capped broadcast
add_event host i kind msg l = broadcast host (i + 1) (record l {
  events = append_capped l.events (record { at = host.now i; kind = kind; msg = msg }) max_events;
})

unfoldable pub subscribe : Lighthouse → Lighthouse × ℕ
subscribe l = (
  record l {
    subs = l.subs ++ record { channel = l.next_channel; buffer = [] } ∷ [];
    next_channel = l.next_channel + 1;
  },
  l.next_channel,
)

unfoldable pub without : ℕ → List Subscriber → List Subscriber
without ch [] = []
without ch (s ∷ ss) = let rest = without ch ss in if s.channel == ch then rest else s ∷ rest

unfoldable pub unsubscribe : ℕ → Lighthouse → Lighthouse
unfolding without
unsubscribe ch l = record l { subs = without ch l.subs }

-- handleStream up to its loop: the subscription, its channel, and what is written to the browser.
unfoldable pub open_stream : Host → Lighthouse → Lighthouse × ℕ × Bytes
unfolding subscribe
open_stream host l =
    let (l', ch) = subscribe l in (l', ch, write_sse (text "update") (snapshot_html host 0 l') [])

-- A receive from the subscriber's channel; an empty one is not ready.
unfoldable pub receive : Subscriber → List Bytes → Subscriber × Option Bytes
receive s [] = (s, none)
receive s (html ∷ rest) = (record s { buffer = rest }, some html)

-- `case htmlSnapshot := <-ch`: the oldest buffered snapshot is taken.
unfoldable pub take_snapshot : ℕ → List Subscriber → List Subscriber × Option Bytes
unfolding receive
take_snapshot ch [] = ([], none)
take_snapshot ch (s ∷ ss) =
    let (ss', html) = take_snapshot ch ss in
    let (s', own) = receive s s.buffer in
    if s.channel == ch then (s' ∷ ss, own) else (s ∷ ss', html)

-- One round of the loop in handleStream that is not its end: a snapshot if one is there.
unfoldable pub push_snapshot : ℕ → Lighthouse → Lighthouse × Option Bytes
unfolding take_snapshot
push_snapshot ch l =
    let (subs, html) = take_snapshot ch l.subs in
    (
      record l { subs = subs },
      elim html [ none ↦ none | some h ↦ some (write_sse (text "update") h []) ],
    )
