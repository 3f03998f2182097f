-- ===== src/Lighthouse/Serve.antt =====
-- The routes of cmd/lighthouse/main.go and the rounds of the two streams, as one transition of the
-- server. A handler runs here without another between its critical sections.
pub mod Queue
pub mod Log
pub mod Tables
pub mod Invariant
use quicmeshpoc.Common.{
  ℕ, Bytes, Bool, List, [], ◌∷◌, Option, none, some, str_eq, ◌≡◌, refl, if◌then◌else◌, text,
}
use quicmeshpoc.Protocol.{RegisterRequest, ConnectRequest, Signal}
use quicmeshpoc.Lighthouse.State.{Lighthouse, Host, Reply, http_error, json, no_content}
use quicmeshpoc.Lighthouse.Events.{open_stream, push_snapshot, unsubscribe}
use quicmeshpoc.Lighthouse.Register.{handle_register}
use quicmeshpoc.Lighthouse.Peers.{handle_peers}
use quicmeshpoc.Lighthouse.Connect.{handle_connect, handle_handoff}
use quicmeshpoc.Lighthouse.Signals.{open_signals, wake_signals, unsubscribe_signals}

-- The requests that clients and browsers make, and the rounds that their open streams take:
-- `opens`, `wakes` and `closes` are of a signal stream, `watches`, `shows` and `leaves` of a
-- dashboard stream.
pub data Call : Type 0 where
  registers : Option RegisterRequest → Bytes → Call
  lists : Bytes → Call
  connects reports : Option ConnectRequest → Call
  opens : Bytes → Call
  wakes closes : Bytes → ℕ → Call
  watches : Call
  shows leaves : ℕ → Call

-- GET /signals/stream up to its loop: an empty name is refused.
unfoldable pub handle_signals_stream :
    Host → Bytes → Lighthouse → Lighthouse × Reply (ℕ × List Signal)
handle_signals_stream host self l =
    if str_eq self []
    then (l, http_error 400 (text "missing ?self="))
    else (let (l', ch, sent) = open_signals host self l in (l', json (ch, sent)))

unfoldable pub step : Host → Call → Lighthouse → Lighthouse
step host (registers body addr) l = (handle_register host body addr l).0
step host (lists self) l = (handle_peers host self l).0
step host (connects body) l = (handle_connect host body l).0
step host (reports body) l = (handle_handoff host body l).0
step host (opens self) l = (handle_signals_stream host self l).0
step host (wakes self ch) l = (wake_signals host self ch l).0
step host (closes self ch) l = unsubscribe_signals self ch l
step host watches l = (open_stream host l).0
step host (shows ch) l = (push_snapshot ch l).0
step host (leaves ch) l = unsubscribe ch l

abbrev pub History : Type 0
History = List (Host × Call)

unfoldable pub run : Lighthouse → History → Lighthouse
run l [] = l
run l ((host, c) ∷ h) = run (step host c l) h
