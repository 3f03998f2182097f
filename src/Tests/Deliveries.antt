-- ===== src/Tests/Deliveries.antt =====
-- The handlers that hold a response open, with requests and heartbeats in between.
use quicmeshpoc.Common.{
  true, some, List, [], ◌∷◌, ◌++◌, lookup, insert, str_eq, delete, ◌≡◌, refl, arith, find_last,
}
use quicmeshpoc.Lighthouse.Connect.{queued, signal_of, handle_connect}
use quicmeshpoc.Lighthouse.Events.{add_event}
use quicmeshpoc.Lighthouse.Handoffs.{find_handoff, arm}
use quicmeshpoc.Lighthouse.Signals.{note_punching, wake_signals, open_signals}
use quicmeshpoc.Lighthouse.Serve.{connects, handle_signals_stream, step}
use quicmeshpoc.Lighthouse.Serve.Queue.{accepted, all_accepted}
use quicmeshpoc.Lighthouse.Streams.{
  Event, meanwhile, receives, beats, signals_loop, serve_signals_stream,
}
use quicmeshpoc.Lighthouse.Streams.History.{signals_life}
use quicmeshpoc.Sse.{stream_signals}
use quicmeshpoc.System.Delivery.{delivered}
use quicmeshpoc.System.Delivery.Writes.{body_of}
use quicmeshpoc.Tests.Data.{ann, bob, cyd, host, entry, busy, bob_to_ann}
use quicmeshpoc.Tests.Systems.{initials}

abbrev asked_later : List Event
asked_later = beats ∷ meanwhile host (connects (some bob_to_ann)) ∷ receives host ∷ beats ∷ []

delivered_example :
    stream_signals initials.unmarshal
      (body_of (serve_signals_stream initials.marshal host ann true asked_later busy).1)
    ≡ queued ann busy ++ all_accepted ann busy (signals_life host ann asked_later busy)
unfolding str_eq lookup all_accepted accepted step handle_signals_stream open_signals insert delete
    signal_of serve_signals_stream signals_loop handle_connect wake_signals note_punching add_event
    find_handoff arm find_last
delivered_example =
    delivered initials host ann asked_later busy (λ e. cc) (tt, (refl, (tt, (tt, tt))))
      ((refl, omega arith), ((refl, omega arith), tt)) refl

-- Both requests are read, the one from before the stream first.
delivered_run :
    stream_signals initials.unmarshal
      (body_of (serve_signals_stream initials.marshal host ann true asked_later busy).1)
    ≡ signal_of cyd (entry cyd 0) ∷ signal_of bob (entry bob 0) ∷ []
unfolding str_eq lookup all_accepted accepted step handle_signals_stream open_signals insert delete
    signal_of handle_connect add_event find_handoff arm find_last
delivered_run = delivered_example
