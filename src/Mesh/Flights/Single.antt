-- ===== src/Mesh/Flights/Single.antt =====
-- The dials of a peer at one time.
use quicmeshpoc.Common.{
  ℕ, zero, suc, ◌+◌, Bytes, List, [], ◌∷◌, Option, none, some, lookup, lookup-delete, str_eq,
  str_eq_iff, str_eq_refl, if◌then◌else◌, ◌≡◌, refl, ap, arith,
}
use quicmeshpoc.Protocol.{Peer}
use quicmeshpoc.Mesh.State.{Mesh, Step}
use quicmeshpoc.Mesh.Links.{
  connect, add_conn, remove_conn, poll, respond_to_punch, close, end_reader,
}
use quicmeshpoc.Mesh.Inbound.{handle_inbound}
use quicmeshpoc.Mesh.Chat.{send_chat, send_broadcast}
use quicmeshpoc.Mesh.Flights.{
  Client, spawned, Slice, polls, connects, punched, accepts, ends, says, broadcasts, closes, adds,
  lands, started_by, add_flight, without_nth, land, flight_at, slice, slices,
}
use quicmeshpoc.Mesh.Flights.Even.{
  count, mark, count-append, Even, quiet, connect-Even, poll-Even, handle_inbound-Even,
  chat_over-Even, broadcast_to-Even, respond_to_punch-Even, count-closings,
}

-- Each mark has one goroutine.
abbrev pub Single : Mesh → List Peer → Type 0
Single m fs = (k : Bytes) → count k fs ≡ mark k m

started_by-Single :
    (m : Mesh) (s : Step) (fs : List Peer)
    → Even m s
    → Single m fs
    → Single (started_by s fs).mesh (started_by s fs).flights
started_by-Single m s fs e h k = omega (arith, e k, h k, count-append k fs (spawned s.1))

count-flight_at :
    (k : Bytes) (i : ℕ) (ps : List Peer) (p : Peer)
    → flight_at i ps ≡ some p
    → count k ps ≡ (if str_eq p.node_id k then 1 else 0) + count k (without_nth i ps)
count-flight_at k i [] p e = ground (arith, e)
count-flight_at k zero (q ∷ ps) p e =
    ap
      (λ (o : Option Peer). elim o [
        | none ↦ 0
        | some r ↦ (if str_eq r.node_id k then 1 else 0) + count k ps
      ])
      e
count-flight_at k (suc i) (q ∷ ps) p e = omega (arith, count-flight_at k i ps p e)

land-Single :
    (o : Option Peer) (i : ℕ) (c : Client)
    → flight_at i c.flights ≡ o
    → Single c.mesh c.flights
    → Single (land o i c).mesh (land o i c).flights
land-Single none i c e h k = h k
land-Single (some p) i c e h k = ground (
  arith,
  h k,
  h p.node_id,
  count-flight_at k i c.flights p e,
  count-flight_at p.node_id i c.flights p e,
  lookup-delete p.node_id k c.mesh.dialing,
  str_eq_iff p.node_id k,
  str_eq_refl p.node_id,
)

add_flight-Single :
    (o : Option Peer) (conn : ℕ) (c : Client)
    → Single c.mesh c.flights
    → Single (add_flight o conn c).mesh (add_flight o conn c).flights
unfolding add_conn
add_flight-Single none conn c h = h
add_flight-Single (some p) conn c h = h

slice-Single :
    (t : Slice) (c : Client) → Single c.mesh c.flights → Single (slice t c).mesh (slice t c).flights
unfolding slice
slice-Single (polls peers) c h =
    started_by-Single c.mesh (poll peers c.mesh) c.flights (poll-Even peers c.mesh) h
slice-Single (connects p) c h =
    started_by-Single c.mesh (connect p c.mesh) c.flights (connect-Even p c.mesh) h
slice-Single (punched resolves s) c h =
    started_by-Single c.mesh (respond_to_punch resolves s c.mesh) c.flights
      (respond_to_punch-Even resolves s c.mesh) h
slice-Single (accepts conn remote line) c h =
    started_by-Single c.mesh (handle_inbound conn remote line c.mesh) c.flights
      (handle_inbound-Even conn remote line c.mesh) h
slice-Single (ends id err) c h =
    started_by-Single c.mesh (end_reader id err c.mesh) c.flights
      (unfold end_reader remove_conn in quiet c.mesh) h
slice-Single (says id said write) c h =
    started_by-Single c.mesh (send_chat id said write c.mesh) c.flights
      (unfold send_chat in chat_over-Even (lookup id c.mesh.conns) id said write c.mesh) h
slice-Single (broadcasts said write) c h =
    started_by-Single c.mesh (send_broadcast said write c.mesh) c.flights
      (unfold send_broadcast in broadcast_to-Even c.mesh.conns said write c.mesh) h
slice-Single closes c h =
    started_by-Single c.mesh (close c.mesh) c.flights
      (unfold close in λ k. omega (arith, count-closings k c.mesh.conns)) h
slice-Single (adds i conn) c h = add_flight-Single (flight_at i c.flights) conn c h
slice-Single (lands i) c h = land-Single (flight_at i c.flights) i c refl h

-- Whatever a client's goroutines, its peers and its user do, and however their steps interleave, a
-- node is marked as being dialed exactly while a goroutine dials it, and it is one goroutine: no
-- node is dialed twice at a time, and no mark outlives its dial.
pub slices-Single :
    (ts : List Slice) (c : Client)
    → Single c.mesh c.flights
    → Single (slices ts c).mesh (slices ts c).flights
unfolding slices
slices-Single [] c h = h
slices-Single (t ∷ ts) c h = slices-Single ts (slice t c) (slice-Single t c h)
