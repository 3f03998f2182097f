-- ===== src/System/Punch.antt =====
-- From the initiator's request to the responder's packets: handleConnect and flushSignals of
-- cmd/lighthouse/main.go, writeSSE of cmd/lighthouse/dashboard.go, and streamSignals with
-- respondToPunch of cmd/quicchat/mesh.go.
use quicmeshpoc.Common.{
  Bytes, Bool, true, false, not, ◌&&◌, ◌||◌, List, [], ◌∷◌, ◌++◌, Option, none, some, str_eq,
  str_eq_iff, str_eq_refl, lookup, member, All, ◌≡◌, ◌≢◌, refl, arith, ap, ◌∙◌,
}
use quicmeshpoc.Protocol.{ConnectRequest, Signal}
use quicmeshpoc.Lighthouse.State.{Registration, Lighthouse, Host}
use quicmeshpoc.Lighthouse.Connect.{queued, signal_of, handle_connect}
use quicmeshpoc.Lighthouse.Connect.Spec.{named, handle_connect_lem}
use quicmeshpoc.Lighthouse.Signals.{flush_signals}
use quicmeshpoc.Lighthouse.Signals.Spec.{flush_signals_lem}
use quicmeshpoc.Sse.{stream_signals}
use quicmeshpoc.Sse.RoundTrip.{
  Codec, Write, event, written, events, IsSendable, stream_signals-written,
}
use quicmeshpoc.Mesh.State.{
  Mesh, Effect, emit, close_conn, spawn_dial, punch, report_handoff, write_to,
}
use quicmeshpoc.Mesh.Candidates.{dedupe_candidates, dedupe_candidates_lem}
use quicmeshpoc.Mesh.Links.{respond_to_punch, punches, resolved}
use quicmeshpoc.Mesh.Listen.{respond_all, listen, answer}

-- Whether the packets to an address are among the effects.
abbrev pub has_punch : Bytes → List Effect → Bool
has_punch a [] = false
has_punch a (punch c ∷ fx) = str_eq a c || has_punch a fx
has_punch a (_ ∷ fx) = has_punch a fx

has_punch-append :
    (a : Bytes) (fx gx : List Effect) → has_punch a (fx ++ gx) ≡ (has_punch a fx || has_punch a gx)
has_punch-append a [] gx = refl
has_punch-append a (punch c ∷ fx) gx = ground (arith, has_punch-append a fx gx)
has_punch-append a (emit e ∷ fx) gx = has_punch-append a fx gx
has_punch-append a (close_conn c s ∷ fx) gx = has_punch-append a fx gx
has_punch-append a (spawn_dial p ∷ fx) gx = has_punch-append a fx gx
has_punch-append a (report_handoff id ∷ fx) gx = has_punch-append a fx gx
has_punch-append a (write_to c s ∷ fx) gx = has_punch-append a fx gx

has_punch-punches : (a : Bytes) (cs : List Bytes) → has_punch a (punches cs) ≡ member a cs
unfolding member
has_punch-punches a [] = refl
has_punch-punches a (c ∷ cs) = ground (arith, has_punch-punches a cs)

member-resolved :
    (resolves : Bytes → Bool) (a : Bytes) (cs : List Bytes)
    → resolves a ≡ true
    → member a (resolved resolves cs) ≡ member a cs
unfolding member resolved
member-resolved resolves a [] h = refl
member-resolved resolves a (c ∷ cs) h =
    ground (arith, member-resolved resolves a cs, str_eq_iff a c, h)

-- A responder without a link to the initiator punches toward each candidate that is an address.
has_punch-respond_to_punch :
    (resolves : Bytes → Bool) (s : Signal) (m : Mesh) (a : Bytes)
    → lookup s.from_node_id m.conns ≡ none
    → resolves a ≡ true
    → has_punch a (respond_to_punch resolves s m).1
      ≡ (member a (s.from_addr ∷ s.from_local_addrs) && not (str_eq a []))
unfolding respond_to_punch
has_punch-respond_to_punch resolves s m a e h =
    let cands = dedupe_candidates s.from_addr s.from_local_addrs in
    rw e (
      has_punch-punches a (resolved resolves cands)
      ∙ member-resolved resolves a cands h
      ∙ (dedupe_candidates_lem s.from_addr s.from_local_addrs a).0)

has_punch-signal_of :
    (resolves : Bytes → Bool) (from : Bytes) (reg : Registration) (m : Mesh) (a : Bytes)
    → lookup from m.conns ≡ none
    → resolves a ≡ true
    → has_punch a (respond_to_punch resolves (signal_of from reg) m).1
      ≡ (member a (reg.addr ∷ reg.local_addrs) && not (str_eq a []))
unfolding signal_of
has_punch-signal_of resolves from reg m a e h =
    has_punch-respond_to_punch resolves (signal_of from reg) m a e h

has_punch-respond_all :
    (resolves : Bytes → Bool) (ss : List Signal) (s : Signal) (m : Mesh) (a : Bytes)
    → has_punch a (respond_to_punch resolves s m).1 ≡ true
    → has_punch a (respond_all resolves (ss ++ s ∷ []) m) ≡ true
unfolding respond_all
has_punch-respond_all resolves [] s m a h =
    ground (arith, has_punch-append a (respond_to_punch resolves s m).1 [], h)
has_punch-respond_all resolves (r ∷ ss) s m a h = ground (
  arith,
  has_punch-append a (respond_to_punch resolves r m).1 (respond_all resolves (ss ++ s ∷ []) m),
  has_punch-respond_all resolves ss s m a h,
)

-- Each signal as an event of its own.
abbrev pub as_events : List Signal → List (Write Signal)
as_events [] = []
as_events (s ∷ ss) = event s ∷ as_events ss

events-as_events : (ss : List Signal) → events (as_events ss) ≡ ss
unfolding events
events-as_events [] = refl
events-as_events (s ∷ ss) = ap (◌∷◌ s) (events-as_events ss)

-- What the responder reads of what the lighthouse flushes to it after a request.
abbrev pub flushed_after : Codec Signal → Host → Host → ConnectRequest → Lighthouse → Bytes
flushed_after codec host host' req l =
    written codec (as_events (flush_signals host' req.to (handle_connect host (some req) l).0).1)

module _ (codec : Codec Signal) (host host' : Host) (req : ConnectRequest) (l : Lighthouse) where
  -- The signals that the responder's client acts on.
  read_back :
      (reg : Registration)
      → named req ≡ true
      → lookup req.from l.nodes ≡ some reg
      → All (IsSendable codec) (as_events (queued req.to l ++ signal_of req.from reg ∷ []))
      → stream_signals codec.unmarshal (flushed_after codec host host' req l)
        ≡ queued req.to l ++ signal_of req.from reg ∷ []
  unfolding signal_of
  read_back reg h e fits =
      let asked = (handle_connect_lem host req reg l req.to h e).0 in
      let sent : (flush_signals host' req.to (handle_connect host (some req) l).0).1
          ≡ queued req.to l ++ signal_of req.from reg ∷ [] =
        (flush_signals_lem host' req.to req.to [] (handle_connect host (some req) l).0).0
        ∙ asked
        ∙ ground (arith, str_eq_refl req.to) in
      rw sent (
        stream_signals-written codec (as_events (queued req.to l ++ signal_of req.from reg ∷ []))
          fits
        ∙ events-as_events (queued req.to l ++ signal_of req.from reg ∷ []))

  -- After a request that names both nodes, of a registered initiator, the responder's next flush makes
  -- the responder's client, if it has no link to the initiator yet, punch toward every address that
  -- the initiator is registered with, its public one and those of its LAN, if the text of the
  -- address is not empty and resolves, and if the signals decode from their encoding and fit in the
  -- client's buffer.
  pub has_punch-listen :
      (reg : Registration) (resolves : Bytes → Bool) (ending : Option Bytes) (line a : Bytes)
      (m : Mesh)
      → named req ≡ true
      → lookup req.from l.nodes ≡ some reg
      → All (IsSendable codec) (as_events (queued req.to l ++ signal_of req.from reg ∷ []))
      → lookup req.from m.conns ≡ none
      → resolves a ≡ true
      → member a (reg.addr ∷ reg.local_addrs) ≡ true
      → a ≢ []
      → has_punch a
          (listen resolves codec.unmarshal ending
            (answer 200 line (flushed_after codec host host' req l))
            m).0
        ≡ true
  unfolding listen
  has_punch-listen reg resolves ending line a m h e fits free r mem given =
      rw (read_back reg h e fits) (
        has_punch-respond_all resolves (queued req.to l) (signal_of req.from reg) m a (
          has_punch-signal_of resolves req.from reg m a free r
          ∙ ground (arith, mem, str_eq_iff a [], given)))
