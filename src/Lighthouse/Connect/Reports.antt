-- ===== src/Lighthouse/Connect/Reports.antt =====
-- handleHandoff of cmd/lighthouse/main.go.
use quicmeshpoc.Common.{Bytes, none, some, if◌then◌else◌, ◌≡◌, refl, arith, text}
use quicmeshpoc.Protocol.{ConnectRequest}
use quicmeshpoc.Lighthouse.State.{Lighthouse, Host, http_error, no_content}
use quicmeshpoc.Lighthouse.Events.{add_event}
use quicmeshpoc.Lighthouse.Handoffs.Rows.{row, on_pair, same_pair}
use quicmeshpoc.Lighthouse.Handoffs.Unique.{OneRow}
use quicmeshpoc.Lighthouse.Handoffs.Life.{finish, row-complete}
use quicmeshpoc.Lighthouse.Connect.{queued, handle_handoff}
use quicmeshpoc.Lighthouse.Connect.Spec.{named}

-- A report with both names completes the row of its pair, in a table with one row for each pair, at
-- the time of the report unless it was completed before; it changes no other row and no queue,
-- and is answered with no content. A report that does not decode or lacks a name changes nothing
-- and is refused with status 400.
pub handle_handoff_lem :
    (host : Host) (req : ConnectRequest) (l : Lighthouse) (a b k : Bytes)
    → OneRow l.handoffs
    → let out = handle_handoff host (some req) l in
      (row a b out.0.handoffs ≡ (
        if named req
        then on_pair (same_pair req.from req.to a b) (finish (host.now 0)) (row a b l.handoffs)
        else row a b l.handoffs))
      × (queued k out.0 ≡ queued k l)
      × (out.1 ≡ (if named req then no_content else http_error 400 (text "bad handoff report")))
      × (handle_handoff host none l ≡ (l, http_error 400 (text "bad handoff report")))
unfolding handle_handoff add_event
handle_handoff_lem host req l a b k u = (
  ground (arith, row-complete (host.now 0) req.from req.to a b l.handoffs u),
  ground arith,
  ground arith,
  refl,
)
