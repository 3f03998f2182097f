-- ===== src/Lighthouse/Routes.antt =====
-- The patterns that main of cmd/lighthouse/main.go registers with http.ServeMux, and handleIndex of
-- cmd/lighthouse/dashboard.go.
use quicmeshpoc.Common.{
  Bytes, Bool, ◌&&◌, ◌||◌, List, [], ◌∷◌, Option, none, some, text, str_eq, if◌then◌else◌,
}
use quicmeshpoc.Protocol.{RegisterRequest, ConnectRequest}
use quicmeshpoc.Query.{path_of, self_param}
use quicmeshpoc.Lighthouse.Serve.{Call, registers, lists, connects, reports, opens, watches}

pub data Route : Type 0 where
  to_register to_peers to_connect to_signals to_handoff : Route
  to_index to_stream : Route

pub record Pattern : Type 0 where
  pub method : Bytes
  pub path : Bytes
  pub handler : Route

unfoldable pub patterns : List Pattern
unfolding text
patterns =
    record { method = text "POST"; path = text "/register"; handler = to_register }
    ∷ record { method = text "GET"; path = text "/peers"; handler = to_peers }
    ∷ record { method = text "POST"; path = text "/connect"; handler = to_connect }
    ∷ record { method = text "GET"; path = text "/signals/stream"; handler = to_signals }
    ∷ record { method = text "POST"; path = text "/handoff"; handler = to_handoff }
    ∷ record { method = text "GET"; path = text "/events/stream"; handler = to_stream }
    ∷ []

-- A pattern for GET also takes HEAD.
unfoldable pub takes : Bytes → Bytes → Bool
unfolding str_eq text
takes pattern method =
    str_eq pattern method || (str_eq pattern (text "GET") && str_eq method (text "HEAD"))

-- The pattern `GET /`, which takes every path, comes behind all others; `none` is an answer with
-- status 405.
unfoldable pub route_among : Bytes → Bytes → List Pattern → Option Route
unfolding takes text
route_among method path [] = if takes (text "GET") method then some to_index else none
route_among method path (p ∷ ps) =
    let rest = route_among method path ps in
    if takes p.method method && str_eq p.path path then some p.handler else rest

unfoldable pub route : Bytes → Bytes → Option Route
unfolding route_among patterns path_of
route method target = route_among method (path_of target) patterns

-- What becomes of a request: a call of a handler, the static page, or a refusal, which changes
-- nothing.
pub data Dispatched : Type 0 where
  calls : Call → Dispatched
  page refused : Dispatched

module _ (decode_register : Bytes → Option RegisterRequest)
    (decode_connect : Bytes → Option ConnectRequest) where
  -- `self` is none for a target that no client can send.
  unfoldable pub handled : Option Route → Option Bytes → Bytes → Bytes → Dispatched
  handled none self body addr = refused
  handled (some to_register) self body addr = calls (registers (decode_register body) addr)
  handled (some to_peers) none body addr = refused
  handled (some to_peers) (some self) body addr = calls (lists self)
  handled (some to_connect) self body addr = calls (connects (decode_connect body))
  handled (some to_signals) none body addr = refused
  handled (some to_signals) (some self) body addr = calls (opens self)
  handled (some to_handoff) self body addr = calls (reports (decode_connect body))
  handled (some to_index) self body addr = page
  handled (some to_stream) self body addr = calls watches

  -- By method, target, body and observed address.
  unfoldable pub dispatch : Bytes → Bytes → Bytes → Bytes → Dispatched
  unfolding handled route self_param
  dispatch method target body addr = handled (route method target) (self_param target) body addr
