-- ===== src/System/Requests.antt =====
-- The requests of cmd/quicchat/mesh.go at the routes of cmd/lighthouse/main.go.
use quicmeshpoc.Common.{Bytes, true, false, Option, some, text, str_eq, contains, ◌≡◌, refl, ◌∙◌}
use quicmeshpoc.Protocol.{RegisterRequest, ConnectRequest}
use quicmeshpoc.Query.{self_target, path_of}
use quicmeshpoc.Query.RoundTrip.{is_literal, path_of-self_target, self_param-self_target}
use quicmeshpoc.Lighthouse.Serve.{registers, lists, connects, reports, opens}
use quicmeshpoc.Lighthouse.Routes.{calls, handled, dispatch, route, route_among, patterns, takes}

module _ (decode_register : Bytes → Option RegisterRequest)
    (decode_connect : Bytes → Option ConnectRequest) where
  dispatch-self_target :
      (path id body addr : Bytes)
      → is_literal path ≡ true
      → contains b'?' path ≡ false
      → is_literal id ≡ true
      → contains b'+' id ≡ false
      → dispatch decode_register decode_connect (text "GET") (self_target path id) body addr
        ≡ handled decode_register decode_connect
            (route_among (text "GET") path patterns)
            (some id)
            body
            addr
  unfolding dispatch route
  dispatch-self_target path id body addr hp hq h k =
      rw (path_of-self_target path id hp hq h, self_param-self_target path id hp hq h k) refl

  handled_self :
      (id body addr : Bytes)
      → let handle = handled decode_register decode_connect in
        (handle (route_among (text "GET") (text "/peers") patterns) (some id) body addr
          ≡ calls (lists id))
        × (handle (route_among (text "GET") (text "/signals/stream") patterns) (some id) body addr
            ≡ calls (opens id))
  unfolding handled route_among patterns takes str_eq text
  handled_self id body addr = (refl, refl)

  dispatched_posts :
      (body addr : Bytes)
      → let ask = dispatch decode_register decode_connect (text "POST") in
        (ask (text "/register") body addr ≡ calls (registers (decode_register body) addr))
        × (ask (text "/connect") body addr ≡ calls (connects (decode_connect body)))
        × (ask (text "/handoff") body addr ≡ calls (reports (decode_connect body)))
  unfolding dispatch handled route route_among patterns takes path_of str_eq text
  dispatched_posts body addr = (refl, refl, refl)

  -- Each request of a client reaches the handler that it is meant for: the roster and the stream of
  -- signals are asked for under the client's own name, if that holds no control byte, no space and
  -- none of `%`, `&`, `;`, `#` and `+`, and the bodies of the other three are decoded by their
  -- handlers.
  pub dispatch_lem :
      (id body addr : Bytes)
      → is_literal id ≡ true
      → contains b'+' id ≡ false
      → let ask = dispatch decode_register decode_connect in
        (ask (text "GET") (self_target (text "/peers") id) body addr ≡ calls (lists id))
        × (ask (text "GET") (self_target (text "/signals/stream") id) body addr ≡ calls (opens id))
        × (ask (text "POST") (text "/register") body addr
            ≡ calls (registers (decode_register body) addr))
        × (ask (text "POST") (text "/connect") body addr ≡ calls (connects (decode_connect body)))
        × (ask (text "POST") (text "/handoff") body addr ≡ calls (reports (decode_connect body)))
  unfolding text
  dispatch_lem id body addr h k =
      let own = handled_self id body addr in
      let posts = dispatched_posts body addr in
      (
        dispatch-self_target (text "/peers") id body addr refl refl h k ∙ own.0,
        dispatch-self_target (text "/signals/stream") id body addr refl refl h k ∙ own.1,
        posts.0,
        posts.1,
        posts.2,
      )
