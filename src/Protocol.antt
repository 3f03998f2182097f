-- ===== src/Protocol.antt =====
-- internal/signal/signal.go: the messages between the clients and the lighthouse.
use quicmeshpoc.Common.{Bytes, List, text}

unfoldable pub alpn_peer : Bytes
unfolding text
alpn_peer = text "quickmesh-chat/1"

pub record RegisterRequest : Type 0 where
  pub node_id : Bytes
  pub local_addrs : List Bytes
  pub incarnation : Bytes

pub record RegisterResponse : Type 0 where
  pub your_addr : Bytes

pub record Peer : Type 0 where
  pub node_id : Bytes
  pub addr : Bytes
  pub local_addrs : List Bytes
  pub incarnation : Bytes

pub record PeersResponse : Type 0 where
  pub peers : List Peer

-- The fields `From` and `To`.
pub record ConnectRequest : Type 0 where
  pub from : Bytes
  pub to : Bytes

pub record Signal : Type 0 where
  pub from_node_id : Bytes
  pub from_addr : Bytes
  pub from_local_addrs : List Bytes
