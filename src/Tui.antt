-- ===== src/Tui.antt =====
-- cmd/quicchat/tui.go: the model of the terminal interface, its messages and keys. What it asks of
-- the Mesh comes out as commands; the text box is a component of another package and enters as an
-- interface. Rendering is in View.
pub mod Rows
pub mod Keys
pub mod Send
pub mod View
pub mod Invariant
use quicmeshpoc.Common.{
  ℕ, zero, suc, ◌+◌, ◌-◌, ◌/◌, Bytes, Bool, true, false, not, ◌&&◌, ◌||◌, List, [], ◌∷◌, ◌++◌,
  Option, none, some, get_or, text, str_eq, str_lt, lookup, insert, Map, length, get_elem?,
  if◌then◌else◌, ltb, leb, ◌==◌, trim_space,
}
use Prim.Native.Nat.{max}
use quicmeshpoc.Protocol.{Peer}
use quicmeshpoc.Mesh.State.{
  ConnState, disconnected, connecting, connected, failed, Msg, peers_msg, state_msg, chat_msg,
  status_msg,
}

pub data FocusArea : Type 0 where
  focus_sidebar focus_input : FocusArea

unfoldable pub broadcast_id : Bytes
unfolding text
broadcast_id = text "*broadcast*"

pub record PeerView : Type 0 where
  pub node_id : Bytes
  pub addr : Bytes
  pub local_addrs : List Bytes
  pub state : ConnState

-- textinput.Model, with `O` for the messages that only it reads.
pub record TextInput (I O : Type 0) : Type 0 where
  pub value : I → Bytes
  pub set_value : Bytes → I → I
  pub set_width : ℕ → I → I
  pub focused : I → I
  pub blurred : I → I
  pub take_key : Bytes → I → I
  pub take_other : O → I → I

-- `node_id` is the name of this node in `mesh`. A cursor is never negative.
pub record Model (I : Type 0) : Type 0 where
  pub node_id : Bytes
  pub peers : List PeerView
  pub states : Map ConnState
  pub chats : Map (List Bytes)
  pub cursor : ℕ
  pub focus : FocusArea
  pub input : I
  pub status : Bytes
  pub width : ℕ
  pub height : ℕ

-- What an update asks for.
pub data Command : Type 0 where
  connect_to : Peer → Command
  send_to : Bytes → Bytes → Command
  send_to_all : Bytes → Command
  quit : Command

pub data UiMsg (O : Type 0) : Type 0 where
  window_size : ℕ → ℕ → UiMsg O
  from_mesh : Msg → UiMsg O
  key : Bytes → UiMsg O
  other : O → UiMsg O

-- m.states[id]
abbrev pub state_of : Bytes → Map ConnState → ConnState
state_of id states = get_or (lookup id states) disconnected

abbrev pub is_connected : ConnState → Bool
is_connected connected = true
is_connected _ = false

abbrev pub is_connecting : ConnState → Bool
is_connecting connecting = true
is_connecting _ = false

-- The row without address and state that stands for all peers.
abbrev pub broadcast_row : PeerView
broadcast_row = record { node_id = broadcast_id; addr = []; local_addrs = []; state = disconnected }

unfoldable pub connected_count : Map ConnState → ℕ
connected_count [] = 0
connected_count ((id, st) ∷ states) =
    let rest = connected_count states in
    if not (str_eq id broadcast_id) && is_connected st then rest + 1 else rest

-- The loop of broadcastState, on `best`.
unfoldable pub aggregate : ConnState → Map ConnState → ConnState
aggregate best [] = best
aggregate best ((id, st) ∷ states) =
    let rest = aggregate best states in
    let amber = aggregate connecting states in
    if str_eq id broadcast_id
    then rest
    else if is_connected st
    then connected
    else if is_connecting st
    then amber
    else rest

unfoldable pub broadcast_state : Map ConnState → ConnState
unfolding aggregate
broadcast_state states = aggregate disconnected states

-- m.chats[id] = append(m.chats[id], line)
unfoldable pub append_line : Bytes → Bytes → Map (List Bytes) → Map (List Bytes)
append_line id line chats = insert id (get_or (lookup id chats) [] ++ line ∷ []) chats

-- The order of sort.Slice; which of two rows with one name comes first is not determined, and the
-- names of a roster are distinct.
unfoldable pub insert_row : PeerView → List PeerView → List PeerView
insert_row v [] = v ∷ []
insert_row v (w ∷ ws) =
    let rest = insert_row v ws in if str_lt w.node_id v.node_id then w ∷ rest else v ∷ w ∷ ws

unfoldable pub sort_rows : List PeerView → List PeerView
unfolding insert_row
sort_rows [] = []
sort_rows (v ∷ vs) = insert_row v (sort_rows vs)

unfoldable pub real_rows : Map ConnState → List Peer → List PeerView
real_rows states [] = []
real_rows states (p ∷ ps) =
    record {
      node_id = p.node_id;
      addr = p.addr;
      local_addrs = p.local_addrs;
      state = state_of p.node_id states;
    }
    ∷ real_rows states ps

-- The body of the loop of applyStates.
abbrev pub stamped : Map ConnState → PeerView → PeerView
stamped states v =
    if str_eq v.node_id broadcast_id then v else record v { state = state_of v.node_id states }

unfoldable pub stamp : Map ConnState → List PeerView → List PeerView
stamp states [] = []
stamp states (v ∷ vs) = stamped states v ∷ stamp states vs

abbrev pub sidebar_width : ℕ → ℕ
sidebar_width width = max 24 (width / 4)

-- A width that Go computes as negative is 0 here, and the maximum is the same.
abbrev pub right_width : ℕ → ℕ
right_width width = max 20 (width - sidebar_width width - 4)

module _ {I : Type 0} where
  unfoldable pub active_peer : Model I → Bytes
  active_peer m = elim (get_elem? m.peers m.cursor) [ none ↦ [] | some v ↦ v.node_id ]

  unfoldable pub merge_peers : List Peer → Model I → Model I
  unfolding sort_rows real_rows
  merge_peers peers m =
      let rows = broadcast_row ∷ sort_rows (real_rows m.states peers) in
      record m {
        peers = rows;
        cursor = if leb (length rows) m.cursor then max 0 (length rows - 1) else m.cursor;
      }

  unfoldable pub apply_states : Model I → Model I
  unfolding stamp
  apply_states m = record m { peers = stamp m.states m.peers }

  -- The case of a stateMsg: connected does not go back to connecting.
  unfoldable pub set_peer_state : Bytes → ConnState → Model I → Model I
  unfolding apply_states
  set_peer_state id st m = apply_states (
      if is_connecting st && is_connected (state_of id m.states)
      then m
      else record m { states = insert id st m.states })

  -- The case of a chatMsg.
  unfoldable pub add_chat : Bytes → Bytes → Bytes → Model I → Model I
  unfolding append_line text
  add_chat id from said m =
      let own = str_eq from m.node_id in
      let prefix = if own then text "me" else from in
      let chats = append_line id (prefix ++ text ": " ++ said) m.chats in
      record m {
        chats =
            if not (str_eq id broadcast_id) && not own
            then append_line broadcast_id (from ++ text ": " ++ said) chats
            else chats;
      }

  unfoldable pub take_msg : Msg → Model I → Model I
  unfolding merge_peers set_peer_state add_chat
  take_msg (peers_msg peers) m = merge_peers peers m
  take_msg (state_msg id st) m = set_peer_state id st m
  take_msg (chat_msg id from said) m = add_chat id from said m
  take_msg (status_msg line) m = record m { status = line }
