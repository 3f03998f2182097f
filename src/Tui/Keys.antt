-- ===== src/Tui/Keys.antt =====
-- handleKey, Update and newModel of cmd/quicchat/tui.go.
use quicmeshpoc.Common.{
  ◌+◌, ◌-◌, Bytes, not, ◌&&◌, ◌||◌, List, [], ◌∷◌, ◌++◌, none, some, text, str_eq, length,
  get_elem?, if◌then◌else◌, ltb, ◌==◌, trim_space, Map,
}
use quicmeshpoc.Protocol.{Peer}
use quicmeshpoc.Mesh.State.{ConnState}
use quicmeshpoc.Tui.{
  FocusArea, focus_sidebar, focus_input, broadcast_id, broadcast_row, PeerView, TextInput, Model,
  Command, connect_to, send_to, send_to_all, quit, UiMsg, window_size, from_mesh, key, other,
  state_of, is_connected, is_connecting, connected_count, active_peer, append_line, take_msg,
  right_width,
}

-- The peer that Connect is called with.
abbrev pub peer_of : PeerView → Peer
peer_of v = record {
  node_id = v.node_id;
  addr = v.addr;
  local_addrs = v.local_addrs;
  incarnation = [];
}

-- The loop of "connect all".
unfoldable pub connect_all : Map ConnState → List PeerView → List Command
connect_all states [] = []
connect_all states (v ∷ vs) =
    let rest = connect_all states vs in
    let st = state_of v.node_id states in
    if str_eq v.node_id broadcast_id
    then rest
    else if not (is_connected st) && not (is_connecting st)
    then connect_to (peer_of v) ∷ rest
    else rest

module _ {I O : Type 0} (box : TextInput I O) where
  unfoldable pub new_model : Bytes → I → Model I
  unfolding text
  new_model node_id input = record {
    node_id = node_id;
    peers = broadcast_row ∷ [];
    states = [];
    chats = [];
    cursor = 0;
    focus = focus_sidebar;
    input = input;
    status = text "starting up… (Tab switches panels, ↑/↓ pick a peer, Enter connects)";
    width = 0;
    height = 0;
  }

  unfoldable pub toggle : FocusArea → Model I → Model I
  toggle focus_sidebar m = record m { focus = focus_input; input = box.focused m.input }
  toggle focus_input m = record m { focus = focus_sidebar; input = box.blurred m.input }

  -- "enter" in the sidebar.
  unfoldable pub sidebar_enter : Model I → List Command
  unfolding connect_all active_peer
  sidebar_enter m =
      let p = active_peer m in
      if str_eq p broadcast_id
      then connect_all m.states m.peers
      else if not (str_eq p [])
      then elim (get_elem? m.peers m.cursor) [ none ↦ [] | some v ↦ connect_to (peer_of v) ∷ [] ]
      else []

  unfoldable pub sidebar_key : Bytes → Model I → Model I × List Command
  unfolding sidebar_enter text
  sidebar_key k m =
      if str_eq k (text "up") || str_eq k (text "k")
      then (if ltb 0 m.cursor then record m { cursor = m.cursor - 1 } else m, [])
      else if str_eq k (text "down") || str_eq k (text "j")
      then (if ltb m.cursor (length m.peers - 1) then record m { cursor = m.cursor + 1 } else m, [])
      else if str_eq k (text "enter")
      then (m, sidebar_enter m)
      else (m, [])

  -- "enter" in the text box.
  unfoldable pub input_enter : Model I → Model I × List Command
  unfolding active_peer connected_count append_line trim_space text
  input_enter m =
      let said = trim_space (box.value m.input) in
      let peer = active_peer m in
      if str_eq said []
      then (m, [])
      else if str_eq peer broadcast_id
      then if connected_count m.states == 0
        then (record m { status = text "no peers connected — broadcast has nobody to reach" }, [])
        else (
          record m {
            chats = append_line broadcast_id (text "me: " ++ said) m.chats;
            input = box.set_value [] m.input;
          },
          send_to_all said ∷ [],
        )
      else if str_eq peer [] || not (is_connected (state_of peer m.states))
      then (
        record m {
          status =
              text "not connected to "
              ++ peer
              ++ text " — pick it in the sidebar and press Enter to connect";
        },
        [],
      )
      else (
        record m {
          chats = append_line peer (text "me: " ++ said) m.chats;
          input = box.set_value [] m.input;
        },
        send_to peer said ∷ [],
      )

  unfoldable pub panel_key : FocusArea → Bytes → Model I → Model I × List Command
  unfolding sidebar_key input_enter text
  panel_key focus_sidebar k m = sidebar_key k m
  panel_key focus_input k m =
      if str_eq k (text "enter")
      then input_enter m
      else (record m { input = box.take_key k m.input }, [])

  unfoldable pub handle_key : Bytes → Model I → Model I × List Command
  unfolding toggle panel_key text
  handle_key k m =
      if str_eq k (text "ctrl+c")
      then (m, quit ∷ [])
      else if str_eq k (text "tab")
      then (toggle m.focus m, [])
      else panel_key m.focus k m

  unfoldable pub update : UiMsg O → Model I → Model I × List Command
  unfolding take_msg handle_key
  update (window_size w h) m =
      (record m { width = w; height = h; input = box.set_width (right_width w - 6) m.input }, [])
  update (from_mesh msg) m = (take_msg msg m, [])
  update (key k) m = handle_key k m
  update (other o) m = (record m { input = box.take_other o m.input }, [])
