-- ===== src/Tui/View.antt =====
-- View of cmd/quicchat/tui.go. The styles of lipgloss and the rendered text box enter as an
-- interface, and every rendered text is a list of bytes.
pub mod Visible
use quicmeshpoc.Common.{
  ℕ, zero, suc, ◌+◌, ◌-◌, Bytes, Bool, true, false, not, List, [], ◌∷◌, ◌++◌, get_or, text, decimal,
  str_eq, lookup, length, drop, if◌then◌else◌, ltb, leb, ◌==◌, ◌&&◌, ℤ, sub_ℕ,
}
use quicmeshpoc.Mesh.State.{ConnState, disconnected, connecting, connected, failed}
use quicmeshpoc.Tui.{
  FocusArea, focus_sidebar, focus_input, broadcast_id, PeerView, Model, connected_count,
  broadcast_state, active_peer, sidebar_width, right_width,
}

-- `foreground` gives a text the colour of a number; `frame` draws a border in such a colour around
-- a text, with a width and, unless it is left to the text, a height.
pub record Lipgloss (I : Type 0) : Type 0 where
  pub foreground : Bytes → Bytes → Bytes
  pub selected : Bytes → Bytes
  pub bold : Bytes → Bytes
  pub frame : ℕ → ℤ → Bytes → Bytes → Bytes
  pub frame_of_text : ℕ → Bytes → Bytes → Bytes
  pub join_vertical : List Bytes → Bytes
  pub join_horizontal : List Bytes → Bytes
  pub input_view : I → Bytes

unfoldable pub dim_color : Bytes
unfolding text
dim_color = text "240"

unfoldable pub focus_color : Bytes
unfolding text
focus_color = text "205"

unfoldable pub border_color : Bool → Bytes
unfolding dim_color focus_color
border_color focused = if focused then focus_color else dim_color

abbrev pub is_sidebar : FocusArea → Bool
is_sidebar focus_sidebar = true
is_sidebar focus_input = false

-- strings.Join(lines, "\n")
unfoldable pub join_lines : List Bytes → Bytes
join_lines [] = []
join_lines (l ∷ []) = l
join_lines (l ∷ l' ∷ ls) = l ++ (b'\n' ∷ join_lines (l' ∷ ls))

-- The lines of a chat that fit into a window of this height: of `height - 8` lines, if that is
-- positive.
unfoldable pub visible_lines : ℕ → List Bytes → List Bytes
visible_lines height lines =
    let visible = height - 8 in
    if ltb visible (length lines) && ltb 0 visible
    then drop (length lines - visible) lines
    else lines

module _ {I : Type 0} (style : Lipgloss I) where
  unfoldable pub state_dot : ConnState → Bytes
  unfolding dim_color text
  state_dot connected = style.foreground (text "42") (text "●")
  state_dot connecting = style.foreground (text "214") (text "◐")
  state_dot failed = style.foreground (text "196") (text "✗")
  state_dot disconnected = style.foreground dim_color (text "○")

  unfoldable pub row_label : Model I → PeerView → Bytes
  unfolding state_dot broadcast_state connected_count decimal text
  row_label m p =
      if str_eq p.node_id broadcast_id
      then state_dot (broadcast_state m.states)
        ++ (text " 📢 broadcast (" ++ (decimal (connected_count m.states) ++ text ")"))
      else state_dot p.state ++ (text " " ++ p.node_id)

  -- The loop over the rows, from row `i` on.
  unfoldable pub row_lines : Model I → ℕ → List PeerView → Bytes
  unfolding row_label text
  row_lines m i [] = []
  row_lines m i (p ∷ ps) =
      (if i == m.cursor
        then style.selected (text "▸ " ++ row_label m p)
        else text "  " ++ row_label m p)
      ++ (b'\n' ∷ row_lines m (suc i) ps)

  unfoldable pub sidebar_text : Model I → Bytes
  unfolding row_lines dim_color text
  sidebar_text m =
      text "PEERS\n\n"
      ++ (row_lines m 0 m.peers
          ++ (if leb (length m.peers) 1
              then style.foreground dim_color (text "\n(waiting for peers…)")
              else []))

  unfoldable pub chat_header : Model I → Bytes → Bytes
  unfolding connected_count decimal text
  chat_header m peer =
      if str_eq peer broadcast_id
      then text "📢 broadcast — "
        ++ (decimal (connected_count m.states) ++ text " connected peer(s)")
      else text "chat with " ++ peer

  unfoldable pub chat_text : Model I → Bytes
  unfolding chat_header visible_lines join_lines active_peer dim_color text
  chat_text m =
      let peer = active_peer m in
      if str_eq peer []
      then style.foreground dim_color (text "no peer selected")
      else style.bold (chat_header m peer)
        ++ (text "\n\n" ++ join_lines (visible_lines m.height (get_or (lookup peer m.chats) [])))

  unfoldable pub view : Model I → Bytes
  unfolding sidebar_text chat_text border_color dim_color text
  view m =
      let sidebar =
        style.frame (sidebar_width m.width) (sub_ℕ m.height 4) (border_color (is_sidebar m.focus))
          (sidebar_text m) in
      let chat =
        style.frame (right_width m.width) (sub_ℕ m.height 7) (border_color false) (chat_text m) in
      let input =
        style.frame_of_text (right_width m.width) (border_color (not (is_sidebar m.focus)))
          (style.input_view m.input) in
      if m.width == 0
      then text "loading…"
      else style.join_vertical (
          style.join_horizontal (sidebar ∷ style.join_vertical (chat ∷ input ∷ []) ∷ [])
          ∷ style.foreground dim_color m.status
          ∷ [])
