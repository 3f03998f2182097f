-- ===== src/System/Conversation.antt =====
-- What one user types and what another sees: the calls of the Mesh in handleKey of
-- cmd/quicchat/tui.go, and what they write.
pub mod Writes
pub mod Typing
pub mod Seen
use mathlib.Core.List.{Perm, Permᴰ, map, append_assoc, append-nil}
use mathlib.Core.List.Perm
use mathlib.Core.Bool.{Bool-set}
use mathlib.Core.Logic.{∥∥₁_elim}
use quicmeshpoc.Common.{
  ℕ, Bytes, Bool, true, false, not, ◌&&◌, ◌==◌, List, [], ◌∷◌, ◌++◌, Option, none, some, All, text,
  trim_space, contains, str_eq, str_eq_iff, str_eq_sym, lookup, if◌then◌else◌, ◌≡◌, ◌≢◌, refl, sym,
  subst, ap, ◌∙◌, arith, Bool-cases, inl, inr,
}
use quicmeshpoc.Mesh.State.{
  Mesh, PeerConn, Effect, emit, close_conn, spawn_dial, punch, report_handoff, write_to, Msg,
  chat_msg, connected, Step,
}
use quicmeshpoc.Mesh.Names.{ends_in_newline}
use quicmeshpoc.Mesh.Links.{connect}
use quicmeshpoc.Mesh.Chat.{send_chat, send_broadcast, sent_line, heard, read_strings}
use quicmeshpoc.Mesh.Chat.Lines.{IsLine, sent_lines, messages, heard-sent_lines}
use quicmeshpoc.Mesh.Chat.Trimmed.{ends_in_newline-trim_space}
use quicmeshpoc.Tui.{
  Model, TextInput, Command, connect_to, send_to, send_to_all, quit, key, from_mesh, FocusArea,
  focus_input, broadcast_id, state_of, is_connected, active_peer, append_line, add_chat, take_msg,
}
use quicmeshpoc.Tui.Keys.{input_enter, panel_key, handle_key, update}
use quicmeshpoc.Tui.Send.{lines_of, lines_of-append_line, input_enter_lem, can_send}

-- The calls of the Mesh that handleKey makes.
unfoldable pub carry_out : (ℕ → Option Bytes) → Command → Mesh → Step
unfolding connect send_chat send_broadcast
carry_out write (connect_to p) m = connect p m
carry_out write (send_to id said) m = send_chat id said write m
carry_out write (send_to_all said) m = send_broadcast said write m
carry_out write quit m = (m, [])

abbrev pub carry_all : (ℕ → Option Bytes) → List Command → Mesh → Step
carry_all write [] m = (m, [])
carry_all write (c ∷ cs) m =
    let (m', fx) = carry_out write c m in let (m'', gx) = carry_all write cs m' in (m'', fx ++ gx)

-- The bytes written to a connection.
abbrev pub bytes_on : ℕ → List Effect → Bytes
bytes_on c [] = []
bytes_on c (write_to d s ∷ fx) = let rest = bytes_on c fx in if d == c then s ++ rest else rest
bytes_on c (_ ∷ fx) = bytes_on c fx

-- The texts that are for one peer.
abbrev pub texts_of : List Command → List Bytes
texts_of [] = []
texts_of (send_to id said ∷ cs) = said ∷ texts_of cs
texts_of (_ ∷ cs) = texts_of cs

abbrev pub to_peer : Bytes → List Bytes → List Command
to_peer b ts = map (send_to b) ts

abbrev pub me : Bytes → Bytes
me t = text "me: " ++ t

abbrev pub said_by : Bytes → Bytes → Bytes
said_by a t = a ++ text ": " ++ t
