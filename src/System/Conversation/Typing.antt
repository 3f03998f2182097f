-- ===== src/System/Conversation/Typing.antt =====
-- Enter in the text box of cmd/quicchat/tui.go, again and again.
use mathlib.Core.List.{map, append_assoc, append-nil}
use quicmeshpoc.Common.{
  Bytes, true, false, List, [], ◌∷◌, ◌++◌, All, text, trim_space, contains, str_eq, str_eq_iff,
  if◌then◌else◌, ◌≡◌, refl, sym, ap, ◌∙◌, arith,
}
use quicmeshpoc.Mesh.State.{connected}
use quicmeshpoc.Mesh.Chat.Trimmed.{ends_in_newline-trim_space}
use quicmeshpoc.Tui.{
  Model, TextInput, Command, send_to, key, FocusArea, focus_input, broadcast_id, state_of,
  active_peer,
}
use quicmeshpoc.Tui.Keys.{input_enter, panel_key, handle_key, update}
use quicmeshpoc.Tui.Send.{lines_of, input_enter_lem}
use quicmeshpoc.System.Conversation.{to_peer, me}
use quicmeshpoc.System.Conversation.Writes.{all_lines}

module _ {I O : Type 0} (box : TextInput I O) where
  -- Enter behind each of the contents of the text box: the model, and the calls of the Mesh.
  abbrev pub typed : List I → Model I → Model I × List Command
  typed [] m = (m, [])
  typed (i ∷ is) m =
      let (m', cs) = update box (key (text "enter")) (record m { input = i }) in
      let (m'', ds) = typed is m' in (m'', cs ++ ds)

  -- The contents that are not blank, without the space around them.
  abbrev pub texts : List I → List Bytes
  texts [] = []
  texts (i ∷ is) =
      let said = trim_space (box.value i) in
      let rest = texts is in if str_eq said [] then rest else said ∷ rest

  abbrev pub OneLine : I → Type 0
  OneLine i = contains b'\n' (trim_space (box.value i)) ≡ false

  pub all_lines-texts : (is : List I) → All OneLine is → all_lines (texts is) ≡ true
  all_lines-texts [] h = refl
  all_lines-texts (i ∷ is) h =
      ground (arith, h.0, all_lines-texts is h.1, ends_in_newline-trim_space (box.value i))

  enter_is :
      (m : Model I)
      → m.focus ≡ focus_input
      → (update box (key (text "enter")) m) ≡ input_enter box m
  unfolding update handle_key panel_key str_eq text
  enter_is m h = ap (λ (f : FocusArea). panel_key box f (text "enter") m) h

  -- Enter in the text box moves neither the cursor nor the focus, and learns nothing of peers.
  input_enter-keeps :
      (m : Model I)
      → let m' = (input_enter box m).0 in
        (m'.focus ≡ m.focus) × (active_peer m' ≡ active_peer m) × (m'.states ≡ m.states)
  unfolding input_enter active_peer
  input_enter-keeps m = ground arith

  -- The user writes to `b`.
  pub record Talks (b : Bytes) (m : Model I) : Type 0 where
    pub writing : m.focus ≡ focus_input
    pub on_row : active_peer m ≡ b
    pub linked : state_of b m.states ≡ connected

  module _ (b : Bytes) (real : str_eq b broadcast_id ≡ false) (named : str_eq b [] ≡ false) where
    enter-Talks : (m : Model I) → Talks b m → Talks b (update box (key (text "enter")) m).0
    enter-Talks m h =
        let kept = input_enter-keeps m in
        rw (enter_is m h.writing) (record {
          writing = kept.0 ∙ h.writing;
          on_row = kept.1 ∙ h.on_row;
          linked = ap (state_of b) kept.2 ∙ h.linked;
        })

    enter_lem :
        (m : Model I)
        → Talks b m
        → let said = trim_space (box.value m.input) in
          let r = update box (key (text "enter")) m in
          (r.1 ≡ (if str_eq said [] then [] else send_to b said ∷ []))
          × (lines_of b r.0.chats
              ≡ (if str_eq said [] then lines_of b m.chats else lines_of b m.chats ++ me said ∷ []))
    enter_lem m h =
        let sent = input_enter_lem box m b in
        rw (enter_is m h.writing)
          (ground (arith, sent, h.on_row, h.linked, real, named, str_eq_iff b b))

    pub typed_lem :
        (is : List I) (m : Model I)
        → Talks b m
        → ((typed is m).1 ≡ to_peer b (texts is))
          × (lines_of b (typed is m).0.chats ≡ lines_of b m.chats ++ map me (texts is))
    unfolding active_peer
    typed_lem [] m h = (refl, sym (append-nil (lines_of b m.chats)))
    typed_lem (i ∷ is) m h =
        let m₁ : Model I = record m { input = i } in
        let h₁ : Talks b m₁ = record {
          writing = h.writing;
          on_row = h.on_row;
          linked = h.linked;
        } in
        let first = enter_lem m₁ h₁ in
        let rest = typed_lem is (update box (key (text "enter")) m₁).0 (enter-Talks m₁ h₁) in
        ground (
          arith,
          first,
          rest,
          append_assoc (lines_of b m.chats) (me (trim_space (box.value i)) ∷ [])
              (map me (texts is)),
        )
