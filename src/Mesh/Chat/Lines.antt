-- ===== src/Mesh/Chat/Lines.antt =====
-- A line of chat from sendLine to readLoopReader.
use quicmeshpoc.Common.{
  Bytes, false, List, [], ◌∷◌, ◌++◌, str_eq, str_eq_iff, contains, All, ◌≡◌, ◌≢◌, refl, arith, ap,
  ◌∙◌,
}
use mathlib.Core.List.{append_assoc}
use quicmeshpoc.Mesh.State.{Effect, emit, chat_msg}
use quicmeshpoc.Mesh.Names.{trim_newline, ends_in_newline}
use quicmeshpoc.Mesh.Chat.{read_strings, heard, sent_line}

-- One line: not empty, no newline in it, and no carriage return at its end.
abbrev pub IsLine : Bytes → Type 0
IsLine t = (t ≢ []) × (contains b'\n' t ≡ false) × (ends_in_newline t ≡ false)

-- The bytes of the lines on the stream.
abbrev pub sent_lines : List Bytes → Bytes
sent_lines [] = []
sent_lines (t ∷ ts) = sent_line t ++ sent_lines ts

-- The messages that the interface is to get.
abbrev pub messages : Bytes → List Bytes → List Effect
messages id [] = []
messages id (t ∷ ts) = emit (chat_msg id id t) ∷ messages id ts

read_strings-line :
    (t acc rest : Bytes)
    → contains b'\n' t ≡ false
    → read_strings acc (t ++ (b'\n' ∷ rest)) ≡ (acc ++ (t ++ b'\n' ∷ [])) ∷ read_strings [] rest
unfolding read_strings
read_strings-line [] acc rest h = refl
read_strings-line (c ∷ t) acc rest h =
    ground
      (arith, read_strings-line t (acc ++ c ∷ []) rest, append_assoc acc (c ∷ []) (t ++ b'\n' ∷ []))

read_strings-sent_line :
    (t a b : Bytes)
    → contains b'\n' t ≡ false
    → read_strings [] ((sent_line t ++ a) ++ b) ≡ sent_line t ∷ read_strings [] (a ++ b)
unfolding sent_line
read_strings-sent_line t a b h =
    ap (read_strings []) (append_assoc (t ++ b'\n' ∷ []) a b ∙ append_assoc t (b'\n' ∷ []) (a ++ b))
    ∙ read_strings-line t [] (a ++ b) h

trim_newline_none : (t : Bytes) → ends_in_newline t ≡ false → trim_newline t ≡ t
unfolding trim_newline
trim_newline_none [] h = refl
trim_newline_none (c ∷ []) h = unfold str_eq in ground arith
trim_newline_none (c ∷ d ∷ t) h = rw (trim_newline_none (d ∷ t) h) (unfold str_eq in refl)

trim_newline-sent_line : (t : Bytes) → ends_in_newline t ≡ false → trim_newline (sent_line t) ≡ t
unfolding trim_newline sent_line
trim_newline-sent_line [] h = unfold str_eq in refl
trim_newline-sent_line (c ∷ []) h = unfold str_eq in ground arith
trim_newline-sent_line (c ∷ d ∷ t) h = rw (trim_newline-sent_line (d ∷ t) h) (unfold str_eq in refl)

read_strings_tail : (s acc : Bytes) → contains b'\n' s ≡ false → read_strings acc s ≡ []
unfolding read_strings
read_strings_tail [] acc h = refl
read_strings_tail (c ∷ s) acc h = ground (arith, read_strings_tail s (acc ++ c ∷ []))

heard-line :
    (id t : Bytes) (lines : List Bytes)
    → IsLine t
    → heard id (sent_line t ∷ lines) ≡ emit (chat_msg id id t) ∷ heard id lines
unfolding heard
heard-line id t lines h = rw (trim_newline-sent_line t h.2) (ground (arith, str_eq_iff t [], h.0))

-- A peer hears exactly the lines sent to it, in order, each as one message under the sender's
-- name, if the lines are not empty, have no newline in them and do not end in a carriage return;
-- a part of a line at the end of the stream is not heard.
pub heard-sent_lines :
    (id tail : Bytes) (ts : List Bytes)
    → All IsLine ts
    → contains b'\n' tail ≡ false
    → heard id (read_strings [] (sent_lines ts ++ tail)) ≡ messages id ts
unfolding heard
heard-sent_lines id tail [] h k = ap (heard id) (read_strings_tail tail [] k)
heard-sent_lines id tail (t ∷ ts) h k =
    ap (heard id) (read_strings-sent_line t (sent_lines ts) tail h.0.1)
    ∙ heard-line id t _ h.0
    ∙ ap (◌∷◌ (emit (chat_msg id id t))) (heard-sent_lines id tail ts h.1 k)
