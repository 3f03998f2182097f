-- ===== src/System/Conversation/Writes.antt =====
-- The lines that the goroutines of SendChat in cmd/quicchat/mesh.go write to one link, in any order.
use mathlib.Core.List.{Perm, Permᴰ, append_assoc}
use mathlib.Core.Bool.{Bool-set}
use mathlib.Core.Logic.{∥∥₁_elim}
use quicmeshpoc.Common.{
  ℕ, Bytes, Bool, true, not, ◌&&◌, List, [], ◌∷◌, ◌++◌, Option, none, some, All, contains, str_eq,
  str_eq_iff, lookup, ◌≡◌, refl, ap, ◌∙◌, arith,
}
use quicmeshpoc.Mesh.State.{
  Mesh, PeerConn, Effect, emit, close_conn, spawn_dial, punch, report_handoff, write_to,
}
use quicmeshpoc.Mesh.Names.{ends_in_newline}
use quicmeshpoc.Mesh.Chat.{send_chat, sent_line}
use quicmeshpoc.Mesh.Chat.Lines.{IsLine, sent_lines}
use quicmeshpoc.System.Conversation.{carry_out, carry_all, bytes_on, texts_of, to_peer}

abbrev pub is_line : Bytes → Bool
is_line t = not (str_eq t []) && not (contains b'\n' t) && not (ends_in_newline t)

abbrev pub all_lines : List Bytes → Bool
all_lines [] = true
all_lines (t ∷ ts) = is_line t && all_lines ts

pub All-IsLine : (ts : List Bytes) → all_lines ts ≡ true → All IsLine ts
All-IsLine [] h = tt
All-IsLine (t ∷ ts) h = ground (arith, h, All-IsLine ts, str_eq_iff t [])

all_lines-Permᴰ : {ts us : List Bytes} → Permᴰ ts us → all_lines ts ≡ all_lines us
all_lines-Permᴰ Permᴰ.nil = refl
all_lines-Permᴰ (Permᴰ.cons {b = u} e p) = ground (arith, ap is_line e, all_lines-Permᴰ p)
all_lines-Permᴰ (Permᴰ.swap e f) = ground (arith, ap is_line e, ap is_line f)
all_lines-Permᴰ (Permᴰ.trans p q) = all_lines-Permᴰ p ∙ all_lines-Permᴰ q

pub all_lines-Perm : {ts us : List Bytes} → Perm ts us → all_lines ts ≡ all_lines us
all_lines-Perm p = ∥∥₁_elim p (Bool-set _ _) all_lines-Permᴰ

pub texts_of-to_peer : (b : Bytes) (ts : List Bytes) → texts_of (to_peer b ts) ≡ ts
texts_of-to_peer b [] = refl
texts_of-to_peer b (t ∷ ts) = ap (◌∷◌ t) (texts_of-to_peer b ts)

bytes_on-append :
    (c : ℕ) (fx gx : List Effect) → bytes_on c (fx ++ gx) ≡ bytes_on c fx ++ bytes_on c gx
bytes_on-append c [] gx = refl
bytes_on-append c (write_to d s ∷ fx) gx =
    ground (arith, bytes_on-append c fx gx, append_assoc s (bytes_on c fx) (bytes_on c gx))
bytes_on-append c (emit m ∷ fx) gx = bytes_on-append c fx gx
bytes_on-append c (close_conn d s ∷ fx) gx = bytes_on-append c fx gx
bytes_on-append c (spawn_dial p ∷ fx) gx = bytes_on-append c fx gx
bytes_on-append c (punch a ∷ fx) gx = bytes_on-append c fx gx
bytes_on-append c (report_handoff id ∷ fx) gx = bytes_on-append c fx gx

send_chat-linked :
    (write : ℕ → Option Bytes) (b t : Bytes) (pc : PeerConn) (m : Mesh)
    → lookup b m.conns ≡ some pc
    → write pc.conn ≡ none
    → send_chat b t write m ≡ (m, write_to pc.conn (sent_line t) ∷ [])
unfolding send_chat
send_chat-linked write b t pc m e w = rw (e, w) refl

-- Texts for a peer with a link that takes them are written to it as lines.
pub bytes_on-carry_all :
    (write : ℕ → Option Bytes) (b : Bytes) (pc : PeerConn) (m : Mesh)
    → lookup b m.conns ≡ some pc
    → write pc.conn ≡ none
    → (ts : List Bytes) → bytes_on pc.conn (carry_all write (to_peer b ts) m).1 ≡ sent_lines ts
unfolding carry_out send_chat
bytes_on-carry_all write b pc m e w [] = refl
bytes_on-carry_all write b pc m e w (t ∷ ts) =
    rw (send_chat-linked write b t pc m e w)
      (ground (arith, bytes_on-carry_all write b pc m e w ts))
