-- ===== src/Common/Words.antt =====
-- strings.Fields over UTF-8 bytes.
use Prim.Native.Nat.{ℕ, zero, suc}
use mathlib.Core.List.{List, [], ◌∷◌, ◌++◌}
use mathlib.Core.Option.{none, some}
use quicmeshpoc.Common.Lists.{length}
use quicmeshpoc.Common.Text.{Bytes}
use quicmeshpoc.Common.Spaces.{spaces, strip_one}

-- A word that has ended, in front of the later ones; an empty one is no word.
abbrev pub word_then : Bytes → List Bytes → List Bytes
word_then [] ws = ws
word_then (c ∷ w) ws = (c ∷ w) ∷ ws

-- `w` is what has been read of the current word. Each round reads at least one byte.
unfoldable pub words : ℕ → Bytes → Bytes → List Bytes
unfolding spaces strip_one
words zero w s = word_then w []
words (suc f) w [] = word_then w []
words (suc f) w (c ∷ s) = elim (strip_one spaces (c ∷ s)) [
  | none ↦ words f (w ++ c ∷ []) s
  | some t ↦ word_then w (words f [] t)
]

unfoldable pub fields : Bytes → List Bytes
unfolding words
fields s = words (length s) [] s
