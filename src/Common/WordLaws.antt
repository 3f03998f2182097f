-- ===== src/Common/WordLaws.antt =====
-- Words of printable ASCII, as strings.Fields finds them.
use Prim.Native.Nat.{ℕ}
use mathlib.Core.Path.{◌≡◌, refl, sym, ap, ◌∙◌}
use mathlib.Core.Bool.{Bool, true, false, ◌&&◌, not}
use mathlib.Core.List.{List, [], ◌∷◌, ◌++◌, append-nil, append_assoc}
use mathlib.Core.Option.{none}
use native.Mathlib.Omega.{arith}
use quicmeshpoc.Common.Tests.{ltb, ◌==◌}
use quicmeshpoc.Common.Lists.{length}
use quicmeshpoc.Common.Text.{Bytes, has_prefix}
use quicmeshpoc.Common.Spaces.{spaces, strip_one}
use quicmeshpoc.Common.Words.{word_then, words}

-- Printable ASCII without the space.
abbrev pub is_plain : Bytes → Bool
is_plain [] = true
is_plain (c ∷ s) = ltb 0x20 c && ltb c 0x7f && is_plain s

-- No entry of the table begins with the byte.
abbrev begins_none : ℕ → List Bytes → Bool
begins_none c [] = true
begins_none c ([] ∷ ps) = false
begins_none c ((d ∷ p) ∷ ps) = not (c == d) && begins_none c ps

strip_one-begins_none :
    (c : ℕ) (s : Bytes) (ps : List Bytes) → begins_none c ps ≡ true → strip_one ps (c ∷ s) ≡ none
unfolding strip_one has_prefix
strip_one-begins_none c s [] h = refl
strip_one-begins_none c s ([] ∷ ps) h = cc
strip_one-begins_none c s ((d ∷ p) ∷ ps) h = ground (arith, strip_one-begins_none c s ps)

begins_none-plain : (c : ℕ) → (ltb 0x20 c && ltb c 0x7f) ≡ true → begins_none c spaces ≡ true
unfolding spaces
begins_none-plain c h = ground arith

-- The bytes of a plain word are added to the current word.
pub words-plain :
    (a w s : Bytes)
    → is_plain a ≡ true
    → words (length (a ++ s)) w (a ++ s) ≡ words (length s) (w ++ a) s
unfolding words
words-plain [] w s h = ap (λ (v : Bytes). words (length s) v s) (sym (append-nil w))
words-plain (c ∷ a) w s h =
    rw (strip_one-begins_none c (a ++ s) spaces (begins_none-plain c (ground arith)), words)
      (words-plain a (w ++ c ∷ []) s (ground arith)
        ∙ ap (λ (v : Bytes). words (length s) v s) (append_assoc w (c ∷ []) a))

-- A space ends the current word, and so does a newline.
pub words_space :
    (w s : Bytes) → words (length (b' ' ∷ s)) w (b' ' ∷ s) ≡ word_then w (words (length s) [] s)
unfolding words strip_one
words_space w s = refl

pub words_newline :
    (w s : Bytes) → words (length (b'\n' ∷ s)) w (b'\n' ∷ s) ≡ word_then w (words (length s) [] s)
unfolding words strip_one
words_newline w s = refl
