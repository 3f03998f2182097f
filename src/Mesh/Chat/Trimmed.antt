-- ===== src/Mesh/Chat/Trimmed.antt =====
-- What strings.TrimSpace leaves at the end of a text that the interface sends, for
-- cmd/quicchat/tui.go and trimNewline of cmd/quicchat/mesh.go.
use Prim.Native.Nat.{zero, suc}
use mathlib.Core.List.{map, reverse, reverse_aux}
use quicmeshpoc.Common.{
  ℕ, Bytes, Bool, true, false, ◌<◌, ◌≤◌, ◌+◌, List, [], ◌∷◌, Option, none, some, length,
  length-drop, has_prefix, spaces, strip_one, strip_all, trim_left, trim_right, trim_space, ◌≡◌,
  refl, arith, ◌∙◌,
}
use quicmeshpoc.Mesh.Names.{is_newline, ends_in_newline}

-- No entry of the table is empty.
abbrev no_empty : List Bytes → Bool
no_empty [] = true
no_empty ([] ∷ ps) = false
no_empty ((c ∷ p) ∷ ps) = no_empty ps

strip_one-shorter :
    (ps : List Bytes) (s t : Bytes)
    → no_empty ps ≡ true
    → strip_one ps s ≡ some t
    → length t < length s
unfolding strip_one has_prefix
strip_one-shorter [] s t n e = ground (arith, e)
strip_one-shorter ((c ∷ p) ∷ ps) [] t n e = strip_one-shorter ps [] t n e
strip_one-shorter ([] ∷ ps) s t n e = ground (arith, n)
strip_one-shorter ((c ∷ p) ∷ ps) (d ∷ s) t n e =
    ground (arith, e, length-drop (length p) s, strip_one-shorter ps (d ∷ s) t n)

next_round :
    (f : ℕ) (ps : List Bytes) (s : Bytes) (o : Option Bytes)
    → ((t : Bytes) → strip_one ps s ≡ some t → strip_one ps (strip_all f ps t) ≡ none)
    → strip_one ps s ≡ o
    → strip_one ps (elim o [ none ↦ s | some t ↦ strip_all f ps t ]) ≡ none
next_round f ps s none rest e = e
next_round f ps s (some t) rest e = rest t e

-- With as much fuel as the text is long nothing is left to take off.
strip_all-done :
    (f : ℕ) (ps : List Bytes) (s : Bytes)
    → no_empty ps ≡ true
    → length s ≤ f
    → strip_one ps (strip_all f ps s) ≡ none
unfolding strip_all
strip_all-done zero ps [] n h = strip_one-empty ps n
  where
    strip_one-empty : (qs : List Bytes) → no_empty qs ≡ true → strip_one qs [] ≡ none
    strip_one-empty [] m = unfold strip_one in refl
    strip_one-empty ((c ∷ q) ∷ qs) m = unfold strip_one in strip_one-empty qs m
    strip_one-empty ([] ∷ qs) m = ground (arith, m)
strip_all-done zero ps (c ∷ s) n h = ground (arith, h)
strip_all-done (suc f) ps s n h =
    next_round f ps s (strip_one ps s)
      (λ t e. strip_all-done f ps t n (omega (arith, h, strip_one-shorter ps s t n e))) refl

strip_one-none :
    (p : Bytes) (ps : List Bytes) (s : Bytes)
    → strip_one (p ∷ ps) s ≡ none
    → (has_prefix s p ≡ false) × (strip_one ps s ≡ none)
unfolding strip_one
strip_one-none p ps s e = ground (arith, e)

starts_in_newline : Bytes → Bool
starts_in_newline [] = false
starts_in_newline (c ∷ s) = is_newline c

-- The second entry is the newline, and the fifth the carriage return.
no_newline : (s : Bytes) → strip_one (map reverse spaces) s ≡ none → starts_in_newline s ≡ false
unfolding starts_in_newline spaces has_prefix
no_newline [] e = refl
no_newline (c ∷ s) e =
    let at_newline =
      strip_one-none (0x0a ∷ []) _ (c ∷ s) (strip_one-none (0x09 ∷ []) _ (c ∷ s) e).1 in
    let at_return =
      strip_one-none (0x0d ∷ []) _ (c ∷ s)
        (strip_one-none (0x0c ∷ []) _ (c ∷ s)
          (strip_one-none (0x0b ∷ []) _ (c ∷ s) at_newline.1).1).1 in
    ground (arith, at_newline.0, at_return.0)

length-reverse_aux : (s acc : Bytes) → length (reverse_aux s acc) ≡ length s + length acc
length-reverse_aux [] acc = omega arith
length-reverse_aux (c ∷ s) acc = omega (arith, length-reverse_aux s (c ∷ acc))

ends_in_newline-reverse_aux :
    (s acc : Bytes) (c : ℕ) → ends_in_newline (reverse_aux s (c ∷ acc)) ≡ ends_in_newline (c ∷ acc)
ends_in_newline-reverse_aux [] acc c = refl
ends_in_newline-reverse_aux (d ∷ s) acc c = ends_in_newline-reverse_aux s (c ∷ acc) d

ends_in_newline-reverse : (s : Bytes) → ends_in_newline (reverse s) ≡ starts_in_newline s
unfolding starts_in_newline
ends_in_newline-reverse [] = refl
ends_in_newline-reverse (c ∷ s) = ends_in_newline-reverse_aux s [] c

-- A text without the space around it ends neither in a newline nor in a carriage return.
pub ends_in_newline-trim_space : (s : Bytes) → ends_in_newline (trim_space s) ≡ false
unfolding trim_space trim_right
ends_in_newline-trim_space s =
    let left = trim_left s in
    ends_in_newline-reverse (strip_all (length left) (map reverse spaces) (reverse left))
    ∙ no_newline _ (
        strip_all-done (length left) (map reverse spaces) (reverse left) (unfold spaces in refl)
          (omega (arith, length-reverse_aux left [])))
