-- ===== src/Tui/View/Visible.antt =====
-- Which lines of a chat are on the screen.
use quicmeshpoc.Common.{
  ℕ, zero, suc, ◌-◌, ◌<◌, Bytes, List, [], ◌∷◌, ◌++◌, length, drop, length-drop, if◌then◌else◌, ltb,
  ◌≡◌, inl, inr, refl, arith, ap, Bool-cases,
}
use quicmeshpoc.Tui.View.{visible_lines}

abbrev pub take : ℕ → List Bytes → List Bytes
take zero xs = []
take (suc n) [] = []
take (suc n) (x ∷ xs) = x ∷ take n xs

take-append-drop : (n : ℕ) (xs : List Bytes) → take n xs ++ drop n xs ≡ xs
take-append-drop zero xs = refl
take-append-drop (suc n) [] = refl
take-append-drop (suc n) (x ∷ xs) = ap (◌∷◌ x) (take-append-drop n xs)

-- The lines on the screen are the last of the chat, in order: all of them if they fit below the
-- header, and else as many as there is room for, in a window of more than eight lines.
pub visible_lines_lem :
    (height : ℕ) (lines : List Bytes)
    → 8 < height
    → (hidden : List Bytes) × (hidden ++ visible_lines height lines ≡ lines)
      × (length (visible_lines height lines)
          ≡ (if ltb (height - 8) (length lines) then height - 8 else length lines))
unfolding visible_lines
visible_lines_lem height lines h = elim (Bool-cases (ltb (height - 8) (length lines))) [
  | inl e ↦ (
    take (length lines - (height - 8)) lines,
    ground (arith, e, h, take-append-drop (length lines - (height - 8)) lines),
    ground (arith, e, h, length-drop (length lines - (height - 8)) lines),
  )
  | inr e ↦ ([], ground (arith, e), ground (arith, e))
]
