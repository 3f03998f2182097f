-- ===== src/Sse/Lines.antt =====
-- How the scanner takes a line that ends in a newline off the front of a body.
use quicmeshpoc.Common.{
  Bytes, Bool, true, false, List, [], ◌∷◌, ◌++◌, ◌≡◌, ◌<◌, refl, length, contains, arith, ◌==◌,
  if◌then◌else◌,
}
use quicmeshpoc.Sse.{split_lines, extend_first, drop_cr, drop_empty_last, fitting, max_line, scan}

pub split_lines-append :
    (a r : Bytes) → contains b'\n' a ≡ false → split_lines (a ++ (b'\n' ∷ r)) ≡ a ∷ split_lines r
unfolding split_lines extend_first
split_lines-append [] r h = refl
split_lines-append (c ∷ a) r h = ground (arith, split_lines-append a r)

pub split_lines_one : (a : Bytes) → contains b'\n' a ≡ false → split_lines a ≡ a ∷ []
unfolding split_lines extend_first
split_lines_one [] h = refl
split_lines_one (c ∷ a) h = ground (arith, split_lines_one a)

drop_cr_none : (a : Bytes) → contains b'\r' a ≡ false → drop_cr a ≡ a
unfolding drop_cr
drop_cr_none [] h = refl
drop_cr_none (c ∷ []) h = ground arith
drop_cr_none (c ∷ d ∷ a) h = ground (arith, drop_cr_none (d ∷ a))

split_lines-cons : (r : Bytes) → (l : Bytes) × (ls : List Bytes) × (split_lines r ≡ l ∷ ls)
unfolding split_lines extend_first
split_lines-cons [] = ([], [], refl)
split_lines-cons (c ∷ r) = go (c == b'\n') (split_lines r)
  where
    go :
        (b : Bool) (s : List Bytes)
        → (l : Bytes) × (ls : List Bytes) × ((if b then [] ∷ s else extend_first c s) ≡ l ∷ ls)
    go true s = ([], s, refl)
    go false [] = (c ∷ [], [], refl)
    go false (l ∷ ls) = (c ∷ l, ls, refl)

drop_empty_last-cons :
    (a l : Bytes) (ls : List Bytes) → drop_empty_last (a ∷ l ∷ ls) ≡ a ∷ drop_empty_last (l ∷ ls)
unfolding drop_empty_last
drop_empty_last-cons [] l ls = refl
drop_empty_last-cons (c ∷ a) l ls = refl

-- A line that the scanner can hold is handed out as it is, and the scan goes on behind it.
pub scan-append :
    (a r : Bytes)
    → contains b'\n' a ≡ false
    → contains b'\r' a ≡ false
    → length a < max_line
    → scan (a ++ (b'\n' ∷ r)) ≡ a ∷ scan r
unfolding scan fitting
scan-append a r hn hr hl =
    let (l, ls, e) = split_lines-cons r in
    rw (split_lines-append a r hn, e, drop_empty_last-cons a l ls)
      (ground (arith, drop_cr_none a hr))
