-- ===== src/Mesh/Names.antt =====
-- The small helpers at the end of cmd/quicchat/mesh.go, and who dials whom.
use quicmeshpoc.Common.{
  ℕ, Bytes, Bool, true, false, not, ◌&&◌, ◌||◌, [], ◌∷◌, ◌++◌, str_eq, str_lt, str_eq_iff,
  str_lt_total, str_eq_sym, ◌==◌, if◌then◌else◌, ◌≡◌, refl, arith, ap, Bool-cases, inl, inr,
}
use quicmeshpoc.Protocol.{RegisterRequest}
use quicmeshpoc.Lighthouse.State.{Registration}
use quicmeshpoc.Lighthouse.Register.{restarted}

unfoldable pub incarnation_changed : Bytes → Bytes → Bool
incarnation_changed have latest =
    not (str_eq have []) && not (str_eq latest []) && not (str_eq have latest)

abbrev pub is_newline : ℕ → Bool
is_newline c = c == b'\n' || c == b'\r'

-- The loop takes newlines off the end: a byte goes if all behind it has gone.
unfoldable pub trim_newline : Bytes → Bytes
trim_newline [] = []
trim_newline (c ∷ s) =
    let rest = trim_newline s in if str_eq rest [] && is_newline c then [] else c ∷ rest

-- The test of autoConnect, negated: this node is the one to dial the other.
unfoldable pub initiates : Bytes → Bytes → Bool
unfolding str_lt
initiates self other = not (str_eq self other || str_lt other self)

-- Of two nodes with different names exactly one dials the other; a node never dials itself.
pub initiates_once : (a b : Bytes) → initiates a b ≡ (not (str_eq a b) && not (initiates b a))
unfolding initiates
initiates_once a b = ground (arith, str_lt_total a b, str_lt_total b a, str_eq_sym a b)

-- The client takes a roster entry for a restart exactly if the lighthouse, with the same two
-- incarnations, does; an unknown incarnation on either side, or an equal one, never counts.
pub incarnation_changed_iff :
    (prev : Registration) (req : RegisterRequest)
    → (incarnation_changed prev.incarnation req.incarnation ≡ restarted prev req)
      × (incarnation_changed [] req.incarnation ≡ false)
      × (incarnation_changed prev.incarnation [] ≡ false)
      × (incarnation_changed prev.incarnation prev.incarnation ≡ false)
unfolding incarnation_changed restarted
incarnation_changed_iff prev req = (
  refl,
  ground (arith, str_eq_iff [] []),
  ground (arith, str_eq_iff [] []),
  ground (arith, str_eq_iff prev.incarnation prev.incarnation),
)

abbrev pub ends_in_newline : Bytes → Bool
ends_in_newline [] = false
ends_in_newline (c ∷ []) = is_newline c
ends_in_newline (c ∷ d ∷ s) = ends_in_newline (d ∷ s)

abbrev all_newlines : Bytes → Bool
all_newlines [] = true
all_newlines (c ∷ s) = is_newline c && all_newlines s

abbrev Trims : Bytes → Bytes → Type 0
Trims s t =
    (ends_in_newline t ≡ false) × (tail : Bytes) × (s ≡ t ++ tail) × (all_newlines tail ≡ true)

Trims-cons :
    (c : ℕ) (s t : Bytes)
    → Trims s t
    → Trims (c ∷ s) (if str_eq t [] && is_newline c then [] else c ∷ t)
unfolding str_eq
Trims-cons c s [] (h, tail, e, a) = elim (Bool-cases (is_newline c)) [
  | inl n ↦ rw n (refl, c ∷ s, refl, ground (arith, n, e, a))
  | inr n ↦ rw n (n, tail, ap (◌∷◌ c) e, a)
]
Trims-cons c s (d ∷ t) (h, tail, e, a) = (h, tail, ap (◌∷◌ c) e, a)

-- A line loses its newlines and carriage returns at the end and nothing else.
pub trim_newline_lem :
    (s : Bytes)
    → (ends_in_newline (trim_newline s) ≡ false)
      × (tail : Bytes) × (s ≡ trim_newline s ++ tail)
      × (all_newlines tail ≡ true)
unfolding trim_newline
trim_newline_lem [] = (refl, [], refl, refl)
trim_newline_lem (c ∷ s) = Trims-cons c s (trim_newline s) (trim_newline_lem s)
