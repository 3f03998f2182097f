-- ===== src/Mesh/Candidates.antt =====
-- dedupeCandidates of cmd/quicchat/mesh.go.
use mathlib.Core.List.{append-nil, append_assoc}
use quicmeshpoc.Common.{
  Bytes, Bool, true, false, not, ◌&&◌, List, [], ◌∷◌, ◌++◌, str_eq, str_eq_iff, str_eq_refl, member,
  Distinct, if◌then◌else◌, ◌≡◌, refl, arith, sym,
}

-- The loop, on `seen` and `out`: `seen` holds what `out` holds, as a set.
unfoldable pub dedupe : List Bytes → List Bytes → List Bytes → List Bytes
dedupe seen out [] = out
dedupe seen out (c ∷ cs) =
    let skip = dedupe seen out cs in
    let take = dedupe (c ∷ seen) (out ++ c ∷ []) cs in
    if str_eq c [] then skip else if member c seen then skip else take

unfoldable pub dedupe_candidates : Bytes → List Bytes → List Bytes
unfolding dedupe
dedupe_candidates public local = dedupe [] [] (public ∷ local)

-- `xs` is what remains of `ys` when some entries are left out.
pub data Within : List Bytes → List Bytes → Type 0 where
  none_left : Within [] []
  drop_one : {xs ys : List Bytes} (y : Bytes) → Within xs ys → Within xs (y ∷ ys)
  keep_one : {xs ys : List Bytes} (y : Bytes) → Within xs ys → Within (y ∷ xs) (y ∷ ys)

-- What the rest of the loop appends.
unfoldable pub added : List Bytes → List Bytes → List Bytes
added seen [] = []
added seen (c ∷ cs) =
    let skip = added seen cs in
    let take = c ∷ added (c ∷ seen) cs in
    if str_eq c [] then skip else if member c seen then skip else take

dedupe-added : (seen out cs : List Bytes) → dedupe seen out cs ≡ out ++ added seen cs
unfolding dedupe added
dedupe-added seen out [] = sym (append-nil out)
dedupe-added seen out (c ∷ cs) = ground (
  arith,
  dedupe-added seen out cs,
  dedupe-added (c ∷ seen) (out ++ c ∷ []) cs,
  append_assoc out (c ∷ []) (added (c ∷ seen) cs),
)

member-added :
    (k : Bytes) (seen cs : List Bytes)
    → member k (added seen cs) ≡ (member k cs && not (str_eq k []) && not (member k seen))
unfolding added member
member-added k seen [] = refl
member-added k seen (c ∷ cs) = ground (
  arith,
  member-added k seen cs,
  member-added k (c ∷ seen) cs,
  str_eq_iff k c,
  str_eq_iff c [],
  str_eq_iff k [],
)

Distinct-added : (seen cs : List Bytes) → Distinct (added seen cs)
unfolding added member
Distinct-added seen [] = tt
Distinct-added seen (c ∷ cs) = ground (
  arith,
  Distinct-added seen cs,
  Distinct-added (c ∷ seen) cs,
  member-added c (c ∷ seen) cs,
  str_eq_refl c,
)

Within-if :
    (a b : Bool) (c : Bytes) (cs xs ys : List Bytes)
    → Within xs cs
    → Within ys cs
    → Within (if a then xs else if b then xs else c ∷ ys) (c ∷ cs)
Within-if true b c cs xs ys h k = drop_one c h
Within-if false true c cs xs ys h k = drop_one c h
Within-if false false c cs xs ys h k = keep_one c k

Within-added : (seen cs : List Bytes) → Within (added seen cs) cs
unfolding added
Within-added seen [] = none_left
Within-added seen (c ∷ cs) =
    Within-if (str_eq c []) (member c seen) c cs _ _ (Within-added seen cs)
      (Within-added (c ∷ seen) cs)

-- The candidates are exactly the addresses that are not empty, the public one's and the local
-- ones', each once, and in the order of that list.
pub dedupe_candidates_lem :
    (public : Bytes) (local : List Bytes) (k : Bytes)
    → (member k (dedupe_candidates public local) ≡ (member k (public ∷ local) && not (str_eq k [])))
      × Distinct (dedupe_candidates public local)
      × Within (dedupe_candidates public local) (public ∷ local)
unfolding dedupe_candidates
dedupe_candidates_lem public local k = rw (dedupe-added [] [] (public ∷ local)) (
  unfold member in ground (arith, member-added k [] (public ∷ local)),
  Distinct-added [] (public ∷ local),
  Within-added [] (public ∷ local),
)
