-- ===== src/Common/Maps.antt =====
-- Go's maps with string keys. The order of entries stands for nothing: a loop over a map whose result
-- depends on the order takes the order in which the runtime visits the keys as an argument.
use mathlib.Core.Path.{◌≡◌, refl}
use mathlib.Core.Bool.{Bool, false, ◌||◌}
use mathlib.Core.List.{List, [], ◌∷◌, ◌++◌}
use mathlib.Core.Option.{Option, none, some}
use native.Mathlib.Omega.{arith}
use quicmeshpoc.Common.Tests.{if◌then◌else◌, is_some}
use quicmeshpoc.Common.Text.{Bytes, str_eq, str_eq_iff}

abbrev pub Map {ℓ} : Type ℓ → Type ℓ
Map V = List (Bytes × V)

-- Whether the text is in the list.
unfoldable pub member : Bytes → List Bytes → Bool
member k [] = false
member k (j ∷ ks) = str_eq k j || member k ks

-- No text is in the list twice.
abbrev pub Distinct : List Bytes → Type 0
Distinct [] = Unit
Distinct (k ∷ ks) = (member k ks ≡ false) × Distinct ks

module _ {ℓ} {V : Type ℓ} where
  -- v, ok := m[k]
  unfoldable pub lookup : Bytes → Map V → Option V
  lookup k [] = none
  lookup k ((j, v) ∷ m) = if str_eq j k then some v else lookup k m

  -- m[k] = v
  unfoldable pub insert : Bytes → V → Map V → Map V
  insert k v [] = (k, v) ∷ []
  insert k v ((j, w) ∷ m) = if str_eq j k then (k, v) ∷ m else (j, w) ∷ insert k v m

  -- delete(m, k)
  unfoldable pub delete : Bytes → Map V → Map V
  delete k [] = []
  delete k ((j, v) ∷ m) = let rest = delete k m in if str_eq j k then rest else (j, v) ∷ rest

  unfoldable pub keys : Map V → List Bytes
  keys [] = []
  keys ((j, v) ∷ m) = j ∷ keys m

  pub lookup-insert :
      (k j : Bytes) (v : V) (m : Map V)
      → lookup j (insert k v m) ≡ (if str_eq k j then some v else lookup j m)
  unfolding lookup insert
  lookup-insert k j v [] = refl
  lookup-insert k j v ((i, w) ∷ m) =
      ground (arith, str_eq_iff k j, str_eq_iff i k, str_eq_iff i j, lookup-insert k j v m)

  pub lookup-delete :
      (k j : Bytes) (m : Map V) → lookup j (delete k m) ≡ (if str_eq k j then none else lookup j m)
  unfolding lookup delete
  lookup-delete k j [] = ground arith
  lookup-delete k j ((i, w) ∷ m) =
      ground (arith, str_eq_iff k j, str_eq_iff i k, str_eq_iff i j, lookup-delete k j m)

  -- The keys of a map are those that it has a value for.
  pub member-keys : (k : Bytes) (m : Map V) → member k (keys m) ≡ is_some (lookup k m)
  unfolding member keys lookup
  member-keys k [] = refl
  member-keys k ((j, v) ∷ m) = ground (arith, member-keys k m, str_eq_iff k j, str_eq_iff j k)

  pub Distinct-insert :
      (k : Bytes) (v : V) (m : Map V) → Distinct (keys m) → Distinct (keys (insert k v m))
  unfolding keys insert
  Distinct-insert k v [] d = (unfold member in refl, tt)
  Distinct-insert k v ((j, w) ∷ m) d = ground (
    arith,
    Distinct-insert k v m d.1,
    member-keys j m,
    member-keys k m,
    member-keys j (insert k v m),
    lookup-insert k j v m,
    str_eq_iff j k,
    str_eq_iff k j,
  )

  pub Distinct-delete : (k : Bytes) (m : Map V) → Distinct (keys m) → Distinct (keys (delete k m))
  unfolding keys delete
  Distinct-delete k [] d = tt
  Distinct-delete k ((j, w) ∷ m) d = ground (
    arith,
    Distinct-delete k m d.1,
    member-keys j m,
    member-keys j (delete k m),
    lookup-delete k j m,
  )

pub member-append :
    (k : Bytes) (xs ys : List Bytes) → member k (xs ++ ys) ≡ (member k xs || member k ys)
unfolding member
member-append k [] ys = refl
member-append k (x ∷ xs) ys = ground (arith, member-append k xs ys)

pub Distinct-concat :
    (k : Bytes) (xs : List Bytes) → Distinct xs → member k xs ≡ false → Distinct (xs ++ k ∷ [])
unfolding member
Distinct-concat k [] d h = (refl, tt)
Distinct-concat k (x ∷ xs) d h =
    ground
      (arith, Distinct-concat k xs d.1, member-append x xs (k ∷ []), str_eq_iff x k, str_eq_iff k x)
