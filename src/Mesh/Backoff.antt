-- ===== src/Mesh/Backoff.antt =====
-- The pauses of signalsStreamLoop in cmd/quicchat/mesh.go, in nanoseconds.
use quicmeshpoc.Common.{
  ℕ, zero, suc, leb, ◌==◌, ◌*◌, ◌+◌, ◌≤◌, ◌<◌, if◌then◌else◌, ◌≡◌, arith, List, [], ◌∷◌, All, ap,
  length, ◌∙◌,
}
use Prim.Native.Nat.{min, ◌^◌}
use native.Mathlib.Nat.{pow-suc}

abbrev pub max_backoff : ℕ
max_backoff = 5000000000

abbrev pub first_backoff : ℕ
first_backoff = 250000000

-- The switch behind a stream that was up for `elapsed`.
unfoldable pub next_backoff : ℕ → ℕ → ℕ
next_backoff elapsed backoff =
    if leb max_backoff elapsed
    then 0
    else if backoff == 0
    then first_backoff
    else min (backoff * 2) max_backoff

-- The pause before the next attempt, after attempts that lasted so long.
unfoldable pub backoff_after : List ℕ → ℕ → ℕ
unfolding next_backoff
backoff_after [] backoff = backoff
backoff_after (t ∷ ts) backoff = backoff_after ts (next_backoff t backoff)

pub next_backoff-le : (t backoff : ℕ) → backoff ≤ max_backoff → next_backoff t backoff ≤ max_backoff
unfolding next_backoff
next_backoff-le t backoff h = ground arith

-- No history of streams leads to a pause of more than five seconds; and a stream that stayed up
-- for five seconds is followed by no pause at all.
pub backoff_after-le :
    (ts : List ℕ) (t backoff : ℕ)
    → backoff ≤ max_backoff
    → max_backoff ≤ t
    → (backoff_after ts backoff ≤ max_backoff) × (next_backoff t (backoff_after ts backoff) ≡ 0)
unfolding backoff_after
backoff_after-le [] t backoff h k = (h, unfold next_backoff in ground arith)
backoff_after-le (s ∷ ts) t backoff h k =
    backoff_after-le ts t (next_backoff s backoff) (next_backoff-le s backoff h) k

pow-pos : (k : ℕ) → 0 < 2 ^ k
pow-pos zero = omega arith
pow-pos (suc k) = omega (arith, pow-pos k, pow-suc 2 k)

doubled :
    (t k : ℕ)
    → t < max_backoff
    → next_backoff t (min (first_backoff * 2 ^ k) max_backoff)
      ≡ min (first_backoff * 2 ^ (k + 1)) max_backoff
unfolding next_backoff
doubled t k h = ground (arith, pow-pos k, pow-suc 2 k)

backoff_after-pow :
    (ts : List ℕ) (k : ℕ)
    → All (λ t. t < max_backoff) ts
    → backoff_after ts (min (first_backoff * 2 ^ k) max_backoff)
      ≡ min (first_backoff * 2 ^ (k + length ts)) max_backoff
unfolding backoff_after
backoff_after-pow [] k h = ap (λ (n : ℕ). min (first_backoff * 2 ^ n) max_backoff) (omega arith)
backoff_after-pow (t ∷ ts) k h =
    ap (backoff_after ts) (doubled t k h.0)
    ∙ backoff_after-pow ts (k + 1) h.1
    ∙ ap (λ (n : ℕ). min (first_backoff * 2 ^ n) max_backoff) (omega arith)

-- After streams that all end early the pause is a quarter of a second, doubled for each failure
-- but the first, and at most five seconds.
pub backoff_after_failures :
    (t : ℕ) (ts : List ℕ)
    → All (λ u. u < max_backoff) (t ∷ ts)
    → backoff_after (t ∷ ts) 0 ≡ min (first_backoff * 2 ^ length ts) max_backoff
unfolding backoff_after
backoff_after_failures t ts h =
    ap (backoff_after ts) (started h.0)
    ∙ backoff_after-pow ts 0 h.1
    ∙ ap (λ (n : ℕ). min (first_backoff * 2 ^ n) max_backoff) (omega arith)
  where
    started : t < max_backoff → next_backoff t 0 ≡ min (first_backoff * 2 ^ 0) max_backoff
    started lt = unfold next_backoff in ground arith
