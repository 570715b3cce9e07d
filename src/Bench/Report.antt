-- ===== src/Bench/Report.antt =====
-- bench.rs, `percentile`: a latency out of the sorted ones. The product of the share and the length, in
-- floating point and rounded down, is an argument.
use shario.Prelude.{
  ℕ, zero, suc, ◌-◌, ◌<◌, Option, none, some, List, [], ◌∷◌, ◌≡◌, refl, ap, arith, length,
  get_elem?, leb, if◌then◌else◌,
}

abbrev element {ℓ} : {A : Type ℓ} → Option A → Option (Option A)
element none = none
element (some x) = some (some x)

-- `none` is a panic: `sorted[idx]` out of range.
unfoldable pub percentile {ℓ} : {A : Type ℓ} → List A → ℕ → Option (Option A)
percentile [] scaled = some none
percentile (x ∷ sorted) scaled =
    let last = length (x ∷ sorted) - 1 in
    element (get_elem? (x ∷ sorted) (if leb scaled last then scaled else last))

get_elem?-in_range {ℓ} :
    {A : Type ℓ} (xs : List A) (i : ℕ) → i < length xs → (x : A) × (get_elem? xs i ≡ some x)
get_elem?-in_range [] i lt = absurd (omega arith)
get_elem?-in_range (x ∷ xs) zero lt = (x, refl)
get_elem?-in_range (x ∷ xs) (suc i) lt = get_elem?-in_range xs i (omega arith)

abbrev pub Ranked {ℓ} : {A : Type ℓ} → List A → Option A → Type ℓ
Ranked sorted none = sorted ≡ []
Ranked sorted (some x) = (i : ℕ) × (i < length sorted) × (get_elem? sorted i ≡ some x)

-- Whatever the product is rounded to, a percentile is never read out of range: it is one of the
-- latencies, and there is none only where there are no latencies.
pub percentile-Ranked {ℓ} :
    {A : Type ℓ} (sorted : List A) (scaled : ℕ)
    → (o : Option A) × (percentile sorted scaled ≡ some o) × Ranked sorted o
unfolding percentile
percentile-Ranked [] scaled = (none, refl, refl)
percentile-Ranked (x ∷ sorted) scaled =
    let last = length (x ∷ sorted) - 1 in
    let idx : ℕ = if leb scaled last then scaled else last in
    let fits : idx < length (x ∷ sorted) = ground arith in
    let (y, found) = get_elem?-in_range (x ∷ sorted) idx fits in
    (some y, ap element found, (idx, fits, found))
