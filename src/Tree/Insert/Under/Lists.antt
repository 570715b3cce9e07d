-- ===== src/Tree/Insert/Under/Lists.antt =====
-- shar/core/tree.rs, `add_crdt` under a tombstone: lemmas on the row that it inserts into.
use shario.Prelude.{
  ℕ, zero, suc, ◌+◌, ◌<◌, ◌≤◌, some, List, [], ◌∷◌, ◌++◌, All, ◌≡◌, refl, ap, ◌∙◌, arith,
  identity_eq, length, get_elem?, insert_at,
}

zero_plus : (n : ℕ) → 0 + n ≡ n
zero_plus n = omega arith

suc_plus : (m n : ℕ) → suc m + n ≡ suc (m + n)
suc_plus m n = omega arith

module _ {ℓ} {A : Type ℓ} where
  pub split_off :
      (n : ℕ) (xs : List A)
      → n ≤ length xs
      → (pre : List A) × (back : List A) × (xs ≡ pre ++ back) × (length pre ≡ n)
  split_off zero xs h = ([], xs, refl, refl)
  split_off (suc n) [] h = absurd (omega (arith, h))
  split_off (suc n) (x ∷ xs) h =
      let (pre, back, whole, at) = split_off n xs (omega (arith, h)) in
      (x ∷ pre, back, ap (◌∷◌ x) whole, ap suc at)

  pub insert_at-past :
      (front : List A) (a k : A) (xs : List A) (n : ℕ)
      → insert_at (length front + suc n) k (front ++ a ∷ xs) ≡ front ++ a ∷ insert_at n k xs
  insert_at-past [] a k xs n = ap (λ m. insert_at m k (a ∷ xs)) (zero_plus (suc n))
  insert_at-past (x ∷ front) a k xs n =
      ap (λ m. insert_at m k (x ∷ front ++ a ∷ xs)) (suc_plus (length front) (suc n))
      ∙ ap (◌∷◌ x) (insert_at-past front a k xs n)

  pub get_elem?-behind :
      (front : List A) (a : A) (xs : List A) (n : ℕ)
      → get_elem? (front ++ a ∷ xs) (length front + suc n) ≡ get_elem? xs n
  get_elem?-behind [] a xs n = ap (get_elem? (a ∷ xs)) (zero_plus (suc n))
  get_elem?-behind (x ∷ front) a xs n =
      ap (get_elem? (x ∷ front ++ a ∷ xs)) (suc_plus (length front) (suc n))
      ∙ get_elem?-behind front a xs n

  pub All-get_elem? :
      (P : A → Type 0) (xs back : List A)
      → ((i : ℕ) (x : A) → i < length xs → get_elem? (xs ++ back) i ≡ some x → P x)
      → All P xs
  All-get_elem? P [] back h = tt
  All-get_elem? P (x ∷ xs) back h = (
    h 0 x (omega arith) refl,
    All-get_elem? P xs back (λ i y lt at. h (suc i) y (omega (arith, lt)) at),
  )
