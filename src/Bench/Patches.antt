-- ===== src/Bench/Patches.antt =====
-- bench.rs, the patches of a trace: the text that they describe, and how long it is.
use shario.Prelude.{
  ℕ, zero, suc, ◌+◌, ◌-◌, ◌≤◌, ◌<◌, true, List, [], ◌∷◌, ◌++◌, ◌≡◌, length, insert_at, remove_at,
  take, drop, refl, sym, ap, ◌∙◌, arith, length-append, string_eq, ◌↔◌,
}
use shario.Bench.{Patch, same_text, total_inserts, total_deletes}

-- What a patch describes: `del_count` characters from `pos` on give way to the inserted ones.
abbrev pub patched : Patch → List ℕ → List ℕ
patched p doc = take p.pos doc ++ (p.inserted ++ drop (p.pos + p.del_count) doc)

abbrev pub replayed : List Patch → List ℕ → List ℕ
replayed [] doc = doc
replayed (p ∷ patches) doc = replayed patches (patched p doc)

-- Each patch lies in the text that it meets.
abbrev pub Applies : List Patch → List ℕ → Type 0
Applies [] doc = Unit
Applies (p ∷ patches) doc = (p.pos + p.del_count ≤ length doc) × Applies patches (patched p doc)

module _ {ℓ} {A : Type ℓ} where
  pub length-take : (n : ℕ) (xs : List A) → n ≤ length xs → length (take n xs) ≡ n
  length-take zero xs le = refl
  length-take (suc n) [] le = absurd (omega arith)
  length-take (suc n) (x ∷ xs) le = ap suc (length-take n xs (omega arith))

  pub length-drop : (n : ℕ) (xs : List A) → length (drop n xs) ≡ length xs - n
  length-drop zero xs = omega arith
  length-drop (suc n) [] = omega arith
  length-drop (suc n) (x ∷ xs) = omega (arith, length-drop n xs)

  pub length-insert_at : (i : ℕ) (c : A) (xs : List A) → length (insert_at i c xs) ≡ suc (length xs)
  length-insert_at zero c xs = refl
  length-insert_at (suc i) c [] = refl
  length-insert_at (suc i) c (x ∷ xs) = ap suc (length-insert_at i c xs)

  pub length-remove_at :
      (i : ℕ) (xs : List A) → i < length xs → suc (length (remove_at i xs)) ≡ length xs
  length-remove_at i [] lt = absurd (omega arith)
  length-remove_at zero (x ∷ xs) lt = refl
  length-remove_at (suc i) (x ∷ xs) lt = ap suc (length-remove_at i xs (omega arith))

  pub take-drop-insert_at :
      (i : ℕ) (c : A) (cs xs : List A)
      → i ≤ length xs
      → take (suc i) (insert_at i c xs) ++ (cs ++ drop (suc i) (insert_at i c xs))
        ≡ take i xs ++ ((c ∷ cs) ++ drop i xs)
  take-drop-insert_at zero c cs xs le = refl
  take-drop-insert_at (suc i) c cs [] le = absurd (omega arith)
  take-drop-insert_at (suc i) c cs (x ∷ xs) le =
      ap (◌∷◌ x) (take-drop-insert_at i c cs xs (omega arith))

  pub take-drop-remove_at :
      (i n : ℕ) (xs : List A)
      → i < length xs
      → take i (remove_at i xs) ++ drop (i + n) (remove_at i xs) ≡ take i xs ++ drop (i + suc n) xs
  take-drop-remove_at i n [] lt = absurd (omega arith)
  take-drop-remove_at zero n (x ∷ xs) lt =
      ap (λ m. drop m xs) zero_add ∙ ap (λ m. drop m (x ∷ xs)) (sym zero_add)
    where
      zero_add : {m : ℕ} → 0 + m ≡ m
      zero_add = omega arith
  take-drop-remove_at (suc i) n (x ∷ xs) lt =
      ap (λ m. x ∷ take i (remove_at i xs) ++ drop m (x ∷ remove_at i xs)) (suc_add n)
      ∙ ap (◌∷◌ x) (take-drop-remove_at i n xs (omega arith))
      ∙ ap (λ m. x ∷ take i xs ++ drop m (x ∷ xs)) (sym (suc_add (suc n)))
    where
      suc_add : (m : ℕ) → suc i + m ≡ suc (i + m)
      suc_add m = omega arith

pub length-replayed :
    (patches : List Patch) (doc : List ℕ)
    → Applies patches doc
    → length (replayed patches doc) + total_deletes patches ≡ length doc + total_inserts patches
unfolding total_inserts total_deletes
length-replayed [] doc fits = refl
length-replayed (p ∷ patches) doc (le, fits) = omega (
  arith,
  length-replayed patches (patched p doc) fits,
  length-take p.pos doc (omega (arith, le)),
  length-append (take p.pos doc) (p.inserted ++ drop (p.pos + p.del_count) doc),
  length-append p.inserted (drop (p.pos + p.del_count) doc),
  length-drop (p.pos + p.del_count) doc,
)

pub same_text_iff : (xs ys : List ℕ) → (same_text xs ys ≡ true) ↔ (xs ≡ ys)
unfolding same_text
same_text_iff [] [] = (λ e. refl, λ e. refl)
same_text_iff [] (y ∷ ys) = (λ e. cc e, λ e. cc e)
same_text_iff (x ∷ xs) [] = (λ e. cc e, λ e. cc e)
same_text_iff (x ∷ xs) (y ∷ ys) = ground (arith, same_text_iff xs ys)
