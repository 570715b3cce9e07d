-- ===== src/Tree/Insert/Live/Steps.antt =====
-- shar/core/tree.rs, `add_crdt`: lemmas on the lists that it splits and inserts into.
use shario.Prelude.{
  ℕ, ◌+◌, ◌<◌, Bool, true, some, List, [], ◌∷◌, ◌++◌, Identity, same_iff, same_refl, All, ◌≡◌, refl,
  ap, ◌∙◌, arith, identity_eq, length, insert_at, set, take, drop, ◌≤◌, length-append,
}
use native.Mathlib.Numerals.{add-one}
use shario.Types.{ok}
use shario.Tree.File.{Projection, root}
use shario.Tree.Search.{position}
use shario.Tree.Search.Ring.{column_in}
use shario.Tree.Insert.{Slot, element, at_end, nowhere, split_row, add_line_to_projection}
use shario.Tree.Document.{count, Plain, FirstRow, Anchored, Shape, get_elem?-middle, set-middle}
use shario.Tree.Document.Rows.{FirstRow-tail, Anchored-tail}

pub All-known :
    (P : Identity → Type 0) (xs : List Identity)
    → ((j : Identity) → 0 < count j xs → P j)
    → All P xs
All-known P [] h = tt
All-known P (x ∷ xs) h =
    (h x (ground (arith, same_refl x)), All-known P xs (λ j lt. h j (omega arith)))

pub Shape-root :
    (b : Identity → Bool) (proj : Projection) → Shape b proj → column_in proj 0 root ≡ some 0
unfolding position
Shape-root b [] h = absurd h
Shape-root b ([] ∷ rows) h = absurd h.0
Shape-root b ((x ∷ xs) ∷ rows) h = ground (arith, same_iff x root)

module _ {ℓ} {A : Type ℓ} where
  pub take-next :
      (xs : List A) (y : A) (ys : List A) → take (length xs + 1) (xs ++ y ∷ ys) ≡ xs ++ y ∷ []
  take-next [] y ys = refl
  take-next (x ∷ xs) y ys = rw add-one (ap (◌∷◌ x) (rw add-one at (take-next xs y ys)))

  pub drop-next : (xs : List A) (y : A) (ys : List A) → drop (length xs + 1) (xs ++ y ∷ ys) ≡ ys
  drop-next [] y ys = refl
  drop-next (x ∷ xs) y ys = rw add-one (rw add-one at (drop-next xs y ys))

  pub insert_at-next :
      (xs : List A) (y z : A) (ys : List A)
      → insert_at (length xs + 1) z (xs ++ y ∷ ys) ≡ xs ++ y ∷ z ∷ ys
  insert_at-next [] y z ys = refl
  insert_at-next (x ∷ xs) y z ys =
      rw add-one (ap (◌∷◌ x) (rw add-one at (insert_at-next xs y z ys)))

pub split_row_lem :
    (proj : Projection) (line : List Identity) (row col : ℕ) (k : Identity)
    → col + 1 ≤ length line
    → split_row proj line row col 1 k
      ≡ ok (insert_at (row + 1) (k ∷ drop (col + 1) line) (set proj row (take (col + 1) line)))
unfolding split_row
split_row_lem proj [] row col k h = absurd (omega arith)
split_row_lem proj (x ∷ xs) row col k h = ground arith

pub add_line-middle :
    (proj above below : Projection) (front back : List Identity) (p k : Identity)
    → proj ≡ above ++ (front ++ p ∷ back) ∷ below
    → add_line_to_projection proj (length above, length front) k true
      ≡ ok (above ++ (front ++ p ∷ []) ∷ (k ∷ back) ∷ below)
unfolding add_line_to_projection
add_line-middle proj above below front back p k e =
    ap (λ q. add_line_to_projection q (length above, length front) k true) e
    ∙ rw (get_elem?-middle above (front ++ p ∷ back) below, add_line_to_projection)
        (split_row_lem _ (front ++ p ∷ back) (length above) (length front) k
            (omega (arith, length-append front (p ∷ back)))
          ∙ rw (
            take-next front p back,
            drop-next front p back,
            set-middle above,
            insert_at-next above,
          ))

pub row_grown :
    (b : Identity → Bool) (p : Identity) (back back' : List Identity)
    → (All (Plain b) back → All (Plain b) back')
    → (front : List Identity)
    → ((FirstRow b (front ++ p ∷ back) → FirstRow b (front ++ p ∷ back'))
        × (Anchored b (front ++ p ∷ back) → Anchored b (front ++ p ∷ back')))
row_grown b p back back' f [] = (λ h. (h.0, f h.1), λ h. (h.0, f h.1))
row_grown b p back back' f (x ∷ xs) = (
  FirstRow-tail b x xs (p ∷ back) (p ∷ back') (λ h. (h.0, f h.1)),
  Anchored-tail b x xs (p ∷ back) (p ∷ back') (λ h. (h.0, f h.1)),
)

abbrev pub slot_column : Slot → List Identity → ℕ
slot_column (element q) line = q
slot_column (at_end q) line = length line
slot_column nowhere line = 0
