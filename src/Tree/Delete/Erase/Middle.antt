-- ===== src/Tree/Delete/Erase/Middle.antt =====
-- shar/core/tree.rs, `remove_crdt`: a row in the middle of a projection, a cell in the middle of a row.
use shario.Prelude.{
  ℕ, suc, Bool, true, false, some, List, [], ◌∷◌, ◌++◌, Identity, ◌≡◌, refl, ap, arith, identity_eq,
  length, get_elem?, set, remove_at, length-append,
}
use shario.Types.{ok}
use shario.Tree.File.{Projection, SharFile}
use shario.Tree.Delete.{remove_anchor, remove_cell}
use shario.Tree.Document.{get_elem?-middle, set-middle, remove_at-middle}

module _ {ℓ} {A : Type ℓ} where
  pub get_elem?-next :
      (xs : List A) (x y : A) (ys : List A)
      → get_elem? (xs ++ x ∷ y ∷ ys) (suc (length xs)) ≡ some y
  get_elem?-next [] x y ys = refl
  get_elem?-next (z ∷ xs) x y ys = get_elem?-next xs x y ys

  pub remove_at-next :
      (xs : List A) (x y : A) (ys : List A)
      → remove_at (suc (length xs)) (xs ++ x ∷ y ∷ ys) ≡ xs ++ x ∷ ys
  remove_at-next [] x y ys = refl
  remove_at-next (z ∷ xs) x y ys = ap (◌∷◌ z) (remove_at-next xs x y ys)

pub remove_cell-middle :
    (g : SharFile) (above below : Projection) (front back : List Identity) (k : Identity)
    → g.projection ≡ above ++ (front ++ k ∷ back) ∷ below
    → remove_cell g (ok (length above, length front)) ≡ (
      record g { projection = above ++ (front ++ back) ∷ below },
      ok (some (length above, length front)),
    )
unfolding remove_cell
remove_cell-middle g above below front back k e = ground (
  arith,
  ap (λ p. get_elem? p (length above)) e,
  get_elem?-middle above (front ++ k ∷ back) below,
  ap (λ p. set p (length above) (front ++ back)) e,
  set-middle above (front ++ k ∷ back) (front ++ back) below,
  remove_at-middle front k back,
  length-append front (k ∷ back),
)

-- The row of an anchor joins the row above it.
pub remove_anchor-middle :
    (g : SharFile) (above below : Projection) (line back : List Identity) (k : Identity) (col : ℕ)
    → g.projection ≡ above ++ line ∷ (k ∷ back) ∷ below
    → remove_anchor g (ok (suc (length above), col)) ≡ (
      record g { projection = above ++ (line ++ back) ∷ below },
      ok (some (suc (length above), 0)),
    )
unfolding remove_anchor
remove_anchor-middle g above below line back k col e = ground (
  arith,
  ap (λ p. get_elem? p (suc (length above))) e,
  ap (λ p. get_elem? p (length above)) e,
  ap (λ p. remove_at (suc (length above)) (set p (length above) (line ++ back))) e,
  get_elem?-middle above line ((k ∷ back) ∷ below),
  get_elem?-next above line (k ∷ back) below,
  set-middle above line (line ++ back) ((k ∷ back) ∷ below),
  remove_at-next above (line ++ back) (k ∷ back) below,
)

pub true_or_false : {x : Bool} → x ≡ false → x ≡ true → ⊥
true_or_false p q = cc
