-- ===== src/Tree/Insert/Tombstone.antt =====
-- shar/core/tree.rs, `add_crdt` and `add_line_to_projection`: a line break under a tombstoned parent.
use mathlib.Core.Option.{some-ne-none}
use shario.Prelude.{
  ℕ, suc, ◌+◌, ◌≤◌, true, false, none, some, List, [], ◌∷◌, Identity, length, take, drop, ◌≡◌, sym,
  ap, ◌∙◌, subst, arith, identity_eq,
}
use shario.Types.{CrdtRelation, Crdt, identity_of, parent_of, ok}
use shario.HashMap
use shario.Tree.File.{SharFile, root, Projection, is_line_break}
use shario.Tree.Insert.{
  add_at, add_crdt, add_row, add_line_to_projection, split_row, place_crdt, find_tombstone,
  parent_position, with_character,
}
use shario.Tree.Document.{IsWellFormed, Shape, breaks_line}

module _ (f : SharFile) (hint : ℕ) (crdt : Crdt) (col : ℕ) {par : CrdtRelation}
    (has_parent : HashMap.get (parent_of crdt.relation) f.characters ≡ some par)
    (dead : par.deleted ≡ true) (new : HashMap.get (identity_of crdt) f.characters ≡ none)
    (climbed : find_tombstone (suc (length f.characters)) f hint (parent_of crdt.relation)
      ≡ ok (0, col)) where
  add_crdt-climbed : add_crdt f hint crdt ≡ place_crdt (with_character f crdt) crdt false (0, col)
  unfolding add_crdt add_at parent_position
  add_crdt-climbed = ground arith

add_zero : (n : ℕ) → n + 0 ≡ n
add_zero n = omega arith

split_row-first :
    (x : Identity) (xs : List Identity) (rows : Projection) (col : ℕ) (k : Identity)
    → col ≤ length (x ∷ xs)
    → split_row ((x ∷ xs) ∷ rows) (x ∷ xs) 0 col 0 k
      ≡ ok ((k ∷ drop col (x ∷ xs)) ∷ take col (x ∷ xs) ∷ rows)
unfolding split_row
split_row-first x xs rows col k lt = ground (arith, add_zero col)

place_crdt-first :
    (f : SharFile) (crdt : Crdt) (x : Identity) (xs : List Identity) (rows : Projection) (col : ℕ)
    → is_line_break crdt.relation.value ≡ true
    → f.projection ≡ (x ∷ xs) ∷ rows
    → col ≤ length (x ∷ xs)
    → (place_crdt f crdt false (0, col)).0.projection
      ≡ (identity_of crdt ∷ drop col (x ∷ xs)) ∷ take col (x ∷ xs) ∷ rows
unfolding place_crdt add_line_to_projection add_row
place_crdt-first f crdt x xs rows col breaks e lt =
    ground (arith, split_row-first x xs rows col (identity_of crdt) lt)

-- In a well-formed file whose first row is `first`, under a tombstoned parent whose place is column
-- `col` of that row: a new line break opens a row above the characters that stood before it, which
-- then follow what stood behind them. The first row no longer begins with the sentinel, so that the
-- file is not well formed any more.
pub break_under_tombstone-displaces :
    (f : SharFile) (hint : ℕ) (crdt : Crdt) (first : List Identity) (rows : Projection) (col : ℕ)
    {par : CrdtRelation}
    → IsWellFormed f
    → HashMap.get (parent_of crdt.relation) f.characters ≡ some par
    → par.deleted ≡ true
    → HashMap.get (identity_of crdt) f.characters ≡ none
    → is_line_break crdt.relation.value ≡ true
    → f.projection ≡ first ∷ rows
    → col ≤ length first
    → find_tombstone (suc (length f.characters)) f hint (parent_of crdt.relation) ≡ ok (0, col)
    → ((add_crdt f hint crdt).0.projection
        ≡ (identity_of crdt ∷ drop col first) ∷ take col first ∷ rows)
      × ¬ IsWellFormed (add_crdt f hint crdt).0
unfolding with_character
break_under_tombstone-displaces f hint crdt first rows col v has_parent dead new breaks shape lt
      climbed =
    by_row first shape lt
  where
    displaced :
        (x : Identity) (xs : List Identity)
        → f.projection ≡ (x ∷ xs) ∷ rows
        → col ≤ length (x ∷ xs)
        → (add_crdt f hint crdt).0.projection
          ≡ (identity_of crdt ∷ drop col (x ∷ xs)) ∷ take col (x ∷ xs) ∷ rows
    displaced x xs e le =
        ap (λ r. r.0.projection) (add_crdt-climbed f hint crdt col has_parent dead new climbed)
        ∙ place_crdt-first (with_character f crdt) crdt x xs rows col breaks e le

    by_row :
        (l : List Identity)
        → f.projection ≡ l ∷ rows
        → col ≤ length l
        → ((add_crdt f hint crdt).0.projection
            ≡ (identity_of crdt ∷ drop col l) ∷ take col l ∷ rows)
          × ¬ IsWellFormed (add_crdt f hint crdt).0
    by_row [] e le = absurd (subst (Shape (breaks_line f.characters)) e v.shape).0
    by_row (x ∷ xs) e le = (
      displaced x xs e le,
      λ w.
          let first_is_root : identity_of crdt ≡ root =
            (subst (Shape (breaks_line (add_crdt f hint crdt).0.characters)) (displaced x xs e le)
              w.shape).0.0 in
          some-ne-none _
            (sym v.sentinel ∙ ap (λ j. HashMap.get j f.characters) (sym first_is_root) ∙ new),
    )
