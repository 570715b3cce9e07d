-- ===== src/Tree/Document/Found.antt =====
-- shar/core/tree.rs, `find_crdt` on a well-formed file, from any hint.
use shario.Prelude.{
  ℕ, zero, suc, ◌<◌, Option, none, some, List, [], ◌∷◌, Identity, length, get_elem?, ◌≡◌, ◌≢◌, refl,
  ap, ◌∙◌, sym, arith, identity_eq, inl, inr, ◌⊎◌, subst, length-append, inl, inr, ◌⊎◌, subst,
  length-append,
}
use shario.Types.{CrdtRelation, ok, err, out_of_bounds}
use shario.HashMap
use shario.Tree.File.{SharFile, root, Projection}
use shario.Tree.Search.{find_crdt}
use shario.Tree.Search.Ring.{find_crdt-located, find_crdt-Absent}
use shario.Tree.Document.{
  live_count, IsWellFormed, Shape, Place, place_of_count, Absent-of_count, get_elem?-middle,
  breaks_line,
}

-- A live identity stands at one place, where each hint finds it; any other is not found.
abbrev pub FindOutcome : SharFile → Identity → ℕ → Type 0
FindOutcome f k zero =
    (hint : ℕ) → find_crdt f hint k ≡ err (out_of_bounds "parent cannot be found")
FindOutcome f k (suc n) =
    (r : ℕ) × (c : ℕ) × (line : List Identity) × (get_elem? f.projection r ≡ some line)
    × (get_elem? line c ≡ some k)
    × ((hint : ℕ) → find_crdt f hint k ≡ ok (r, c))

length-pos :
    (f : SharFile) (rows : Projection) → Shape (breaks_line f.characters) rows → 0 < length rows
length-pos f [] s = absurd s
length-pos f (first ∷ rows) s = omega arith

live_count-cases : (o : Option CrdtRelation) → (live_count o ≡ 0) ⊎ (live_count o ≡ 1)
live_count-cases none = inl refl
live_count-cases (some r) = ground arith

-- In a well-formed file, an identity other than the root sentinel that is known and not deleted stands
-- at a row and a column where the search finds it whatever hint it starts from, and any other identity,
-- a tombstone or an unknown one, is an error whatever the hint.
pub find_crdt-any_hint :
    (f : SharFile) (k : Identity)
    → IsWellFormed f
    → k ≢ root
    → FindOutcome f k (live_count (HashMap.get k f.characters))
find_crdt-any_hint f k v not_root = elim (live_count-cases (HashMap.get k f.characters)) [
  | inl gone ↦ subst (FindOutcome f k) (sym gone) (λ hint.
      find_crdt-Absent f k not_root hint (Absent-of_count k f.projection (v.counts k ∙ gone))
        (length-pos f f.projection v.shape))
  | inr live ↦
      subst (FindOutcome f k) (sym live) (found (place_of_count k f.projection (v.counts k ∙ live)))
]
  where
    found : Place k f.projection → FindOutcome f k 1
    found p = (
      p.row,
      p.col,
      p.line,
      rw (p.whole, sym p.at_row) (get_elem?-middle p.above p.line p.below),
      rw (p.parts.whole, sym p.parts.column) (get_elem?-middle p.parts.front k p.parts.back),
      λ hint.
          find_crdt-located f k not_root hint p.row p.col p.located
            (omega (arith, ap length p.whole, length-append p.above (p.line ∷ p.below), p.at_row)),
    )
