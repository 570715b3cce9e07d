-- ===== src/Tree/Delete.antt =====
-- shar/core/tree.rs, `remove_crdt`: tombstones, and lines merged when their anchor goes.
pub mod Erase
use mathlib.Core.Option
use shario.Prelude.{
  ℕ, zero, suc, ◌+◌, ◌-◌, Bool, true, false, ◌&&◌, ◌||◌, not, Option, none, some, List, [], ◌∷◌,
  ◌++◌, ltb, leb, ◌==◌, if◌then◌else◌, Identity, same, identity_eq, length, get_elem?, take, drop,
  set, insert_at, remove_at,
}
use shario.Types.{
  Error, generic, read_fail, out_of_bounds, error_eq, Result, ok, err, fault, PathBuf, CrdtRelation,
  new_relation, parent_of, Crdt, identity_of,
}
use shario.HashMap
use shario.Tree.File.{is_line_break, Projection, Characters, SharFile, root}
use shario.Tree.Search.{find_crdt}

-- `val.deleted = true`
abbrev pub tombstoned : CrdtRelation → CrdtRelation
tombstoned r = record r { deleted = true }

abbrev pub Removed : Type 0
Removed = SharFile × Result (Option (ℕ × ℕ))

-- A row without its anchor is appended to the row above; row 0 has none above.
unfoldable pub merge_row : SharFile → ℕ → List Identity → Removed
merge_row f row [] = (f, fault)
merge_row f zero (anchor ∷ rest) = (f, fault)
merge_row f (suc above) (anchor ∷ rest) = elim (get_elem? f.projection above) [
  | none ↦ (f, fault)
  | some line ↦ (
    record f { projection = remove_at (suc above) (set f.projection above (line ++ rest)) },
    ok (some (suc above, 0)),
  )
]

unfoldable pub remove_anchor : SharFile → Result (ℕ × ℕ) → Removed
unfolding merge_row
remove_anchor f (err e) = (f, err (generic "anchor not found"))
remove_anchor f fault = (f, fault)
remove_anchor f (ok (row, col)) = elim (get_elem? f.projection row) [
  | none ↦ (f, err (generic "character does not exist to be deleted"))
  | some line ↦ merge_row f row line
]

unfoldable pub remove_cell : SharFile → Result (ℕ × ℕ) → Removed
remove_cell f (err e) = (f, err (generic "crdt not found"))
remove_cell f fault = (f, fault)
remove_cell f (ok (row, col)) = elim (get_elem? f.projection row) [
  | none ↦ (f, fault)
  | some line ↦
      if ltb col (length line)
      then (
        record f { projection = set f.projection row (remove_at col line) },
        ok (some (row, col)),
      )
      else (f, fault)
]

unfoldable pub with_tombstone : SharFile → Identity → SharFile
with_tombstone f k = record f { characters = HashMap.modify k tombstoned f.characters }

unfoldable pub remove_crdt : SharFile → ℕ → Identity → Removed
unfolding with_tombstone remove_anchor remove_cell
remove_crdt f line_num k = elim (HashMap.get k f.characters) [
  | none ↦ (f, err (generic "crdt cannot be found"))
  | some val ↦
      if val.deleted
      then (f, ok none)
      else if is_line_break val.value
      then remove_anchor (with_tombstone f k) (find_crdt (with_tombstone f k) line_num k)
      else remove_cell (with_tombstone f k) (find_crdt (with_tombstone f k) line_num k)
]
