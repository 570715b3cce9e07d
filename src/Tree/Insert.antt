-- ===== src/Tree/Insert.antt =====
-- shar/core/tree.rs, `add_crdt`, with the place among siblings and under a tombstoned parent.
pub mod Order
pub mod Grown
pub mod Live
pub mod Siblings
pub mod Concurrent
pub mod Interleaved
pub mod Tombstone
pub mod Climb
pub mod Under
pub mod Breaks
use mathlib.Core.Option
use shario.Prelude.{
  ℕ, zero, suc, ◌+◌, ◌-◌, Bool, true, false, ◌&&◌, ◌||◌, not, Option, none, some, List, [], ◌∷◌,
  ◌++◌, ltb, leb, ◌==◌, if◌then◌else◌, Identity, same, identity_eq, length, get_elem?, take, drop,
  set, insert_at, remove_at,
}
use shario.Types.{
  Error, generic, read_fail, out_of_bounds, error_eq, Result, ok, err, fault, PathBuf, CrdtRelation,
  new_relation, parent_of, Crdt, identity_of,
}
use shario.HashMap
use shario.Tree.File.{is_line_break, Projection, Characters, SharFile, root}
use shario.Tree.Search.{find_crdt}

-- The branches in the body of the loops that look for a place among the siblings: whether `k`,
-- a child of `parent`, goes before the element `next`.
unfoldable pub goes_before : Identity → Identity → Identity → CrdtRelation → Bool
goes_before parent k next info =
    if not (same (parent_of info) parent)
    then true
    else if ltb next.0 k.0
    then true
    else if next.0 == k.0
    then not (ltb next.1 k.1)
    else false

-- Where such a loop stops: at an element, at the end of the line, or not at all.
pub data Slot : Type 0 where
  element at_end : ℕ → Slot
  nowhere : Slot

-- `for j in start..range`, with the rounds that are left.
unfoldable pub scan : Characters → List Identity → Identity → Identity → ℕ → ℕ → ℕ → Result Slot
scan chars line parent k offset zero j = ok nowhere
scan chars line parent k offset (suc rounds) j =
    let rest = scan chars line parent k offset rounds (j + 1) in
    elim (get_elem? line (j + offset)) [
      | none ↦ ok (at_end (j + offset))
      | some next ↦ elim (HashMap.get next chars) [
        | none ↦ fault
        | some info ↦ if goes_before parent k next info then ok (element (j + offset)) else rest
      ]
    ]

-- The end of `find_tombstone`: from `coordinates`, with `offset`, up to the line's length + `extra`.
slot_position : ℕ → Result Slot → Result (ℕ × ℕ)
slot_position row (ok (element p)) = ok (row, p)
slot_position row (ok (at_end p)) = ok (row, p)
slot_position row (ok nowhere) = ok (0, 0)
slot_position row (err e) = err e
slot_position row fault = fault

pub tombstone_slot : SharFile → Identity → CrdtRelation → ℕ → ℕ → Result (ℕ × ℕ) → Result (ℕ × ℕ)
unfolding scan goes_before slot_position
tombstone_slot f k relation offset extra (ok (row, col)) = elim (get_elem? f.projection row) [
  | none ↦ fault
  | some line ↦
      slot_position row
        (scan f.characters line (parent_of relation) k offset (length line + extra - col) col)
]
tombstone_slot f k relation offset extra (err e) = err e
tombstone_slot f k relation offset extra fault = fault

abbrev tombstone_not_found : Error
tombstone_not_found = generic "tombstone not found"

-- On fuel: the climb takes a step for each tombstoned ancestor.
unfoldable pub find_tombstone : ℕ → SharFile → ℕ → Identity → Result (ℕ × ℕ)
unfolding tombstone_slot
find_tombstone zero f line_num k = fault
find_tombstone (suc fuel) f line_num k = elim (HashMap.get k f.characters) [
  | none ↦ err tombstone_not_found
  | some relation ↦ elim (HashMap.get (parent_of relation) f.characters) [
    | none ↦ err tombstone_not_found
    | some parent ↦ elim parent.deleted [
      | true ↦ tombstone_slot f k relation 0 1 (find_tombstone fuel f line_num (parent_of relation))
      | false ↦
          if same (parent_of relation) root
          then tombstone_slot f k relation 0 1 (ok (0, 0))
          else tombstone_slot f k relation 1 0 (find_crdt f line_num (parent_of relation))
    ]
  ]
]

abbrev parent_not_found : Error
parent_not_found = out_of_bounds "parent could not be found"

-- `(id, peer)` in front of the columns of a row from `col` on, as a row of its own.
unfoldable pub split_row : Projection → List Identity → ℕ → ℕ → ℕ → Identity → Result Projection
split_row proj [] row col offset k = ok (insert_at (row + offset) (k ∷ []) proj)
split_row proj (x ∷ xs) row col offset k =
    if leb (col + offset) (length (x ∷ xs))
    then ok (
        insert_at (row + offset) (k ∷ drop (col + offset) (x ∷ xs))
          (set proj row (take (col + offset) (x ∷ xs))))
    else fault

unfoldable pub add_line_to_projection : Projection → ℕ × ℕ → Identity → Bool → Result Projection
unfolding split_row
add_line_to_projection proj (row, col) k parent_real = elim (get_elem? proj row) [
  | none ↦ fault
  | some line ↦ split_row proj line row col (if parent_real then 1 else 0) k
]

abbrev pub Added : Type 0
Added = SharFile × Result (Option (ℕ × ℕ))

unfoldable pub add_row : SharFile → ℕ → Result Projection → Added
add_row f row (ok proj) = (record f { projection = proj }, ok (some (row + 1, 0)))
add_row f row (err e) = (f, err e)
add_row f row fault = (f, fault)

-- The insertion into a line, once the loop has found the slot.
unfoldable pub fill_slot : SharFile → ℕ → List Identity → Identity → Result Slot → Added
fill_slot f row line k (ok (element p)) =
    (record f { projection = set f.projection row (insert_at p k line) }, ok (some (row, p)))
fill_slot f row line k (ok (at_end p)) =
    (record f { projection = set f.projection row (line ++ k ∷ []) }, ok (some (row, length line)))
fill_slot f row line k (ok nowhere) = (f, ok none)
fill_slot f row line k (err e) = (f, err e)
fill_slot f row line k fault = (f, fault)

-- `add_crdt` from the `HashMap`'s insertion on; `live`: the parent is not tombstoned.
unfoldable pub place_crdt : SharFile → Crdt → Bool → ℕ × ℕ → Added
unfolding add_row fill_slot add_line_to_projection scan goes_before
place_crdt f crdt live (row, col) =
    if is_line_break crdt.relation.value
    then add_row f row (add_line_to_projection f.projection (row, col) (identity_of crdt) live)
    else elim (get_elem? f.projection row) [
      | none ↦ (f, fault)
      | some line ↦ fill_slot f row line (identity_of crdt) (
          scan f.characters line (parent_of crdt.relation) (identity_of crdt)
            (if live then 1 else 0) (length line + (if live then 0 else 1) - col) col)
    ]

unfoldable pub with_character : SharFile → Crdt → SharFile
with_character f crdt = record f {
  characters = HashMap.insert (identity_of crdt) crdt.relation f.characters;
}

unfoldable pub add_at : SharFile → Crdt → Bool → Result (ℕ × ℕ) → Added
unfolding with_character place_crdt
add_at f crdt live (ok coordinates) = place_crdt (with_character f crdt) crdt live coordinates
add_at f crdt live (err e) = (f, err parent_not_found)
add_at f crdt live fault = (f, fault)

-- The climb from a tombstone has fewer steps than there are characters.
unfoldable pub parent_position : SharFile → ℕ → Crdt → Bool → Result (ℕ × ℕ)
parent_position f line_num crdt live =
    let climbed = find_tombstone (suc (length f.characters)) f line_num (parent_of crdt.relation) in
    if live then find_crdt f line_num (parent_of crdt.relation) else climbed

unfoldable pub add_crdt : SharFile → ℕ → Crdt → Added
unfolding add_at parent_position
add_crdt f line_num crdt = elim (HashMap.get (parent_of crdt.relation) f.characters) [
  | none ↦ (f, err (generic "Parent does not exist"))
  | some par ↦ elim (HashMap.get (identity_of crdt) f.characters) [
    | some _ ↦ (f, ok none)
    | none ↦ add_at f crdt (not par.deleted) (parent_position f line_num crdt (not par.deleted))
  ]
]
