-- ===== src/Tree/Search.antt =====
-- shar/core/tree.rs, `find_crdt`: the ring search for an identity's row and column.
pub mod Ring
use mathlib.Core.Option
use shario.Prelude.{
  ℕ, zero, suc, ◌+◌, ◌-◌, Bool, true, false, ◌&&◌, ◌||◌, Option, none, some, List, [], ◌∷◌, ltb,
  leb, if◌then◌else◌, Identity, same, identity_eq, length, get_elem?,
}
use shario.Types.{Error, generic, out_of_bounds, error_eq, Result, ok, err, fault}
use shario.Tree.File.{Projection, SharFile, root}

-- `line.iter().position(|&item| item == (id, peer))`
unfoldable pub position : Identity → List Identity → Option ℕ
position k [] = none
position k (x ∷ xs) = if same x k then some 0 else Option.map suc (position k xs)

abbrev pub up_exhausted : Error
up_exhausted = out_of_bounds "up exhausted"

abbrev pub down_exhausted : Error
down_exhausted = out_of_bounds "down exhausted"

-- `self.projection[row]` searched for `k`; the row must exist.
unfoldable pub search_row : Projection → ℕ → Identity → Result (ℕ × ℕ)
search_row proj row k = elim (get_elem? proj row) [
  | none ↦ fault
  | some line ↦ elim (position k line) [
    | some index ↦ ok (row, index)
    | none ↦ err (generic "not found on line")
  ]
]

-- The closures of `find_crdt`; the second part is the new value of the captured offset.
unfoldable pub check_up : Projection → Identity → ℕ → ℕ → Result (ℕ × ℕ) × ℕ
unfolding search_row
check_up proj k line_num up_offset =
    if ltb line_num up_offset
    then (err up_exhausted, up_offset)
    else elim (search_row proj (line_num - up_offset) k) [
      | ok at ↦ (ok at, up_offset)
      | err e ↦ (err e, up_offset + 1)
      | fault ↦ (fault, up_offset)
    ]

unfoldable pub check_down : Projection → Identity → ℕ → ℕ → Result (ℕ × ℕ) × ℕ
unfolding search_row
check_down proj k line_num down_offset =
    if leb (length proj) (line_num + down_offset)
    then (err down_exhausted, down_offset)
    else elim (search_row proj (line_num + down_offset) k) [
      | ok at ↦ (ok at, down_offset)
      | err e ↦ (err e, down_offset + 1)
      | fault ↦ (fault, down_offset)
    ]

-- What the loop makes of a closure's result: return a position, or note whether the side is done.
unfoldable pub unless_found : Result (ℕ × ℕ) → Error → (Bool → Result (ℕ × ℕ)) → Result (ℕ × ℕ)
unless_found (ok at) limit next = ok at
unless_found (err e) limit next = next (error_eq e limit)
unless_found fault limit next = fault

-- The loop's test and body; `next` is the next round.
unfoldable pub ring_round :
    Bool → Result (ℕ × ℕ) → Result (ℕ × ℕ) → (Bool → Bool → Result (ℕ × ℕ)) → Result (ℕ × ℕ)
unfolding unless_found error_eq
ring_round true up down next = err (out_of_bounds "parent cannot be found")
ring_round false up down next =
    unless_found up up_exhausted λ u. unless_found down down_exhausted λ d. next u d

-- The `while` loop of `find_crdt`, on fuel.
unfoldable pub ring_search : ℕ → Projection → Identity → ℕ → ℕ → ℕ → Bool → Bool → Result (ℕ × ℕ)
unfolding ring_round check_up check_down
ring_search zero proj k line_num up down up_done down_done = fault
ring_search (suc fuel) proj k line_num up down up_done down_done =
    ring_round (up_done && down_done) (check_up proj k line_num up).0
      (check_down proj k line_num down).0
      λ u d.
        ring_search fuel proj k line_num (check_up proj k line_num up).1
          (check_down proj k line_num down).1 (up_done || u) (down_done || d)

unfoldable pub search_from : Projection → Identity → ℕ → List Identity → Result (ℕ × ℕ)
search_from proj k line_num line = elim (position k line) [
  | some index ↦ ok (line_num, index)
  | none ↦ ring_search (length proj + 2) proj k line_num 1 1 false false
]

unfoldable pub find_crdt : SharFile → ℕ → Identity → Result (ℕ × ℕ)
unfolding search_from
find_crdt f line_num k = if same k root then ok (0, 0) else elim (get_elem? f.projection line_num) [
  | some line ↦ search_from f.projection k line_num line
  | none ↦ elim (get_elem? f.projection 0) [
    | some line ↦ search_from f.projection k 0 line
    | none ↦ fault
  ]
]
