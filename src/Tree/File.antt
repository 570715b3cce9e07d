-- ===== src/Tree/File.antt =====
-- shar/core/tree.rs, `SharFile`: one file's characters by identity, and their lines and columns.
use mathlib.Core.Option
use shario.Prelude.{
  ℕ, zero, suc, ◌-◌, Bool, ◌||◌, Option, none, some, List, [], ◌∷◌, leb, ◌==◌, if◌then◌else◌,
  Identity, identity_eq, length, get_elem?,
}
use shario.Types.{Result, ok, err, fault, PathBuf, CrdtRelation}
use shario.HashMap
use shario.HashMap.{HashMap}

-- '\n', '\r', '\u{0B}', '\u{0C}', '\u{85}', '\u{2028}', '\u{2029}'
unfoldable pub is_line_break : ℕ → Bool
is_line_break c =
    c == 10 || c == 13 || c == 0x0B || c == 0x0C || c == 0x85 || c == 0x2028 || c == 0x2029

abbrev pub Projection : Type 0
Projection = List (List Identity)

abbrev pub Characters : Type 0
Characters = HashMap Identity CrdtRelation

pub record SharFile : Type 0 where
  pub file_path : PathBuf
  pub characters : Characters
  pub projection : Projection

abbrev pub root : Identity
root = (0, 0)

-- `_get_id_peer`; `self.projection.len() - 1` underflows on a projection with no row.
unfoldable pub get_id_peer : SharFile → ℕ × ℕ → Result (Option Identity)
get_id_peer f (row, col) = elim f.projection [
  | [] ↦ fault
  | first ∷ rest ↦
      if leb row (length (first ∷ rest) - 1)
      then elim (get_elem? (first ∷ rest) row) [
        | some line ↦ ok (get_elem? line col)
        | none ↦ fault
      ]
      else ok none
]

unfoldable pub last : List Identity → Option Identity
last [] = none
last (x ∷ []) = some x
last (x ∷ y ∷ ys) = last (y ∷ ys)

unfoldable pub predecessor_identity : SharFile → ℕ × ℕ → Option Identity
unfolding last
predecessor_identity f (row, suc col) =
    Option.bind (get_elem? f.projection row) (λ line. get_elem? line col)
predecessor_identity f (zero, zero) = none
predecessor_identity f (suc row, zero) = Option.bind (get_elem? f.projection row) last

unfoldable pub full_state : SharFile → Characters
full_state f = HashMap.remove root f.characters

-- A line with the character of each identity; `self.characters[&(id, peer)]` must be there.
unfoldable pub line_values : Characters → List Identity → Result (List (Identity × ℕ))
line_values chars [] = ok []
line_values chars (k ∷ ks) = elim (HashMap.get k chars) [
  | none ↦ fault
  | some relation ↦ elim (line_values chars ks) [
    | ok rest ↦ ok ((k, relation.value) ∷ rest)
    | err e ↦ err e
    | fault ↦ fault
  ]
]

unfoldable pub lines_values : Characters → Projection → Result (List (List (Identity × ℕ)))
unfolding line_values
lines_values chars [] = ok []
lines_values chars (line ∷ lines) = elim (line_values chars line) [
  | err e ↦ err e
  | fault ↦ fault
  | ok first ↦ elim (lines_values chars lines) [
    | ok rest ↦ ok (first ∷ rest)
    | err e ↦ err e
    | fault ↦ fault
  ]
]

unfoldable pub identities_with_values : SharFile → Result (List (List (Identity × ℕ)))
unfolding lines_values
identities_with_values f = lines_values f.characters f.projection
