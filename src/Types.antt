-- ===== src/Types.antt =====
-- types.rs and shar/error.rs: CRDT nodes, the operations that move edits around, and the errors.
-- A `char` is its code point, a `PathBuf` the list of the components that its `iter` yields.
use shario.Prelude.{ℕ, String, Bool, false, Option, List, Identity, string_eq}

pub data Error : Type 0 where
  generic read_fail out_of_bounds : String → Error

unfoldable pub error_eq : Error → Error → Bool
error_eq (generic a) (generic b) = string_eq.beq a b
error_eq (read_fail a) (read_fail b) = string_eq.beq a b
error_eq (out_of_bounds a) (out_of_bounds b) = string_eq.beq a b
error_eq _ _ = false

-- A Rust `Result`, or `fault`: a panic, or a loop that does not end.
pub data Result {ℓ} (A : Type ℓ) : Type ℓ where
  ok : A → Result A
  err : Error → Result A
  fault : Result A

abbrev pub PathBuf : Type 0
PathBuf = List String

pub record CrdtRelation : Type 0 where
  pub value : ℕ
  pub parent_id : ℕ
  pub parent_peer : ℕ
  pub deleted : Bool

-- CrdtRelation::new
abbrev pub new_relation : ℕ → ℕ → ℕ → CrdtRelation
new_relation value parent_id parent_peer = record {
  value = value;
  parent_id = parent_id;
  parent_peer = parent_peer;
  deleted = false;
}

abbrev pub parent_of : CrdtRelation → Identity
parent_of r = (r.parent_id, r.parent_peer)

pub record Crdt : Type 0 where
  pub id : ℕ
  pub peer : ℕ
  pub relation : CrdtRelation

abbrev pub identity_of : Crdt → Identity
identity_of c = (c.id, c.peer)

pub record NetworkAdd : Type 0 where
  pub file_path : PathBuf
  pub crdt : Crdt
  pub row : ℕ

pub record Remove : Type 0 where
  pub file_path : PathBuf
  pub id : ℕ
  pub peer : ℕ
  pub row : ℕ

pub record IdeAdd : Type 0 where
  pub file_path : PathBuf
  pub parent_id : Option ℕ
  pub parent_peer : Option ℕ
  pub parent_tag : Option ℕ
  pub val : ℕ
  pub tag : ℕ
  pub line_hint : ℕ

pub data NetworkOp : Type 0 where
  add : NetworkAdd → NetworkOp
  remove : Remove → NetworkOp

pub record IdeAddConfirmed : Type 0 where
  pub tag : ℕ
  pub id : ℕ
  pub peer : ℕ

-- A message "join"
pub record Connect : Type 0 where
  pub local : Bool
  pub path : PathBuf
