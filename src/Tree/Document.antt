-- ===== src/Tree/Document.antt =====
-- shar/core/tree.rs: a file as one sequence of identities, row after row, each line break standing
-- at the head of the row that it opens; and what every operation keeps of a file.
pub mod Rows
pub mod Found
use shario.Prelude.{
  ℕ, zero, suc, ◌+◌, ◌<◌, Bool, true, false, Option, none, some, List, [], ◌∷◌, ◌++◌, ◌==◌, ==_iff,
  if◌then◌else◌, Identity, same, same_iff, same_refl, length, get_elem?, set, insert_at, remove_at,
  take, drop, All, ◌↔◌, concat, ◌≡◌, ◌≢◌, ◌⊎◌, refl, ap, ◌∙◌, sym, arith, Bool-cases, inl, inr,
  append_assoc, identity_eq,
}
use shario.Types.{CrdtRelation, new_relation, parent_of}
use shario.HashMap
use shario.Tree.File.{is_line_break, Projection, Characters, SharFile, root}
use shario.Tree.Search.{position}
use shario.Tree.Search.Ring.{column_in, LocatedAt, Absent, lt-length}

-- The identities of a file in the order of its text, line breaks included.
abbrev pub document : SharFile → List Identity
document f = concat f.projection

abbrev pub count : Identity → List Identity → ℕ
count k [] = 0
count k (x ∷ xs) = (if same x k then 1 else 0) + count k xs

abbrev pub live_count : Option CrdtRelation → ℕ
live_count none = 0
live_count (some r) = if r.deleted then 0 else 1

unfoldable pub breaks_line : Characters → Identity → Bool
breaks_line chars k = elim (HashMap.get k chars) [ some r ↦ is_line_break r.value | none ↦ false ]

abbrev pub Plain : (Identity → Bool) → Identity → Type 0
Plain breaks k = breaks k ≡ false

-- The first row: the root sentinel, and characters that are no line breaks.
abbrev pub FirstRow : (Identity → Bool) → List Identity → Type 0
FirstRow breaks [] = ⊥
FirstRow breaks (first ∷ cells) = (first ≡ root) × All (Plain breaks) cells

-- A row below the first: a line break, and characters that are none.
abbrev pub Anchored : (Identity → Bool) → List Identity → Type 0
Anchored breaks [] = ⊥
Anchored breaks (anchor ∷ cells) = (breaks anchor ≡ true) × All (Plain breaks) cells

abbrev pub Shape : (Identity → Bool) → Projection → Type 0
Shape breaks [] = ⊥
Shape breaks (first ∷ rows) = FirstRow breaks first × All (Anchored breaks) rows

-- Each entry but the root's is younger than its parent's; no key stands twice.
abbrev pub Rooted : Characters → Type 0
Rooted [] = Unit
Rooted ((k, r) ∷ m) =
    (HashMap.get k m ≡ none)
    × ((k ≡ root) ⊎ ((p : CrdtRelation) × (HashMap.get (parent_of r) m ≡ some p)))
    × Rooted m

pub record IsWellFormed (f : SharFile) : Type 0 where
  pub shape : Shape (breaks_line f.characters) f.projection
  pub counts : (k : Identity) → count k (document f) ≡ live_count (HashMap.get k f.characters)
  pub rooted : Rooted f.characters
  pub sentinel : HashMap.get root f.characters ≡ some (new_relation 0 0 0)

pub count-append :
    (k : Identity) (xs ys : List Identity) → count k (xs ++ ys) ≡ count k xs + count k ys
count-append k [] ys = omega arith
count-append k (x ∷ xs) ys = omega (arith, count-append k xs ys)

pub position-absent :
    (k : Identity) (line : List Identity) → count k line ≡ 0 → position k line ≡ none
unfolding position
position-absent k [] h = refl
position-absent k (x ∷ xs) h = ground (arith, position-absent k xs)

-- A list parted at the first occurrence of `k`.
pub record Parts (k : Identity) (line : List Identity) (c : ℕ) : Type 0 where
  pub front : List Identity
  pub back : List Identity
  pub whole : line ≡ front ++ k ∷ back
  pub column : length front ≡ c
  pub fresh : count k front ≡ 0

pub position-present :
    (k : Identity) (line : List Identity)
    → 0 < count k line
    → (c : ℕ) × (position k line ≡ some c) × Parts k line c
unfolding position
position-present k [] h = absurd (omega arith)
position-present k (x ∷ xs) h = elim (Bool-cases (same x k)) [
  | inl e ↦ (
    0,
    rw e,
    record {
      front = [];
      back = xs;
      whole = ap (λ y. y ∷ xs) ((same_iff x k).0 e);
      column = refl;
      fresh = refl;
    },
  )
  | inr ne ↦
      let (c, p, parts) = position-present k xs (ground arith) in
      (
        suc c,
        rw (ne, p),
        record {
          front = x ∷ parts.front;
          back = parts.back;
          whole = ap (◌∷◌ x) parts.whole;
          column = ap suc parts.column;
          fresh = rw ne (omega (arith, parts.fresh));
        },
      )
]

pub Absent-of_count : (k : Identity) (proj : Projection) → count k (concat proj) ≡ 0 → Absent proj k
Absent-of_count k [] h i = refl
Absent-of_count k (line ∷ rows) h zero =
    position-absent k line (omega (arith, count-append k line (concat rows)))
Absent-of_count k (line ∷ rows) h (suc i) =
    Absent-of_count k rows (omega (arith, count-append k line (concat rows))) i

-- The row and the column of the one occurrence of `k`, with all that stands around it.
pub record Place (k : Identity) (proj : Projection) : Type 0 where
  pub row : ℕ
  pub col : ℕ
  pub above : Projection
  pub line : List Identity
  pub below : Projection
  pub whole : proj ≡ above ++ line ∷ below
  pub at_row : length above ≡ row
  pub parts : Parts k line col
  pub located : LocatedAt proj k row col
  pub fresh_above : count k (concat above) ≡ 0

located-below :
    (k : Identity) (line : List Identity) (rows : Projection) (r c : ℕ)
    → count k line ≡ 0
    → LocatedAt rows k r c
    → LocatedAt (line ∷ rows) k (suc r) c
located-below k line rows r c h at zero = position-absent k line h ∙ ground arith
located-below k line rows r c h at (suc i) = at i ∙ ground arith

located-here :
    (k : Identity) (line : List Identity) (rows : Projection) (c : ℕ)
    → position k line ≡ some c
    → Absent rows k
    → LocatedAt (line ∷ rows) k 0 c
located-here k line rows c h gone zero = h
located-here k line rows c h gone (suc i) = gone i ∙ ground arith

pub place_of_count : (k : Identity) (proj : Projection) → count k (concat proj) ≡ 1 → Place k proj
place_of_count k [] h = absurd (omega arith)
place_of_count k (line ∷ rows) h = elim (Bool-cases (count k line == 0)) [
  | inl none_here ↦
      let e : count k line ≡ 0 = ground arith in
      let p = place_of_count k rows (omega (arith, count-append k line (concat rows))) in
      record {
        row = suc p.row;
        col = p.col;
        above = line ∷ p.above;
        line = p.line;
        below = p.below;
        whole = ap (◌∷◌ line) p.whole;
        at_row = ap suc p.at_row;
        parts = p.parts;
        located = located-below k line rows p.row p.col e p.located;
        fresh_above = omega (arith, count-append k line (concat p.above), p.fresh_above);
      }
  | inr here ↦
      let (c, at, parts) = position-present k line (ground arith) in
      record {
        row = 0;
        col = c;
        above = [];
        line = line;
        below = rows;
        whole = refl;
        at_row = refl;
        parts = parts;
        located =
            located-here k line rows c at
              (Absent-of_count k rows (ground (arith, count-append k line (concat rows))));
        fresh_above = refl;
      }
]

-- Rows around a row, through the operations on the projection.
module _ {ℓ} {A : Type ℓ} where
  pub get_elem?-middle :
      (xs : List A) (y : A) (ys : List A) → get_elem? (xs ++ y ∷ ys) (length xs) ≡ some y
  get_elem?-middle [] y ys = refl
  get_elem?-middle (x ∷ xs) y ys = get_elem?-middle xs y ys

  pub set-middle :
      (xs : List A) (y z : A) (ys : List A) → set (xs ++ y ∷ ys) (length xs) z ≡ xs ++ z ∷ ys
  set-middle [] y z ys = refl
  set-middle (x ∷ xs) y z ys = ap (◌∷◌ x) (set-middle xs y z ys)

  pub insert_at-middle :
      (xs : List A) (z : A) (ys : List A) → insert_at (length xs) z (xs ++ ys) ≡ xs ++ z ∷ ys
  insert_at-middle [] z ys = refl
  insert_at-middle (x ∷ xs) z ys = ap (◌∷◌ x) (insert_at-middle xs z ys)

  pub remove_at-middle :
      (xs : List A) (y : A) (ys : List A) → remove_at (length xs) (xs ++ y ∷ ys) ≡ xs ++ ys
  remove_at-middle [] y ys = refl
  remove_at-middle (x ∷ xs) y ys = ap (◌∷◌ x) (remove_at-middle xs y ys)

  pub take-middle : (xs ys : List A) → take (length xs) (xs ++ ys) ≡ xs
  take-middle [] ys = refl
  take-middle (x ∷ xs) ys = ap (◌∷◌ x) (take-middle xs ys)

  pub drop-middle : (xs ys : List A) → drop (length xs) (xs ++ ys) ≡ ys
  drop-middle [] ys = refl
  drop-middle (x ∷ xs) ys = drop-middle xs ys

  pub concat-append : (xs ys : List (List A)) → concat (xs ++ ys) ≡ concat xs ++ concat ys
  concat-append [] ys = refl
  concat-append (x ∷ xs) ys = rw (concat-append xs ys, append_assoc)

  pub All-append {κ} : (P : A → Type κ) (xs ys : List A) → All P (xs ++ ys) ↔ (All P xs × All P ys)
  All-append P [] ys = (λ h. (tt, h), λ h. h.1)
  All-append P (x ∷ xs) ys =
      let ih = All-append P xs ys in
      (λ h. ((h.0, (ih.0 h.1).0), (ih.0 h.1).1), λ h. (h.0.0, ih.1 (h.0.1, h.1)))

-- The document around a place.
pub document-place :
    (above : Projection) (front back : List Identity) (below : Projection)
    → concat (above ++ (front ++ back) ∷ below) ≡ (concat above ++ front) ++ (back ++ concat below)
document-place above front back below = simp (concat-append, append_assoc)
