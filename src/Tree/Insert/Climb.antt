-- ===== src/Tree/Insert/Climb.antt =====
-- shar/core/tree.rs, `find_tombstone`: the climb from a tombstone to the nearest ancestor that is live.
pub mod Scan
use mathlib.Core.Option.{some-ne-none}
use shario.Prelude.{
  ℕ, zero, suc, ◌+◌, ◌-◌, ◌<◌, ◌≤◌, Bool, true, false, Option, none, some, List, [], ◌∷◌, ◌++◌,
  if◌then◌else◌, Identity, same, same_iff, same_refl, All, concat, ◌≡◌, ◌≢◌, ◌⊎◌, refl, sym, ap,
  ◌∙◌, subst, arith, Bool-cases, Option-cases, inl, inr, identity_eq, length, get_elem?,
  length-append, ltb, ◌==◌, ==_iff, ◌↔◌,
}
use shario.Types.{CrdtRelation, new_relation, parent_of, Result, ok}
use shario.HashMap
use shario.Tree.File.{SharFile, Projection, Characters, root}
use shario.Tree.Search.{find_crdt}
use shario.Tree.Search.Ring.{lt-length}
use shario.Tree.Insert.{
  Slot, element, at_end, nowhere, scan, goes_before, tombstone_slot, slot_position, find_tombstone,
}
use shario.Tree.Insert.Order.{Known, info}
use shario.Tree.Document.{
  IsWellFormed, Rooted, Shape, FirstRow, breaks_line, live_count, count, count-append,
  concat-append,
}
use shario.Tree.Document.Found.{FindOutcome, find_crdt-any_hint}
use shario.Tree.Insert.Climb.Scan.{
  Lineage, self, ancestor, Passed, parent-Lineage, Passed-append, Passed-map, parted, row-AllKnown,
  tombstone_slot-inside,
}

-- The nearest live ancestor of a node.
pub data Climbs (chars : Characters) : Identity → Identity → Type 0 where
  stop :
      {k : Identity} {r p : CrdtRelation}
      → HashMap.get k chars ≡ some r
      → HashMap.get (parent_of r) chars ≡ some p
      → p.deleted ≡ false
      → Climbs chars k (parent_of r)
  climb :
      {k a : Identity} {r p : CrdtRelation}
      → HashMap.get k chars ≡ some r
      → HashMap.get (parent_of r) chars ≡ some p
      → p.deleted ≡ true
      → Climbs chars (parent_of r) a
      → Climbs chars k a

-- Ids count from 1.
abbrev pub IsNumbered : SharFile → Type 0
IsNumbered f = (j : Identity) → j.0 ≡ 0 → j ≢ root → HashMap.get j f.characters ≡ none

-- What the climb gives: a place behind the ancestor in its row, or the front of the file for the root.
pub data Lands (f : SharFile) (hint n : ℕ) (k : Identity) : Identity → Type 0 where
  behind_ancestor :
      {a : Identity} (row col c : ℕ) (line : List Identity)
      → a ≢ root
      → get_elem? f.projection row ≡ some line
      → get_elem? line col ≡ some a
      → col < c
      → c ≤ length line
      → Passed f.characters (Lineage f.characters k) line (suc col) c
      → find_tombstone n f hint k ≡ ok (row, c)
      → Lands f hint n k a
  in_front : {a : Identity} → a ≡ root → find_tombstone n f hint k ≡ ok (0, 0) → Lands f hint n k a

-- The first row begins with the sentinel.
pub first_row :
    (f : SharFile)
    → IsWellFormed f
    → (cells : List Identity) × (rows : Projection) × (f.projection ≡ (root ∷ cells) ∷ rows)
first_row f v = by_rows f.projection v.shape
  where
    by_row :
        (line : List Identity) (rows : Projection)
        → FirstRow (breaks_line f.characters) line
        → (cells : List Identity) × (below : Projection) × (line ∷ rows ≡ (root ∷ cells) ∷ below)
    by_row [] rows h = absurd h
    by_row (x ∷ cells) rows h = (cells, rows, ap (λ y. (y ∷ cells) ∷ rows) h.0)

    by_rows :
        (proj : Projection)
        → Shape (breaks_line f.characters) proj
        → (cells : List Identity) × (rows : Projection) × (proj ≡ (root ∷ cells) ∷ rows)
    by_rows [] h = absurd h
    by_rows (line ∷ rows) h = by_row line rows h.0

-- From (0, 0), what is younger than the sentinel, or no child of it, goes in front of it.
pub scan-front :
    (chars : Characters) (cells : List Identity) (q k : Identity) (rounds : ℕ)
    → HashMap.get root chars ≡ some (new_relation 0 0 0)
    → (0 < k.0) ⊎ (q ≢ root)
    → scan chars (root ∷ cells) q k 0 (suc rounds) 0 ≡ ok (element 0)
unfolding scan goes_before
scan-front chars cells q k rounds sentinel ahead = ground (arith, sentinel, same_iff root q, ahead)

tombstone_slot-front :
    (f : SharFile) (k : Identity) (relation : CrdtRelation)
    → IsWellFormed f
    → (0 < k.0) ⊎ (parent_of relation ≢ root)
    → tombstone_slot f k relation 0 1 (ok (0, 0)) ≡ ok (0, 0)
unfolding tombstone_slot slot_position
tombstone_slot-front f k relation v ahead =
    let (cells, rows, whole) = first_row f v in
    rw (ap (λ r. get_elem? r 0) whole, tombstone_slot)
      (ap (slot_position 0) (
        ap (λ n. scan f.characters (root ∷ cells) (parent_of relation) k 0 n 0) (rounds cells)
        ∙ scan-front f.characters cells (parent_of relation) k (suc (length cells)) v.sentinel
            ahead))
  where
    rounds : (cells : List Identity) → length (root ∷ cells) + 1 - 0 ≡ suc (suc (length cells))
    rounds cells = omega arith

found_live :
    (f : SharFile) (k : Identity) (p : CrdtRelation)
    → IsWellFormed f
    → k ≢ root
    → HashMap.get k f.characters ≡ some p
    → p.deleted ≡ false
    → FindOutcome f k 1
found_live f k p v not_root here live =
    subst (FindOutcome f k) {y = 1} (ground (arith, here, live)) (find_crdt-any_hint f k v not_root)

module _ (f : SharFile) (hint n : ℕ) (k : Identity) (r p : CrdtRelation)
    (here : HashMap.get k f.characters ≡ some r)
    (up : HashMap.get (parent_of r) f.characters ≡ some p) where
  find_tombstone-front :
      p.deleted ≡ false
      → same (parent_of r) root ≡ true
      → find_tombstone (suc n) f hint k ≡ tombstone_slot f k r 0 1 (ok (0, 0))
  unfolding find_tombstone
  find_tombstone-front live e = ground (arith, here, up)

  find_tombstone-behind :
      p.deleted ≡ false
      → same (parent_of r) root ≡ false
      → find_tombstone (suc n) f hint k ≡ tombstone_slot f k r 1 0 (find_crdt f hint (parent_of r))
  unfolding find_tombstone
  find_tombstone-behind live e = ground (arith, here, up)

  find_tombstone-climb :
      p.deleted ≡ true
      → find_tombstone (suc n) f hint k
        ≡ tombstone_slot f k r 0 1 (find_tombstone n f hint (parent_of r))
  unfolding find_tombstone
  find_tombstone-climb dead = ground (arith, here, up)

-- One step from a node whose parent is live.
Lands-stop :
    (f : SharFile) (hint n : ℕ) (k : Identity) (r p : CrdtRelation)
    → IsWellFormed f
    → IsNumbered f
    → k ≢ root
    → HashMap.get k f.characters ≡ some r
    → HashMap.get (parent_of r) f.characters ≡ some p
    → p.deleted ≡ false
    → Lands f hint (suc n) k (parent_of r)
Lands-stop f hint n k r p v numbered not_root here up live =
    elim (Bool-cases (same (parent_of r) root)) [
      | inl e ↦ in_front ((same_iff (parent_of r) root).0 e) (
          find_tombstone-front f hint n k r p here up live e
          ∙ (tombstone_slot-front f k r v (inl (ground (arith, numbered k, not_root, here)))))
      | inr ne ↦
          let other : parent_of r ≢ root = λ e. cc (sym ne ∙ (same_iff (parent_of r) root).1 e) in
          let (row, col, line, at, at_col, find) = found_live f (parent_of r) p v other up live in
          let (c, run, past, inside, passed) =
            tombstone_slot-inside f k r 1 0 row col line at (row-AllKnown f row line v at)
              (omega (arith, lt-length line col at_col)) (omega arith) in
          behind_ancestor row col c line other at at_col (omega (arith, past)) inside
            (Passed-map f.characters (◌≡◌ (parent_of r)) line (Lineage f.characters k) (suc col) c
              (parent-Lineage f.characters here) (λ i x le. passed i x (omega (arith, le))))
            (find_tombstone-behind f hint n k r p here up live ne
              ∙ ap (tombstone_slot f k r 1 0) (find hint)
              ∙ run)
    ]

-- One step from a node whose parent is deleted too.
Lands-climb :
    (f : SharFile) (hint n : ℕ) (k a : Identity) (r p : CrdtRelation)
    → IsWellFormed f
    → HashMap.get k f.characters ≡ some r
    → HashMap.get (parent_of r) f.characters ≡ some p
    → p.deleted ≡ true
    → parent_of r ≢ root
    → Lands f hint n (parent_of r) a
    → Lands f hint (suc n) k a
Lands-climb f hint n k a r p v here up dead other (in_front e run) = in_front e (
    find_tombstone-climb f hint n k r p here up dead
    ∙ ap (tombstone_slot f k r 0 1) run
    ∙ tombstone_slot-front f k r v (inr other))
Lands-climb f hint n k a r p v here up dead other
      (behind_ancestor row col c line na at at_col past inside passed run) =
    let (c', run', past', inside', passed') =
      tombstone_slot-inside f k r 0 1 row c line at (row-AllKnown f row line v at)
        (omega (arith, inside)) (omega arith) in
    behind_ancestor row col c' line na at at_col (omega (arith, past, past')) inside'
      (Passed-append f.characters (Lineage f.characters k) line (suc col) c c'
        (Passed-map f.characters (Lineage f.characters (parent_of r)) line (Lineage f.characters k)
          (suc col) c (λ q l. ancestor here l) passed)
        (Passed-map f.characters (◌≡◌ (parent_of r)) line (Lineage f.characters k) c c'
          (parent-Lineage f.characters here) (λ i x le. passed' i x (omega (arith, le)))))
      (find_tombstone-climb f hint n k r p here up dead ∙ ap (tombstone_slot f k r 0 1) run ∙ run')

older :
    (m chars : Characters) (j : Identity) (q : CrdtRelation)
    → ((i : Identity) (r : CrdtRelation)
        → HashMap.get i ((j, q) ∷ m) ≡ some r
        → HashMap.get i chars ≡ some r)
    → HashMap.get j m ≡ none
    → (i : Identity) (r : CrdtRelation) → HashMap.get i m ≡ some r
    → HashMap.get i chars ≡ some r
unfolding HashMap.get
older m chars j q sub new i r here = sub i r (elim (Bool-cases (same j i)) [
  | inl e ↦
      absurd
        (some-ne-none r (sym here ∙ ap (λ x. HashMap.get x m) (sym ((same_iff j i).0 e)) ∙ new))
  | inr ne ↦ rw ne here
])

-- From the suffix of the map that holds the node, with a round for each of its entries.
climb-Lands :
    (f : SharFile) (hint : ℕ) (m : Characters) (n : ℕ) (k : Identity) (r : CrdtRelation)
    → IsWellFormed f
    → IsNumbered f
    → Rooted m
    → ((j : Identity) (q : CrdtRelation)
        → HashMap.get j m ≡ some q
        → HashMap.get j f.characters ≡ some q)
    → length m < n
    → k ≢ root
    → HashMap.get k m ≡ some r
    → (a : Identity) × Climbs f.characters k a × Lands f hint n k a
unfolding HashMap.get
climb-Lands f hint [] n k r v numbered rooted sub enough not_root here = absurd (no_entry here)
  where
    no_entry : HashMap.get k [] ≡ some r → ⊥
    no_entry e = ground arith
climb-Lands f hint ((j, q) ∷ m) zero k r v numbered rooted sub enough not_root here =
    absurd (omega (arith, enough))
climb-Lands f hint ((j, q) ∷ m) (suc n) k r v numbered rooted sub enough not_root here =
    elim (Bool-cases (same j k)) [
      | inr ne ↦
          climb-Lands f hint m (suc n) k r v numbered rooted.2
            (older m f.characters j q sub rooted.0) (omega (arith, enough)) not_root
            (ground (arith, here))
      | inl e ↦ elim rooted.1 [
        | inl is_root ↦ absurd (not_root (sym ((same_iff j k).0 e) ∙ is_root))
        | inr (p, up) ↦
            let known : HashMap.get k f.characters ≡ some r = sub k r here in
            let up' : HashMap.get (parent_of r) m ≡ some p =
              ap (λ x. HashMap.get (parent_of x) m) (sym (is_head here e)) ∙ up in
            let above = older m f.characters j q sub rooted.0 (parent_of r) p up' in
            elim (Bool-cases p.deleted) [
              | inl dead ↦
                  let other : parent_of r ≢ root = λ at.
                    live_root p dead (ap (λ x. HashMap.get x f.characters) (sym at) ∙ above) in
                  let (a, climbs, lands) =
                    climb-Lands f hint m n (parent_of r) p v numbered rooted.2
                      (older m f.characters j q sub rooted.0) (omega (arith, enough)) other up' in
                  (
                    a,
                    climb known above dead climbs,
                    Lands-climb f hint n k a r p v known above dead other lands,
                  )
              | inr live ↦ (
                parent_of r,
                stop known above live,
                Lands-stop f hint n k r p v numbered not_root known above live,
              )
            ]
      ]
    ]
  where
    is_head : HashMap.get k ((j, q) ∷ m) ≡ some r → same j k ≡ true → q ≡ r
    is_head here e = ground arith

    live_root : (p : CrdtRelation) → p.deleted ≡ true → HashMap.get root f.characters ≡ some p → ⊥
    live_root p dead at = ground (arith, v.sentinel)

-- The climb of `add_crdt` from a parent that is not the root.
pub find_tombstone-Lands :
    (f : SharFile) (hint : ℕ) (k : Identity) (r : CrdtRelation)
    → IsWellFormed f
    → IsNumbered f
    → k ≢ root
    → HashMap.get k f.characters ≡ some r
    → (a : Identity) × Climbs f.characters k a × Lands f hint (suc (length f.characters)) k a
find_tombstone-Lands f hint k r v numbered not_root here =
    climb-Lands f hint f.characters (suc (length f.characters)) k r v numbered v.rooted (λ j q h. h)
      (omega arith) not_root here
