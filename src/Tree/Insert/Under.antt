-- ===== src/Tree/Insert/Under.antt =====
-- shar/core/tree.rs, `add_crdt` and `find_tombstone`: a character under a parent that is tombstoned.
pub mod Lists
pub mod Row
use mathlib.Core.Option.{some-ne-none}
use shario.Prelude.{
  ℕ, zero, suc, ◌+◌, ◌-◌, ◌<◌, ◌≤◌, Bool, true, false, Option, none, some, List, [], ◌∷◌, ◌++◌,
  if◌then◌else◌, Identity, same, same_iff, same_refl, All, concat, ◌≡◌, ◌≢◌, ◌⊎◌, refl, sym, ap,
  ◌∙◌, subst, arith, Bool-cases, Option-cases, inl, inr, identity_eq, length, get_elem?,
  length-append, set, insert_at, append_assoc, append-nil,
}
use shario.Types.{CrdtRelation, Crdt, new_relation, parent_of, identity_of, Result, ok}
use shario.HashMap
use shario.HashMap.{get-insert}
use shario.Tree.File.{SharFile, Projection, Characters, root, is_line_break}
use shario.Tree.Insert.{
  Slot, element, at_end, nowhere, scan, find_tombstone, place_crdt, with_character, add_crdt,
  add_at, parent_position, Added,
}
use shario.Tree.Insert.Order.{Known}
use shario.Tree.Insert.Climb.{
  Climbs, IsNumbered, Lands, behind_ancestor, in_front, scan-front, first_row, find_tombstone-Lands,
}
use shario.Tree.Insert.Climb.Scan.{
  Lineage, self, Passed, slot_end, Passed-append, Passed-map, Stops, AllKnown, scan-Stops, parted,
  row-AllKnown,
}
use shario.Tree.Insert.Live.Steps.{row_grown}
use shario.Tree.Insert.Grown.{fresh, grown-Shape, kind, grown-IsWellFormed}
use shario.Tree.Document.{
  document, count, count-append, IsWellFormed, Rooted, Shape, Plain, FirstRow, Anchored,
  breaks_line, live_count, get_elem?-middle, set-middle, insert_at-middle, document-place,
  All-append,
}
use shario.Tree.Document.Rows.{
  Shape-replace, Shape-extend, Shape-behind, breaks_line-insert, Rooted-insert,
}
use shario.Tree.Insert.Under.Lists.{split_off, insert_at-past, get_elem?-behind, All-get_elem?}
use shario.Tree.Insert.Under.Row.{
  add_crdt-climbed, place_crdt-element, inserted_row, old_Passed, document_old, document_new,
  grown_IsWellFormed, grown,
}

-- A child of a node or of one of its ancestors.
abbrev pub ChildInLineage : Characters → Identity → Identity → Type 0
ChildInLineage chars k x =
    (r : CrdtRelation) × (HashMap.get x chars ≡ some r) × Lineage chars k (parent_of r)

-- The outcome, by whether the nearest live ancestor is the root.
abbrev pub Climbed : SharFile → Crdt → Identity → Bool → Added → Type 0
Climbed f crdt a false (g, result) =
    (pos : ℕ × ℕ) × (result ≡ ok (some pos))
    × IsWellFormed g
    × (g.characters ≡ HashMap.insert (identity_of crdt) crdt.relation f.characters)
    × (before : List Identity) × (between : List Identity) × (rest : List Identity) × (document f
        ≡ before ++ a ∷ (between ++ rest))
    × All (ChildInLineage f.characters (parent_of crdt.relation)) between
    × (document g ≡ before ++ a ∷ (between ++ identity_of crdt ∷ rest))
Climbed f crdt a true (g, result) =
    (result ≡ ok (some (0, 0))) × (document g ≡ identity_of crdt ∷ document f) × ¬ IsWellFormed g

module _ (f : SharFile) (crdt : Crdt) (par : CrdtRelation) (v : IsWellFormed f)
    (has_parent : HashMap.get (parent_of crdt.relation) f.characters ≡ some par)
    (dead : par.deleted ≡ true) (new : HashMap.get (identity_of crdt) f.characters ≡ none)
    (visible : crdt.relation.deleted ≡ false)
    (plain : is_line_break crdt.relation.value ≡ false) where
  abbrev k : Identity
  k = identity_of crdt

  abbrev p : Identity
  p = parent_of crdt.relation

  abbrev chars : Characters
  chars = HashMap.insert k crdt.relation f.characters

  abbrev after : Projection → SharFile
  after proj = record f { characters = chars; projection = proj }

  -- Behind a live ancestor that is not the root.
  landed_behind :
      (hint row col c : ℕ) (a : Identity) (line : List Identity)
      → get_elem? f.projection row ≡ some line
      → get_elem? line col ≡ some a
      → col < c
      → c ≤ length line
      → Passed f.characters (Lineage f.characters p) line (suc col) c
      → find_tombstone (suc (length f.characters)) f hint p ≡ ok (row, c)
      → Climbed f crdt a false (add_crdt f hint crdt)
  landed_behind hint row col c a line at at_col past inside passed climbed =
      let (q, run, le, fits, more) =
        inserted_row f crdt par v has_parent dead new visible plain row c line at inside in
      let known = row-AllKnown f row line v at in
      let all_passed =
        Passed-append f.characters (Lineage f.characters p) line (suc col) c q passed
          (old_Passed f crdt par v has_parent dead new visible plain line c q known more) in
      let (above, below, whole, at_row) = parted f.projection row line at in
      let (front, behind, parts, at_front) = parted line col a at_col in
      let (mid, back, parts', at_mid) =
        split_off (q - suc col) behind
          (omega (arith, ap length parts, length-append front (a ∷ behind), at_front, fits)) in
      let line_parts : line ≡ front ++ a ∷ (mid ++ back) =
        parts ∙ ap (λ l. front ++ a ∷ l) parts' in
      let whole' : f.projection ≡ above ++ (front ++ a ∷ (mid ++ back)) ∷ below =
        whole ∙ ap (λ l. above ++ l ∷ below) line_parts in
      let at_q : q ≡ length front + suc (length mid) = omega (arith, at_front, at_mid, past, le) in
      let new_line : insert_at q k line ≡ front ++ a ∷ (mid ++ k ∷ back) =
        ap (λ l. insert_at q k l) line_parts
        ∙ ap (λ n. insert_at n k (front ++ a ∷ (mid ++ back))) at_q
        ∙ insert_at-past front a k (mid ++ back) (length mid)
        ∙ ap (λ l. front ++ a ∷ l) (insert_at-middle mid k back) in
      let new_proj : set f.projection row (insert_at q k line)
          ≡ grown f crdt par v has_parent dead new visible plain above front a mid back below
              whole' =
        ap (λ r. set r row (insert_at q k line)) whole
        ∙ ap (λ n. set (above ++ line ∷ below) n (insert_at q k line)) (sym at_row)
        ∙ set-middle above line (insert_at q k line) below
        ∙ ap (λ l. above ++ l ∷ below) new_line in
      subst (Climbed f crdt a false)
        (sym (
          add_crdt-climbed f crdt par v has_parent dead new visible plain hint row c climbed
          ∙ run
          ∙ ap (λ r. (after r, ok (some (row, q)))) new_proj))
        (
          (row, q),
          refl,
          grown_IsWellFormed f crdt par v has_parent dead new visible plain above front a mid back
              below whole',
          refl,
          concat above ++ front,
          mid,
          back ++ concat below,
          document_old f crdt par v has_parent dead new visible plain above front a mid back below
              whole',
          All-get_elem? (ChildInLineage f.characters p) mid back (λ i x lt here.
              all_passed (suc col + i) x (omega arith) (omega (arith, at_q, at_front, lt)) (
                ap (get_elem? line) (shift front mid i at_front)
                ∙ ap (λ l. get_elem? l (length front + suc i)) line_parts
                ∙ get_elem?-behind front a (mid ++ back) i
                ∙ here)),
          document_new f crdt par v has_parent dead new visible plain above front a mid back below
              whole',
        )
    where
      shift :
          (front mid : List Identity) (i : ℕ)
          → length front ≡ col
          → suc col + i ≡ length front + suc i
      shift front mid i e = omega (arith, e)

  -- In front of the sentinel.
  landed_in_front :
      (hint : ℕ) (a : Identity)
      → find_tombstone (suc (length f.characters)) f hint p ≡ ok (0, 0)
      → p ≢ root
      → Climbed f crdt a true (add_crdt f hint crdt)
  landed_in_front hint a climbed below_root =
      let (cells, rows, whole) = first_row f v in
      let run =
        place_crdt-element f crdt par v has_parent dead new visible plain 0 0 0 (root ∷ cells)
          (ap (λ r. get_elem? r 0) whole)
          (ap (λ n. scan chars (root ∷ cells) p k 0 n 0) (rounds cells)
            ∙ scan-front chars cells p k (suc (length cells)) (grown_sentinel) (inr below_root)) in
      subst (Climbed f crdt a true)
        (sym (
          add_crdt-climbed f crdt par v has_parent dead new visible plain hint 0 0 climbed
          ∙ run
          ∙ ap (λ r. (after (set r 0 (insert_at 0 k (root ∷ cells))), ok (some (0, 0)))) whole))
        (refl, ap (λ r. k ∷ concat r) (sym whole), λ w. displaced w.shape.0.0)
    where
      rounds : (cells : List Identity) → length (root ∷ cells) + 1 - 0 ≡ suc (suc (length cells))
      rounds cells = omega arith

      grown_sentinel : HashMap.get root chars ≡ some (new_relation 0 0 0)
      grown_sentinel =
          get-insert k root crdt.relation f.characters
          ∙ ground (arith, same_iff k root, v.sentinel, new)

      displaced : k ≡ root → ⊥
      displaced e =
          some-ne-none (new_relation 0 0 0)
            (sym v.sentinel ∙ ap (λ x. HashMap.get x f.characters) (sym e) ∙ new)

-- In a well-formed file whose ids other than the root's count from 1: a new character that is no line
-- break and not deleted, under a parent that is a tombstone, is inserted relative to the nearest live
-- ancestor of that parent, whatever the hint. Behind an ancestor other than the root it is put further
-- on, past nothing but children of the parent and of the parent's ancestors; nothing else changes
-- among the characters, and the file stays well formed. With the root as the nearest live
-- ancestor, the character is put at (0, 0), in front of the root sentinel and of the whole document,
-- and the file is not well formed any more.
pub add_crdt-Climbs :
    (f : SharFile) (hint : ℕ) (crdt : Crdt) {par : CrdtRelation}
    → IsWellFormed f
    → IsNumbered f
    → HashMap.get (parent_of crdt.relation) f.characters ≡ some par
    → par.deleted ≡ true
    → HashMap.get (identity_of crdt) f.characters ≡ none
    → crdt.relation.deleted ≡ false
    → is_line_break crdt.relation.value ≡ false
    → (a : Identity) × Climbs f.characters (parent_of crdt.relation) a
      × Climbed f crdt a (same a root) (add_crdt f hint crdt)
add_crdt-Climbs f hint crdt {par} v numbered has_parent dead new visible plain =
    let (a, climbs, lands) =
      find_tombstone-Lands f hint (parent_of crdt.relation) par v numbered below_root has_parent in
    (a, climbs, by_landing a lands)
  where
    below_root : parent_of crdt.relation ≢ root
    below_root e = live_root par dead (ap (λ x. HashMap.get x f.characters) (sym e) ∙ has_parent)
      where
        live_root :
            (q : CrdtRelation) → q.deleted ≡ true → HashMap.get root f.characters ≡ some q → ⊥
        live_root q gone at = ground (arith, v.sentinel)

    by_landing :
        (a : Identity)
        → Lands f hint (suc (length f.characters)) (parent_of crdt.relation) a
        → Climbed f crdt a (same a root) (add_crdt f hint crdt)
    by_landing a (behind_ancestor row col c line other at at_col past inside passed climbed) =
        subst (λ b. Climbed f crdt a b (add_crdt f hint crdt)) {x = false}
          (ground (arith, same_iff a root, other))
          (landed_behind f crdt par v has_parent dead new visible plain hint row col c a line at
            at_col past inside passed climbed)
    by_landing a (in_front e climbed) =
        subst (λ b. Climbed f crdt a b (add_crdt f hint crdt)) (sym ((same_iff a root).1 e))
          (landed_in_front f crdt par v has_parent dead new visible plain hint a climbed below_root)
