-- ===== src/Tree/Insert/Under/Row.antt =====
-- shar/core/tree.rs, `add_crdt`: the row that a character under a tombstone is inserted into.
use mathlib.Core.Option.{some-ne-none}
use shario.Prelude.{
  ℕ, suc, ◌+◌, ◌-◌, ◌≤◌, Bool, true, false, Option, none, some, List, [], ◌∷◌, ◌++◌, if◌then◌else◌,
  Identity, same, same_iff, concat, ◌≡◌, refl, sym, ap, ◌∙◌, subst, arith, Bool-cases, inl, inr,
  identity_eq, length, get_elem?, set, insert_at, append_assoc,
}
use shario.Types.{CrdtRelation, Crdt, parent_of, identity_of, ok}
use shario.HashMap
use shario.HashMap.{get-insert}
use shario.Tree.File.{SharFile, Projection, Characters, is_line_break}
use shario.Tree.Insert.{
  Slot, element, at_end, nowhere, scan, find_tombstone, place_crdt, with_character, add_crdt,
  add_at, parent_position,
}
use shario.Tree.Insert.Climb.Scan.{
  Lineage, self, Passed, slot_end, Stops, AllKnown, scan-Stops, row-AllKnown,
}
use shario.Tree.Insert.Live.Steps.{row_grown}
use shario.Tree.Insert.Grown.{grown-Shape, kind, grown-IsWellFormed}
use shario.Tree.Document.{
  document, count, count-append, IsWellFormed, Shape, Plain, breaks_line, document-place,
  All-append,
}
use shario.Tree.Document.Rows.{Shape-replace}

module _ (f : SharFile) (crdt : Crdt) (par : CrdtRelation) (v : IsWellFormed f)
    (has_parent : HashMap.get (parent_of crdt.relation) f.characters ≡ some par)
    (dead : par.deleted ≡ true) (new : HashMap.get (identity_of crdt) f.characters ≡ none)
    (visible : crdt.relation.deleted ≡ false)
    (plain : is_line_break crdt.relation.value ≡ false) where
  abbrev k : Identity
  k = identity_of crdt

  abbrev p : Identity
  p = parent_of crdt.relation

  abbrev chars : Characters
  chars = HashMap.insert k crdt.relation f.characters

  abbrev after : Projection → SharFile
  after proj = record f { characters = chars; projection = proj }

  pub add_crdt-climbed :
      (hint row c : ℕ)
      → find_tombstone (suc (length f.characters)) f hint p ≡ ok (row, c)
      → add_crdt f hint crdt ≡ place_crdt (with_character f crdt) crdt false (row, c)
  unfolding add_crdt add_at parent_position
  add_crdt-climbed hint row c climbed = ground arith

  -- The insertion into a row.
  pub place_crdt-element :
      (row c q : ℕ) (line : List Identity)
      → get_elem? f.projection row ≡ some line
      → scan chars line p k 0 (length line + 1 - c) c ≡ ok (element q)
      → place_crdt (with_character f crdt) crdt false (row, c)
        ≡ (after (set f.projection row (insert_at q k line)), ok (some (row, q)))
  unfolding place_crdt with_character
  place_crdt-element row c q line at run = ground (arith, at, run, plain)

  place_crdt-end :
      (row c q : ℕ) (line : List Identity)
      → get_elem? f.projection row ≡ some line
      → scan chars line p k 0 (length line + 1 - c) c ≡ ok (at_end q)
      → place_crdt (with_character f crdt) crdt false (row, c)
        ≡ (after (set f.projection row (line ++ k ∷ [])), ok (some (row, length line)))
  unfolding place_crdt with_character
  place_crdt-end row c q line at run = ground (arith, at, run, plain)

  grown-AllKnown : (line : List Identity) → AllKnown f.characters line → AllKnown chars line
  grown-AllKnown line known i x at =
      let (r, knows) = known i x at in
      (
        if same k x then crdt.relation else r,
        get-insert k x crdt.relation f.characters ∙ ground arith,
      )

  insert_at-end : {A : Type 0} (xs : List A) (x : A) → xs ++ x ∷ [] ≡ insert_at (length xs) x xs
  insert_at-end [] x = refl
  insert_at-end (y ∷ ys) x = ap (◌∷◌ y) (insert_at-end ys x)

  -- Where the insertion ends up in a row, if it starts from a column of that row.
  pub inserted_row :
      (row c : ℕ) (line : List Identity)
      → get_elem? f.projection row ≡ some line
      → c ≤ length line
      → (q : ℕ) × (place_crdt (with_character f crdt) crdt false (row, c)
          ≡ (after (set f.projection row (insert_at q k line)), ok (some (row, q))))
        × (c ≤ q)
        × (q ≤ length line)
        × Passed chars (◌≡◌ p) line c q
  inserted_row row c line at fits =
      let (s, run, stops, passed) =
        scan-Stops chars line p k 0 (length line + 1 - c) c
          (grown-AllKnown line (row-AllKnown f row line v at)) (omega (arith, fits))
          (omega (arith, fits)) in
      by_slot s run stops passed
    where
      by_slot :
          (s : Slot)
          → scan chars line p k 0 (length line + 1 - c) c ≡ ok s
          → Stops line (c + 0) s
          → Passed chars (◌≡◌ p) line (c + 0) (slot_end s)
          → (q : ℕ) × (place_crdt (with_character f crdt) crdt false (row, c)
              ≡ (after (set f.projection row (insert_at q k line)), ok (some (row, q))))
            × (c ≤ q)
            × (q ≤ length line)
            × Passed chars (◌≡◌ p) line c q
      by_slot (element q) run h passed = (
        q,
        place_crdt-element row c q line at run,
        omega (arith, h.0),
        omega (arith, h.1),
        λ i x le. passed i x (omega (arith, le)),
      )
      by_slot (at_end q) run h passed = (
        q,
        subst
            (λ n.
              place_crdt (with_character f crdt) crdt false (row, c)
              ≡ (after (set f.projection row (insert_at n k line)), ok (some (row, n))))
            (sym h.1)
            (place_crdt-end row c q line at run
              ∙ ap (λ l. (after (set f.projection row l), ok (some (row, length line))))
                  (insert_at-end line k)),
        omega (arith, h.0),
        omega (arith, h.1),
        λ i x le. passed i x (omega (arith, le)),
      )
      by_slot nowhere run h passed = absurd h

  pub old_Passed :
      (line : List Identity) (c q : ℕ)
      → AllKnown f.characters line
      → Passed chars (◌≡◌ p) line c q
      → Passed f.characters (Lineage f.characters p) line c q
  old_Passed line c q known passed i x le lt at =
      let (r, knows, e) = passed i x le lt at in
      let (old, knew) = known i x at in
      (
        r,
        unchanged (HashMap.get x f.characters) r old knew
            (sym (get-insert k x crdt.relation f.characters) ∙ knows),
        subst (Lineage f.characters p) e self,
      )
    where
      clash : (old : CrdtRelation) → none ≡ some old → ⊥
      clash old e = absurd (some-ne-none old (sym e))

      pick_else :
          (b : Bool)
          → b ≡ false
          → (if b then some crdt.relation else HashMap.get x f.characters)
            ≡ HashMap.get x f.characters
      pick_else b ne = rw ne refl

      unchanged :
          (found : Option CrdtRelation) (r old : CrdtRelation)
          → HashMap.get x f.characters ≡ some old
          → (if same k x then some crdt.relation else HashMap.get x f.characters) ≡ some r
          → HashMap.get x f.characters ≡ some r
      unchanged found r old knew h = elim (Bool-cases (same k x)) [
        | inl e ↦
            absurd (
              clash old
                (sym new ∙ ap (λ y. HashMap.get y f.characters) ((same_iff k x).0 e) ∙ knew))
        | inr ne ↦ sym (pick_else (same k x) ne) ∙ h
      ]

  -- The row with the character, and the file.
  module _ (above : Projection) (front : List Identity) (a : Identity) (mid back : List Identity)
      (below : Projection)
      (whole : f.projection ≡ above ++ (front ++ a ∷ (mid ++ back)) ∷ below) where
    abbrev pub grown : Projection
    grown = above ++ (front ++ a ∷ (mid ++ k ∷ back)) ∷ below

    pub document_old : document f ≡ (concat above ++ front) ++ a ∷ (mid ++ (back ++ concat below))
    document_old =
        ap concat whole
        ∙ document-place above front (a ∷ (mid ++ back)) below
        ∙ ap (λ l. (concat above ++ front) ++ a ∷ l) (append_assoc mid back (concat below))

    pub document_new :
        concat grown ≡ (concat above ++ front) ++ a ∷ (mid ++ k ∷ (back ++ concat below))
    document_new =
        document-place above front (a ∷ (mid ++ k ∷ back)) below
        ∙ ap (λ l. (concat above ++ front) ++ a ∷ l) (append_assoc mid (k ∷ back) (concat below))

    counts_new :
        (j : Identity) → count j (concat grown) ≡ count j (document f) + (if same k j then 1 else 0)
    counts_new j = omega (
      arith,
      ap (count j) document_old,
      ap (count j) document_new,
      count-append j (concat above ++ front) (a ∷ (mid ++ (back ++ concat below))),
      count-append j (concat above ++ front) (a ∷ (mid ++ k ∷ (back ++ concat below))),
      count-append j mid (back ++ concat below),
      count-append j mid (k ∷ (back ++ concat below)),
    )

    grown_Shape : Shape (breaks_line chars) grown
    grown_Shape =
        let row =
          row_grown (breaks_line chars) a (mid ++ back) (mid ++ k ∷ back)
            (λ h.
              let parts = (All-append (Plain (breaks_line chars)) mid back).0 h in
              (All-append (Plain (breaks_line chars)) mid (k ∷ back)).1
                (parts.0, (kind f crdt par v has_parent new visible ∙ plain, parts.1)))
            front in
        Shape-replace (breaks_line chars) above _ _ below row.0 row.1 (
          subst (Shape (breaks_line chars)) whole (grown-Shape f crdt par v has_parent new visible))

    pub grown_IsWellFormed : IsWellFormed (after grown)
    grown_IsWellFormed =
        grown-IsWellFormed f crdt par v has_parent new visible grown counts_new grown_Shape
