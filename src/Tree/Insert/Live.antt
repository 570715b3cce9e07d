-- ===== src/Tree/Insert/Live.antt =====
-- shar/core/tree.rs, `add_crdt` under a parent that is not tombstoned.
pub mod Steps
use mathlib.Core.Path.{ap₂}
use shario.Prelude.{
  ℕ, ◌+◌, ◌-◌, ◌<◌, Bool, true, false, Option, none, some, List, [], ◌∷◌, ◌++◌, if◌then◌else◌,
  Identity, same, same_iff, same_refl, All, concat, ◌≡◌, refl, sym, ap, ◌∙◌, subst, arith,
  Bool-cases, inl, inr, identity_eq, length, get_elem?, insert_at, set, take, drop, ◌≤◌,
  append_assoc, length-append,
}
use native.Mathlib.Numerals.{add-one}
use shario.Types.{CrdtRelation, Crdt, parent_of, identity_of, Result, ok}
use shario.HashMap
use shario.HashMap.{get-insert}
use shario.Tree.File.{is_line_break, Projection, Characters, SharFile, root}
use shario.Tree.Search.{position, find_crdt}
use shario.Tree.Search.Ring.{find_crdt-located, column_in}
use shario.Tree.Insert.{
  Slot, element, at_end, nowhere, scan, place_crdt, with_character, add_crdt, split_row,
  add_line_to_projection,
}
use shario.Tree.Insert.Order.{
  placed, behind, behind-middle, sibling_place, sibling_place-row, count-sibling_place,
  Plain-sibling_place, Known, scan-fills, Fills,
}
use shario.Tree.Insert.Grown.{fresh, grown-Shape, kind, grown-IsWellFormed}
use shario.Tree.Document.{
  document, count, count-append, breaks_line, Plain, FirstRow, Anchored, Shape, IsWellFormed, Place,
  place_of_count, get_elem?-middle, set-middle, document-place,
}
use shario.Tree.Document.Rows.{
  Shape-replace, Shape-split, Shape-behind, FirstRow-tail, Anchored-tail, breaks_line-insert,
  Rooted-insert, Shape-extend,
}
use shario.Tree.Insert.Live.Steps.{All-known, Shape-root, add_line-middle, row_grown, slot_column}

module _ (f : SharFile) (crdt : Crdt) (par : CrdtRelation) (v : IsWellFormed f)
    (has_parent : HashMap.get (parent_of crdt.relation) f.characters ≡ some par)
    (live : par.deleted ≡ false) (new : HashMap.get (identity_of crdt) f.characters ≡ none)
    (visible : crdt.relation.deleted ≡ false) where
  abbrev k : Identity
  k = identity_of crdt

  abbrev p : Identity
  p = parent_of crdt.relation

  abbrev chars : Characters
  chars = HashMap.insert k crdt.relation f.characters

  place : Place p f.projection
  place = place_of_count p f.projection (v.counts p ∙ ground arith)

  whole : f.projection ≡ place.above ++ (place.parts.front ++ p ∷ place.parts.back) ∷ place.below
  whole = place.whole ∙ ap (λ l. place.above ++ l ∷ place.below) place.parts.whole

  shape :
      Shape
        (breaks_line chars)
        (place.above ++ (place.parts.front ++ p ∷ place.parts.back) ∷ place.below)
  shape = subst (Shape (breaks_line chars)) whole (grown-Shape f crdt par v has_parent new visible)

  found : (hint : ℕ) → find_crdt f hint p ≡ ok (length place.above, length place.parts.front)
  unfolding find_crdt
  found hint = elim (Bool-cases (same p root)) [
    | inr ne ↦
        find_crdt-located f p (λ e. cc (sym ne ∙ (same_iff p root).1 e)) hint place.row place.col
          place.located
          (omega (
            arith,
            ap length place.whole,
            length-append place.above (place.line ∷ place.below),
            place.at_row,
          ))
        ∙ ap₂ {C = Result (ℕ × ℕ)} (λ i j. ok (i, j)) (sym place.at_row) (sym place.parts.column)
    | inl e ↦ ground (
      arith,
      same_iff p root,
      place.located 0,
      Shape-root (breaks_line f.characters) f.projection v.shape,
      ap (column_in f.projection 0) ((same_iff p root).0 e),
      place.at_row,
      place.parts.column,
    )
  ]

  abbrev after : Projection → SharFile
  after proj = record f { characters = chars; projection = proj }

  abbrev line : List Identity
  line = place.parts.front ++ p ∷ place.parts.back

  abbrev slot_scan : Result Slot
  slot_scan =
      scan chars line p k 1 (length line + 0 - length place.parts.front) (length place.parts.front)

  -- The handler's branch for a character, once the loop has its slot.
  place-slot :
      (s : Slot) (line' : List Identity)
      → is_line_break crdt.relation.value ≡ false
      → slot_scan ≡ ok s
      → Fills chars p k s line line'
      → place_crdt (with_character f crdt) crdt true (length place.above, length place.parts.front)
        ≡ (
          after (place.above ++ line' ∷ place.below),
          ok (some (length place.above, slot_column s line)),
        )
  unfolding place_crdt with_character
  place-slot (element q) line' plain run fills = ground (
    arith,
    ap (λ r. get_elem? r (length place.above)) whole,
    get_elem?-middle place.above line place.below,
    ap (λ r. set r (length place.above) line') whole,
    set-middle place.above line line' place.below,
  )
  place-slot (at_end q) line' plain run fills = ground (
    arith,
    ap (λ r. get_elem? r (length place.above)) whole,
    get_elem?-middle place.above line place.below,
    ap (λ r. set r (length place.above) line') whole,
    set-middle place.above line line' place.below,
  )
  place-slot nowhere line' plain run fills = absurd fills

  -- The handler's branch for a line break.
  place-break :
      is_line_break crdt.relation.value ≡ true
      → place_crdt (with_character f crdt) crdt true (length place.above, length place.parts.front)
        ≡ (
          after
              (place.above ++ (place.parts.front ++ p ∷ []) ∷ (k ∷ place.parts.back) ∷ place.below),
          ok (some (length place.above + 1, 0)),
        )
  unfolding place_crdt with_character
  place-break breaks = ground (
    arith,
    add_line-middle f.projection place.above place.below place.parts.front place.parts.back p k
        whole,
  )

  add_crdt-placed :
      (hint : ℕ)
      → add_crdt f hint crdt
        ≡ place_crdt
            (with_character f crdt)
            crdt
            true
            (length place.above, length place.parts.front)
  unfolding add_crdt
  add_crdt-placed hint = ground (arith, found hint)

  head : List Identity
  head = concat place.above ++ place.parts.front

  rest : List Identity
  rest = place.parts.back ++ concat place.below

  whole_document : document f ≡ head ++ p ∷ rest
  unfolding head rest
  whole_document =
      ap concat whole
      ∙ document-place place.above place.parts.front (p ∷ place.parts.back) place.below

  fresh_head : count p head ≡ 0
  unfolding head
  fresh_head = omega (
    arith,
    count-append p (concat place.above) place.parts.front,
    place.fresh_above,
    place.parts.fresh,
  )

  fresh_rest : count k rest ≡ 0
  fresh_rest = omega (
    arith,
    fresh f crdt par v has_parent new visible,
    ap (count k) whole_document,
    count-append k head (p ∷ rest),
  )

  sibling_place-chars :
      (xs : List Identity)
      → count k xs ≡ 0
      → sibling_place chars p k xs ≡ sibling_place f.characters p k xs
  unfolding sibling_place breaks_line
  sibling_place-chars [] h = refl
  sibling_place-chars (x ∷ xs) h = ground (
    arith,
    sibling_place-chars xs,
    same_iff x k,
    same_iff k x,
    get-insert k x crdt.relation f.characters,
  )

  behind_parts :
      All (Plain (breaks_line chars)) place.parts.back
      × All (Anchored (breaks_line chars)) place.below
  behind_parts =
      Shape-behind (breaks_line chars) p place.above place.parts.front place.parts.back place.below
        shape

  Known-back : All (Known chars) place.parts.back
  unfolding rest
  Known-back =
      All-known (Known chars) place.parts.back
        λ j lt. by_count j lt (HashMap.get j f.characters) refl
    where
      by_count :
          (j : Identity)
          → 0 < count j place.parts.back
          → (o : Option CrdtRelation) → HashMap.get j f.characters ≡ o
          → Known chars j
      by_count j lt none e = absurd (
          ground (
            arith,
            v.counts j,
            ap (count j) whole_document,
            count-append j head (p ∷ rest),
            count-append j place.parts.back (concat place.below),
          ))
      by_count j lt (some r) e = (
        if same k j then crdt.relation else r,
        get-insert k j crdt.relation f.characters ∙ ground arith,
      )

  abbrev Outcome : ℕ → Type 0
  Outcome hint =
      (pos : ℕ × ℕ) × ((add_crdt f hint crdt).1 ≡ ok (some pos))
      × (IsWellFormed (add_crdt f hint crdt).0
          × ((add_crdt f hint crdt).0.characters ≡ chars)
          × (document (add_crdt f hint crdt).0 ≡ placed f.characters crdt (document f)))

  outcome :
      (hint : ℕ) (proj : Projection) (pos : ℕ × ℕ) (change : List Identity → List Identity)
      → add_crdt f hint crdt ≡ (after proj, ok (some pos))
      → concat proj ≡ head ++ p ∷ change rest
      → ((j : Identity) → count j (change rest) ≡ count j rest + (if same k j then 1 else 0))
      → Shape (breaks_line chars) proj
      → placed f.characters crdt ≡ behind p change
      → Outcome hint
  outcome hint proj pos change run contents counts shape' spec = (
    pos,
    ap (λ r. r.1) run,
    subst
        (λ g.
          IsWellFormed g
          × (g.characters ≡ chars)
          × (document g ≡ placed f.characters crdt (document f)))
        (sym (ap (λ r. r.0) run))
        (
          grown-IsWellFormed f crdt par v has_parent new visible proj
              (λ j. omega (
                arith,
                ap (count j) contents,
                ap (count j) whole_document,
                counts j,
                count-append j head (p ∷ rest),
                count-append j head (p ∷ change rest),
              ))
              shape',
          refl,
          contents
              ∙ sym (
                  ap (placed f.characters crdt) whole_document
                  ∙ ap (λ g. g (head ++ p ∷ rest)) spec
                  ∙ behind-middle p change head rest fresh_head),
        ),
  )

  break_Outcome : (hint : ℕ) → is_line_break crdt.relation.value ≡ true → Outcome hint
  unfolding placed head rest
  break_Outcome hint breaks =
      outcome hint
        (place.above ++ (place.parts.front ++ p ∷ []) ∷ (k ∷ place.parts.back) ∷ place.below)
        (length place.above + 1, 0) (◌∷◌ k) (add_crdt-placed hint ∙ place-break breaks)
        (document-place place.above place.parts.front (p ∷ [])
          ((k ∷ place.parts.back) ∷ place.below))
        (λ j. omega arith)
        (Shape-split (breaks_line chars) p k place.parts.back
          (kind f crdt par v has_parent new visible ∙ breaks) place.above place.parts.front
          place.below shape)
        (rw breaks)

  cell_Outcome : (hint : ℕ) → is_line_break crdt.relation.value ≡ false → Outcome hint
  unfolding placed head rest
  cell_Outcome hint plain =
      let (s, run, fills) =
        scan-fills chars p k (place.parts.front ++ p ∷ []) place.parts.back 1
          (length line + 0 - length place.parts.front) (length place.parts.front)
          (omega (arith, length-append place.parts.front (p ∷ [])))
          (omega (arith, length-append place.parts.front (p ∷ place.parts.back))) behind_parts.0
          Known-back in
      let e : place.parts.front ++ p ∷ [] ++ place.parts.back ≡ line =
        append_assoc place.parts.front (p ∷ []) place.parts.back in
      outcome hint
        (place.above
          ++ (place.parts.front ++ p ∷ sibling_place chars p k place.parts.back) ∷ place.below)
        (length place.above, slot_column s line) (sibling_place f.characters p k)
        (add_crdt-placed hint
          ∙ place-slot s (place.parts.front ++ p ∷ sibling_place chars p k place.parts.back) plain
              (ap
                  (λ l.
                    scan chars l p k 1 (length line + 0 - length place.parts.front)
                      (length place.parts.front))
                  (sym e)
                ∙ run)
              (subst
                (λ l.
                  Fills chars p k s l
                    (place.parts.front ++ p ∷ sibling_place chars p k place.parts.back))
                e
                (subst (Fills chars p k s (place.parts.front ++ p ∷ [] ++ place.parts.back))
                  (append_assoc place.parts.front (p ∷ [])
                    (sibling_place chars p k place.parts.back))
                  fills)))
        (document-place place.above place.parts.front (p ∷ sibling_place chars p k place.parts.back)
            place.below
          ∙ ap (λ l. (concat place.above ++ place.parts.front) ++ p ∷ l)
              (sym (sibling_place-row chars p k place.parts.back place.below behind_parts.1)
                ∙ sibling_place-chars rest fresh_rest))
        (λ j. count-sibling_place f.characters p k j rest)
        (let grown =
            row_grown (breaks_line chars) p place.parts.back
              (sibling_place chars p k place.parts.back)
              (λ h.
                Plain-sibling_place chars p k (breaks_line chars) place.parts.back
                  (kind f crdt par v has_parent new visible ∙ plain) h)
              place.parts.front in
          Shape-replace (breaks_line chars) place.above _ _ place.below grown.0 grown.1 shape)
        (rw plain)

-- In a well-formed file, whatever the hint: a new node that is not deleted, under a live parent, is
-- inserted, and nothing else changes among the characters. The file stays well formed, and its document changes as specified: a line break goes
-- directly behind its parent, any other character behind the siblings that come first.
pub add_crdt-placed_live :
    (f : SharFile) (hint : ℕ) (crdt : Crdt) {par : CrdtRelation}
    → IsWellFormed f
    → HashMap.get (parent_of crdt.relation) f.characters ≡ some par
    → par.deleted ≡ false
    → HashMap.get (identity_of crdt) f.characters ≡ none
    → crdt.relation.deleted ≡ false
    → (pos : ℕ × ℕ) × ((add_crdt f hint crdt).1 ≡ ok (some pos))
      × (IsWellFormed (add_crdt f hint crdt).0
          × ((add_crdt f hint crdt).0.characters
              ≡ HashMap.insert (identity_of crdt) crdt.relation f.characters)
          × (document (add_crdt f hint crdt).0 ≡ placed f.characters crdt (document f)))
add_crdt-placed_live f hint crdt {par} v has_parent live new visible =
    elim (Bool-cases (is_line_break crdt.relation.value)) [
      | inl breaks ↦ break_Outcome f crdt par v has_parent live new visible hint breaks
      | inr plain ↦ cell_Outcome f crdt par v has_parent live new visible hint plain
    ]
