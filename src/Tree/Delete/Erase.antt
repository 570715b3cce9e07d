-- ===== src/Tree/Delete/Erase.antt =====
-- shar/core/tree.rs, `remove_crdt`: what a removal makes of the document.
pub mod Middle
use mathlib.Core.Path.{ap₂}
use shario.Prelude.{
  ℕ, suc, ◌+◌, Bool, true, false, Option, none, some, List, [], ◌∷◌, ◌++◌, if◌then◌else◌, Identity,
  same, same_iff, same_refl, concat, ◌≡◌, ◌≢◌, refl, sym, ap, ◌∙◌, subst, arith, Bool-cases, inl,
  inr, identity_eq, length, get_elem?, set, remove_at, append_assoc, append-nil, length-append,
}
use shario.Types.{CrdtRelation, Result, ok, err, generic}
use shario.HashMap
use shario.HashMap.{get-modify, get-insert, remove-absent}
use shario.Tree.File.{is_line_break, Projection, SharFile, root}
use shario.Tree.Search.{find_crdt}
use shario.Tree.Search.Ring.{find_crdt-located}
use shario.Tree.Delete.{tombstoned, remove_anchor, remove_cell, with_tombstone, remove_crdt}
use shario.Tree.Document.{
  document, count, count-append, breaks_line, Plain, FirstRow, Anchored, Shape, IsWellFormed, Place,
  place_of_count, get_elem?-middle, set-middle, remove_at-middle, document-place, concat-append,
  All-append,
}
use shario.Tree.Document.Rows.{
  Shape-replace, Shape-at, Shape-merge, FirstRow-tail, Anchored-tail, breaks_line-modify,
  Rooted-modify,
}
use shario.Tree.Delete.Erase.Middle.{remove_cell-middle, remove_anchor-middle, true_or_false}

-- A list without its first `k`.
unfoldable pub erase : Identity → List Identity → List Identity
erase k [] = []
erase k (x ∷ xs) = if same x k then xs else x ∷ erase k xs

erase-middle :
    (k : Identity) (front back : List Identity)
    → count k front ≡ 0
    → erase k (front ++ k ∷ back) ≡ front ++ back
unfolding erase
erase-middle k [] back h = rw (same_refl k)
erase-middle k (x ∷ xs) back h = ground (arith, erase-middle k xs back)

count-erase :
    (j k : Identity) (front back : List Identity)
    → count j (front ++ k ∷ back) ≡ count j (front ++ back) + (if same k j then 1 else 0)
count-erase j k front back =
    omega (arith, count-append j front (k ∷ back), count-append j front back)

module _ (f : SharFile) (k : Identity) (r : CrdtRelation) (v : IsWellFormed f) (not_root : k ≢ root)
    (here : HashMap.get k f.characters ≡ some r) (live : r.deleted ≡ false) where
  abbrev Erased : SharFile → Type 0
  Erased g = IsWellFormed g × (document g ≡ erase k (document f))

  place : Place k f.projection
  place = place_of_count k f.projection (v.counts k ∙ ground arith)

  -- Any projection of this shape and these contents will do.
  Erased-intro :
      (proj : Projection) (front back : List Identity)
      → document f ≡ front ++ k ∷ back
      → count k front ≡ 0
      → concat proj ≡ front ++ back
      → Shape (breaks_line f.characters) proj
      → Erased
          (record f { characters = HashMap.modify k tombstoned f.characters; projection = proj })
  Erased-intro proj front back whole fresh parts shape = (
    record {
      shape = subst (λ b. Shape b proj) (sym (breaks_line-modify k f.characters)) shape;
      counts = λ j. ground (
        arith,
        get-modify k j tombstoned f.characters,
        v.counts j,
        same_iff k j,
        ap (count j) whole,
        count-erase j k front back,
        ap (count j) parts,
      );
      rooted = Rooted-modify k f.characters v.rooted;
      sentinel =
          get-modify k root tombstoned f.characters ∙ ground (arith, same_iff k root, v.sentinel);
    },
    parts ∙ sym (ap (erase k) whole ∙ erase-middle k front back fresh),
  )

  -- A character that is no line break never stands at the head of a row.
  row_without :
      (b : Identity → Bool) (front back : List Identity)
      → Plain b k
      → ((FirstRow b (front ++ k ∷ back) → FirstRow b (front ++ back))
          × (Anchored b (front ++ k ∷ back) → Anchored b (front ++ back)))
  row_without b [] back plain = (λ h. absurd (not_root h.0), λ h. absurd (true_or_false plain h.0))
  row_without b (x ∷ front) back plain = (
    FirstRow-tail b x front (k ∷ back) back (λ h. h.1),
    Anchored-tail b x front (k ∷ back) back (λ h. h.1),
  )

  whole : f.projection ≡ place.above ++ (place.parts.front ++ k ∷ place.parts.back) ∷ place.below
  whole = place.whole ∙ ap (λ l. place.above ++ l ∷ place.below) place.parts.whole

  found :
      (hint : ℕ)
      → find_crdt (with_tombstone f k) hint k ≡ ok (length place.above, length place.parts.front)
  unfolding with_tombstone
  found hint =
      find_crdt-located (with_tombstone f k) k not_root hint place.row place.col place.located (
        omega (
          arith,
          ap length place.whole,
          length-append place.above (place.line ∷ place.below),
          place.at_row,
        ))
      ∙ ap₂ {C = Result (ℕ × ℕ)} (λ i j. ok (i, j)) (sym place.at_row) (sym place.parts.column)

  whole_document :
      document f
      ≡ (concat place.above ++ place.parts.front) ++ k ∷ (place.parts.back ++ concat place.below)
  whole_document =
      ap concat whole
      ∙ document-place place.above place.parts.front (k ∷ place.parts.back) place.below

  fresh : count k (concat place.above ++ place.parts.front) ≡ 0
  fresh = omega (
    arith,
    count-append k (concat place.above) place.parts.front,
    place.fresh_above,
    place.parts.fresh,
  )

  shape :
      Shape
        (breaks_line f.characters)
        (place.above ++ (place.parts.front ++ k ∷ place.parts.back) ∷ place.below)
  shape = subst (Shape (breaks_line f.characters)) whole v.shape

  kind : breaks_line f.characters k ≡ is_line_break r.value
  unfolding breaks_line
  kind = rw (here, breaks_line)

  abbrev after : Projection → SharFile
  after proj = record f { characters = HashMap.modify k tombstoned f.characters; projection = proj }

  abbrev Outcome : ℕ → Type 0
  Outcome hint =
      (pos : ℕ × ℕ) × ((remove_crdt f hint k).1 ≡ ok (some pos)) × Erased (remove_crdt f hint k).0

  outcome :
      (hint : ℕ) (g : SharFile) (pos : ℕ × ℕ)
      → remove_crdt f hint k ≡ (g, ok (some pos))
      → Erased g
      → Outcome hint
  outcome hint g pos e h = (pos, ap (λ p. p.1) e, subst Erased (sym (ap (λ p. p.0) e)) h)

  cell_Erased : (hint : ℕ) → is_line_break r.value ≡ false → Outcome hint
  unfolding remove_crdt
  cell_Erased hint plain =
      outcome hint (after (place.above ++ (place.parts.front ++ place.parts.back) ∷ place.below))
        (length place.above, length place.parts.front)
        (ground (
          arith,
          here,
          found hint,
          remove_cell-middle (with_tombstone f k) place.above place.below place.parts.front
              place.parts.back k whole,
        ))
        (Erased-intro _ _ _ whole_document fresh
          (document-place place.above place.parts.front place.parts.back place.below)
          (let w =
              row_without (breaks_line f.characters) place.parts.front place.parts.back
                (kind ∙ plain) in
            Shape-replace (breaks_line f.characters) place.above _ _ place.below w.0 w.1 shape))

  -- The parts of the projection around an anchor: the row above, and the anchor at its row's head.
  record AboveAnchor : Type 0 where
    init : Projection
    prev : List Identity
    above_is : place.above ≡ init ++ prev ∷ []
    front_is : place.parts.front ≡ []

  above_anchor : is_line_break r.value ≡ true → AboveAnchor
  above_anchor is_break =
      elim (Shape-at (breaks_line f.characters) place.above _ place.below shape) [
        | inl (_, first) ↦ absurd (in_first place.parts.front first)
        | inr (init, prev, e, anchored) ↦ record {
          init = init;
          prev = prev;
          above_is = e;
          front_is = at_head place.parts.front anchored;
        }
      ]
    where
      at_break : breaks_line f.characters k ≡ true
      at_break = kind ∙ is_break

      in_first :
          (front : List Identity)
          → FirstRow (breaks_line f.characters) (front ++ k ∷ place.parts.back)
          → ⊥
      in_first [] h = not_root h.0
      in_first (x ∷ xs) h =
          true_or_false ((All-append (Plain (breaks_line f.characters)) xs _).0 h.1).1.0 at_break

      at_head :
          (front : List Identity)
          → Anchored (breaks_line f.characters) (front ++ k ∷ place.parts.back)
          → front ≡ []
      at_head [] h = refl
      at_head (x ∷ xs) h =
          absurd (
            true_or_false ((All-append (Plain (breaks_line f.characters)) xs _).0 h.1).1.0 at_break)

  anchor_Erased : (hint : ℕ) → is_line_break r.value ≡ true → Outcome hint
  unfolding remove_crdt
  anchor_Erased hint is_break =
      let around = above_anchor is_break in
      outcome hint (after (around.init ++ (around.prev ++ place.parts.back) ∷ place.below))
        (suc (length around.init), 0)
        (ground (
          arith,
          here,
          found hint,
          ap length around.above_is,
          length-append around.init (around.prev ∷ []),
          remove_anchor-middle (with_tombstone f k) around.init place.below around.prev
              place.parts.back k 0 (rows around),
        ))
        (Erased-intro _ _ _ whole_document fresh
          (document-place around.init around.prev place.parts.back place.below
            ∙ ap (λ x. x ++ (place.parts.back ++ concat place.below)) (sym (front_document around)))
          (Shape-merge (breaks_line f.characters) around.init around.prev k place.parts.back
            place.below (subst (Shape (breaks_line f.characters)) (rows around) v.shape)))
    where
      rows :
          (a : AboveAnchor) → f.projection ≡ a.init ++ a.prev ∷ (k ∷ place.parts.back) ∷ place.below
      rows a =
          whole
          ∙ ap₂ (λ x y. x ++ (y ++ k ∷ place.parts.back) ∷ place.below) a.above_is a.front_is
          ∙ append_assoc a.init (a.prev ∷ []) ((k ∷ place.parts.back) ∷ place.below)

      front_document :
          (a : AboveAnchor) → concat place.above ++ place.parts.front ≡ concat a.init ++ a.prev
      front_document a =
          ap₂ (λ x y. concat x ++ y) a.above_is a.front_is ∙ simp (concat-append, append-nil)

abbrev pub LiveOutcome : SharFile → Identity → ℕ → Bool → Type 0
LiveOutcome f k hint true = remove_crdt f hint k ≡ (f, ok none)
LiveOutcome f k hint false =
    (pos : ℕ × ℕ) × ((remove_crdt f hint k).1 ≡ ok (some pos))
    × (IsWellFormed (remove_crdt f hint k).0
        × (document (remove_crdt f hint k).0 ≡ erase k (document f)))

-- What a removal does, by what the file knows of its target.
abbrev pub RemoveOutcome : SharFile → Identity → ℕ → Option CrdtRelation → Type 0
RemoveOutcome f k hint none = remove_crdt f hint k ≡ (f, err (generic "crdt cannot be found"))
RemoveOutcome f k hint (some r) = LiveOutcome f k hint r.deleted

-- In a well-formed file, whatever the hint: the removal of a live identity other than the root
-- sentinel succeeds, leaves a well-formed file and takes just this identity out of the document,
-- also where it opened a row; that of a tombstone succeeds without a position and that of an
-- unknown identity is an error, and both leave the file as it was.
pub remove_crdt-erases :
    (f : SharFile) (k : Identity) (hint : ℕ)
    → IsWellFormed f
    → k ≢ root
    → RemoveOutcome f k hint (HashMap.get k f.characters)
unfolding remove_crdt
remove_crdt-erases f k hint v not_root = by_target (HashMap.get k f.characters) refl
  where
    by_flag :
        (r : CrdtRelation) (d : Bool)
        → HashMap.get k f.characters ≡ some r
        → r.deleted ≡ d
        → LiveOutcome f k hint d
    by_flag r true e d = ground arith
    by_flag r false e d = elim (Bool-cases (is_line_break r.value)) [
      | inl breaks ↦ anchor_Erased f k r v not_root e d hint breaks
      | inr plain ↦ cell_Erased f k r v not_root e d hint plain
    ]

    by_target :
        (o : Option CrdtRelation) → HashMap.get k f.characters ≡ o → RemoveOutcome f k hint o
    by_target none e = ground arith
    by_target (some r) e = by_flag r r.deleted e refl
