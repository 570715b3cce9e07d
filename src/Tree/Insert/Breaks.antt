-- ===== src/Tree/Insert/Breaks.antt =====
-- shar/core/tree.rs, `add_crdt`: two line breaks under one parent, in either order.
use shario.Prelude.{
  ℕ, true, false, none, some, List, [], ◌∷◌, ◌++◌, Identity, same_refl, ◌≡◌, ◌≢◌, sym, ap, ◌∙◌,
  arith, identity_eq,
}
use shario.Types.{CrdtRelation, Crdt, identity_of, parent_of}
use shario.HashMap
use shario.Tree.File.{SharFile, is_line_break, Characters}
use shario.Tree.Insert.{add_crdt}
use shario.Tree.Insert.Order.{placed, behind, behind-middle}
use shario.Tree.Insert.Live.{add_crdt-placed_live}
use shario.Tree.Insert.Concurrent.{get-insert_ne, present_ne}
use shario.Tree.Document.{document, count, count-append, IsWellFormed}

-- A line break to be inserted: not deleted, unknown so far, under `parent`.
pub record IsNewBreak (f : SharFile) (parent : Identity) (crdt : Crdt) : Type 0 where
  pub under : parent_of crdt.relation ≡ parent
  pub unknown : HashMap.get (identity_of crdt) f.characters ≡ none
  pub visible : crdt.relation.deleted ≡ false
  pub breaks : is_line_break crdt.relation.value ≡ true

placed_break :
    (chars : Characters) (crdt : Crdt) (doc : List Identity)
    → is_line_break crdt.relation.value ≡ true
    → placed chars crdt doc ≡ behind (parent_of crdt.relation) (◌∷◌ (identity_of crdt)) doc
unfolding placed
placed_break chars crdt doc breaks = rw breaks

module _ (f : SharFile) (parent : Identity) {par : CrdtRelation} (v : IsWellFormed f)
    (has_parent : HashMap.get parent f.characters ≡ some par) (live : par.deleted ≡ false) where
  insert_break_lem :
      (crdt : Crdt) (hint : ℕ) (front back : List Identity)
      → IsNewBreak f parent crdt
      → document f ≡ front ++ parent ∷ back
      → IsWellFormed (add_crdt f hint crdt).0
        × ((add_crdt f hint crdt).0.characters
            ≡ HashMap.insert (identity_of crdt) crdt.relation f.characters)
        × (document (add_crdt f hint crdt).0 ≡ front ++ parent ∷ identity_of crdt ∷ back)
  insert_break_lem crdt hint front back c whole =
      let (_, _, (well, chars, doc)) =
        add_crdt-placed_live f hint crdt v
          (ap (λ j. HashMap.get j f.characters) c.under ∙ has_parent) live c.unknown c.visible in
      let fresh : count parent front ≡ 0 = ground (
        arith,
        v.counts parent,
        ap (count parent) whole,
        count-append parent front (parent ∷ back),
        same_refl parent,
      ) in
      (
        well,
        chars,
        doc
            ∙ placed_break f.characters crdt (document f) c.breaks
            ∙ ap (λ q. behind q (◌∷◌ (identity_of crdt)) (document f)) c.under
            ∙ ap (behind parent (◌∷◌ (identity_of crdt))) whole
            ∙ behind-middle parent (◌∷◌ (identity_of crdt)) front back fresh,
      )

module _ (f : SharFile) (parent : Identity) {par : CrdtRelation} (v : IsWellFormed f)
    (has_parent : HashMap.get parent f.characters ≡ some par) (live : par.deleted ≡ false) where
  insert_breaks_lem :
      (x y : Crdt) (h₁ h₂ : ℕ) (front back : List Identity)
      → IsNewBreak f parent x
      → IsNewBreak f parent y
      → identity_of x ≢ identity_of y
      → document f ≡ front ++ parent ∷ back
      → IsWellFormed (add_crdt (add_crdt f h₁ x).0 h₂ y).0
        × (document (add_crdt (add_crdt f h₁ x).0 h₂ y).0
            ≡ front ++ parent ∷ identity_of y ∷ identity_of x ∷ back)
  insert_breaks_lem x y h₁ h₂ front back cx cy ne whole =
      let (well, chars, doc) =
        insert_break_lem f parent v has_parent live x h₁ front back cx whole in
      let kept : HashMap.get parent (add_crdt f h₁ x).0.characters ≡ some par =
        ap (HashMap.get parent) chars
        ∙ get-insert_ne f.characters parent (identity_of x) x.relation has_parent
            (present_ne f.characters parent (identity_of x) has_parent cx.unknown) in
      let cy' : IsNewBreak (add_crdt f h₁ x).0 parent y = record {
        under = cy.under;
        visible = cy.visible;
        breaks = cy.breaks;
        unknown =
            ap (HashMap.get (identity_of y)) chars
            ∙ get-insert_ne f.characters (identity_of y) (identity_of x) x.relation cy.unknown ne;
      } in
      let (well', _, doc') =
        insert_break_lem (add_crdt f h₁ x).0 parent well kept live y h₂ front (identity_of x ∷ back)
          cy' doc in
      (well', doc')

append_cancel : (front xs ys : List Identity) → front ++ xs ≡ front ++ ys → xs ≡ ys
append_cancel [] xs ys e = e
append_cancel (z ∷ zs) xs ys e = append_cancel zs xs ys (ground arith)

swapped : (p x y : Identity) (back : List Identity) → p ∷ y ∷ x ∷ back ≡ p ∷ x ∷ y ∷ back → y ≡ x
swapped p x y back e = ground arith

-- In a well-formed file, behind a live parent: of two new line breaks under it with distinct
-- identities, the one that is applied last stands first, whatever their identities and the hints. So
-- two replicas that apply them in different orders show different documents.
pub concurrent_breaks_differ :
    (f : SharFile) (parent : Identity) (front back : List Identity) (x y : Crdt) (h₁ h₂ h₃ h₄ : ℕ)
    {par : CrdtRelation}
    → IsWellFormed f
    → HashMap.get parent f.characters ≡ some par
    → par.deleted ≡ false
    → document f ≡ front ++ parent ∷ back
    → IsNewBreak f parent x
    → IsNewBreak f parent y
    → identity_of x ≢ identity_of y
    → let y_last = (add_crdt (add_crdt f h₁ x).0 h₂ y).0 in
      let x_last = (add_crdt (add_crdt f h₃ y).0 h₄ x).0 in
      (document y_last ≡ front ++ parent ∷ identity_of y ∷ identity_of x ∷ back)
      × (document x_last ≡ front ++ parent ∷ identity_of x ∷ identity_of y ∷ back)
      × (document y_last ≢ document x_last)
concurrent_breaks_differ f parent front back x y h₁ h₂ h₃ h₄ {par} v has_parent live whole cx cy
      ne =
    let d = (insert_breaks_lem f parent v has_parent live x y h₁ h₂ front back cx cy ne whole).1 in
    let d' =
      (insert_breaks_lem f parent v has_parent live y x h₃ h₄ front back cy cx (λ e. ne (sym e))
        whole).1 in
    (
      d,
      d',
      λ e. ne (
          sym (
            swapped parent (identity_of x) (identity_of y) back
              (append_cancel front _ _ (sym d ∙ e ∙ d')))),
    )
