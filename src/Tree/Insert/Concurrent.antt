-- ===== src/Tree/Insert/Concurrent.antt =====
-- shar/core/tree.rs, `add_crdt`: concurrent insertions of characters under one parent.
use shario.Prelude.{
  ℕ, false, Option, none, some, List, ◌∷◌, ◌++◌, Identity, same_iff, ◌≡◌, ◌≢◌, sym, ap, ◌∙◌, arith,
  identity_eq,
}
use shario.Types.{CrdtRelation, Crdt, parent_of, identity_of}
use shario.HashMap
use shario.HashMap.{get-insert}
use shario.Tree.File.{is_line_break, Characters, SharFile}
use shario.Tree.Insert.{add_crdt}
use shario.Tree.Insert.Order.{placed, behind, behind-middle, sibling_place}
use shario.Tree.Insert.Live.{add_crdt-placed_live}
use shario.Tree.Insert.Siblings.{sibling_place_comm}
use shario.Tree.Document.{
  document, count, count-append, live_count, IsWellFormed, Parts, position-present,
}

placed_plain :
    (chars : Characters) (crdt : Crdt) (doc : List Identity)
    → is_line_break crdt.relation.value ≡ false
    → placed chars crdt doc
      ≡ behind
          (parent_of crdt.relation)
          (sibling_place chars (parent_of crdt.relation) (identity_of crdt))
          doc
unfolding placed
placed_plain chars crdt doc plain = rw plain

pub get-insert_ne :
    (chars : Characters) (j k : Identity) (r : CrdtRelation) {o : Option CrdtRelation}
    → HashMap.get j chars ≡ o
    → k ≢ j
    → HashMap.get j (HashMap.insert k r chars) ≡ o
get-insert_ne chars j k r e ne = get-insert k j r chars ∙ ground (arith, same_iff k j)

pub present_ne :
    (chars : Characters) (j k : Identity) {r : CrdtRelation}
    → HashMap.get j chars ≡ some r
    → HashMap.get k chars ≡ none
    → k ≢ j
present_ne chars j k h n e = cc (ap (λ i. HashMap.get i chars) e)

-- What a node to be inserted is: not deleted, unknown so far, no line break, a child of `parent`.
pub record IsNewChild (f : SharFile) (parent : Identity) (crdt : Crdt) : Type 0 where
  pub under : parent_of crdt.relation ≡ parent
  pub unknown : HashMap.get (identity_of crdt) f.characters ≡ none
  pub visible : crdt.relation.deleted ≡ false
  pub plain : is_line_break crdt.relation.value ≡ false

module _ (f : SharFile) (parent : Identity) {par : CrdtRelation} (v : IsWellFormed f)
    (has_parent : HashMap.get parent f.characters ≡ some par) (live : par.deleted ≡ false) where
  -- The insertion of a child, by the part of the document behind its parent.
  pub insert_child :
      (crdt : Crdt) (hint : ℕ) (front back : List Identity)
      → IsNewChild f parent crdt
      → document f ≡ front ++ parent ∷ back
      → count parent front ≡ 0
      → IsWellFormed (add_crdt f hint crdt).0
        × ((add_crdt f hint crdt).0.characters
            ≡ HashMap.insert (identity_of crdt) crdt.relation f.characters)
        × (document (add_crdt f hint crdt).0
            ≡ front ++ parent ∷ sibling_place f.characters parent (identity_of crdt) back)
  insert_child crdt hint front back c whole fresh =
      let (pos, result, (well, chars, doc)) =
        add_crdt-placed_live f hint crdt v
          (ap (λ j. HashMap.get j f.characters) c.under ∙ has_parent) live c.unknown c.visible in
      (
        well,
        chars,
        doc
            ∙ placed_plain f.characters crdt (document f) c.plain
            ∙ ap (λ q. behind q (sibling_place f.characters q (identity_of crdt)) (document f))
                c.under
            ∙ ap (behind parent (sibling_place f.characters parent (identity_of crdt))) whole
            ∙ behind-middle parent (sibling_place f.characters parent (identity_of crdt)) front back
                fresh,
      )

  -- What an insertion leaves of the premises of the next one.
  pub still_child :
      (x y : Crdt) (hint : ℕ)
      → IsNewChild f parent y
      → identity_of x ≢ identity_of y
      → (add_crdt f hint x).0.characters ≡ HashMap.insert (identity_of x) x.relation f.characters
      → IsNewChild (add_crdt f hint x).0 parent y
  still_child x y hint c ne e = record {
    under = c.under;
    visible = c.visible;
    plain = c.plain;
    unknown =
        ap (HashMap.get (identity_of y)) e
        ∙ get-insert_ne f.characters (identity_of y) (identity_of x) x.relation c.unknown ne;
  }

-- One child after another, as the specification has it.
abbrev pub InsertedBoth :
    SharFile → Identity → Crdt → Crdt → SharFile → List Identity → List Identity → Type 0
InsertedBoth f parent x y g front back =
    (g.characters
      ≡ HashMap.insert (identity_of y) y.relation
          (HashMap.insert (identity_of x) x.relation f.characters))
    × (document g
        ≡ front
          ++ parent
            ∷ sibling_place (HashMap.insert (identity_of x) x.relation f.characters) parent
                (identity_of y) (sibling_place f.characters parent (identity_of x) back))

module _ (f : SharFile) (parent : Identity) {par : CrdtRelation} (v : IsWellFormed f)
    (has_parent : HashMap.get parent f.characters ≡ some par) (live : par.deleted ≡ false) where
  pub insert_children_lem :
      (x y : Crdt) (h₁ h₂ : ℕ) (front back : List Identity)
      → IsNewChild f parent x
      → IsNewChild f parent y
      → identity_of x ≢ identity_of y
      → document f ≡ front ++ parent ∷ back
      → count parent front ≡ 0
      → InsertedBoth f parent x y (add_crdt (add_crdt f h₁ x).0 h₂ y).0 front back
  insert_children_lem x y h₁ h₂ front back cx cy ne whole fresh =
      let (well, chars, doc) =
        insert_child f parent v has_parent live x h₁ front back cx whole fresh in
      let (well', chars', doc') =
        insert_child (add_crdt f h₁ x).0 parent well
          (ap (HashMap.get parent) chars
            ∙ get-insert_ne f.characters parent (identity_of x) x.relation has_parent
                (present_ne f.characters parent (identity_of x) has_parent cx.unknown))
          live y h₂ front (sibling_place f.characters parent (identity_of x) back)
          (still_child f parent v has_parent live x y h₁ cy ne chars) doc fresh in
      (
        chars' ∙ ap (HashMap.insert (identity_of y) y.relation) chars,
        doc'
            ∙ ap
                (λ c.
                  front
                  ++ parent
                    ∷ sibling_place c parent (identity_of y)
                        (sibling_place f.characters parent (identity_of x) back))
                chars,
      )

-- Two replicas agree: they know the same nodes, whatever the order in their maps, and show the same text.
abbrev pub Agree : SharFile → SharFile → Type 0
Agree f g =
    ((j : Identity) → HashMap.get j f.characters ≡ HashMap.get j g.characters)
    × (document f ≡ document g)

insert_twice :
    (x y : Identity) (rx ry : CrdtRelation) (chars : Characters) (j : Identity)
    → x ≢ y
    → HashMap.get j (HashMap.insert y ry (HashMap.insert x rx chars))
      ≡ HashMap.get j (HashMap.insert x rx (HashMap.insert y ry chars))
insert_twice x y rx ry chars j ne = ground (
  arith,
  get-insert y j ry (HashMap.insert x rx chars),
  get-insert x j rx chars,
  get-insert x j rx (HashMap.insert y ry chars),
  get-insert y j ry chars,
  same_iff x j,
  same_iff y j,
)

-- A node that is new occurs nowhere in the document.
pub not_in_document :
    (f : SharFile) (k : Identity) (front back : List Identity)
    → IsWellFormed f
    → HashMap.get k f.characters ≡ none
    → document f ≡ front ++ back
    → (count k front ≡ 0) × (count k back ≡ 0)
not_in_document f k front back v gone whole = (
  omega (arith, ap (count k) whole, count-append k front back, v.counts k, ap live_count gone),
  omega (arith, ap (count k) whole, count-append k front back, v.counts k, ap live_count gone),
)

-- From one well-formed file, two replicas that apply two concurrent insertions under one live parent
-- in either order, with any hints, agree on the characters and on the document: both nodes are new,
-- not deleted and no line breaks, with distinct identities.
pub siblings_commute :
    (f : SharFile) (parent : Identity) (x y : Crdt) (h₁ h₂ h₃ h₄ : ℕ) {par : CrdtRelation}
    → IsWellFormed f
    → HashMap.get parent f.characters ≡ some par
    → par.deleted ≡ false
    → IsNewChild f parent x
    → IsNewChild f parent y
    → identity_of x ≢ identity_of y
    → Agree (add_crdt (add_crdt f h₁ x).0 h₂ y).0 (add_crdt (add_crdt f h₃ y).0 h₄ x).0
siblings_commute f parent x y h₁ h₂ h₃ h₄ {par} v has_parent live cx cy ne =
    by_parts (position-present parent (document f) (ground (arith, v.counts parent))).2
  where
    gone :
        (z : Crdt) (front back : List Identity)
        → IsNewChild f parent z
        → document f ≡ front ++ parent ∷ back
        → count (identity_of z) back ≡ 0
    gone z front back c whole =
        omega (arith, (not_in_document f (identity_of z) front (parent ∷ back) v c.unknown whole).1)

    by_parts :
        {c : ℕ}
        → Parts parent (document f) c
        → Agree (add_crdt (add_crdt f h₁ x).0 h₂ y).0 (add_crdt (add_crdt f h₃ y).0 h₄ x).0
    by_parts parts =
        let (chars, doc) =
          insert_children_lem f parent v has_parent live x y h₁ h₂ parts.front parts.back cx cy ne
            parts.whole parts.fresh in
        let (chars', doc') =
          insert_children_lem f parent v has_parent live y x h₃ h₄ parts.front parts.back cy cx
            (λ e. ne (sym e)) parts.whole parts.fresh in
        (
          λ j.
              ap (HashMap.get j) chars
              ∙ insert_twice (identity_of x) (identity_of y) x.relation y.relation f.characters j ne
              ∙ sym (ap (HashMap.get j) chars'),
          doc
              ∙ ap (λ l. parts.front ++ parent ∷ l)
                  (sibling_place_comm f.characters parent (identity_of x) (identity_of y) x.relation
                    y.relation cx.under cy.under ne cx.plain cy.plain parts.back
                    (gone x parts.front parts.back cx parts.whole)
                    (gone y parts.front parts.back cy parts.whole))
              ∙ sym doc',
        )
