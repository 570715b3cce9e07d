-- ===== src/Tree/Edit.antt =====
-- shar/core/tree.rs: an insertion and what follows it, the same node once more or its removal.
use mathlib.Core.Option.{some-ne-none}
use shario.Prelude.{
  ℕ, none, some, List, [], ◌∷◌, Identity, same, same_refl, ◌≡◌, ◌≢◌, refl, ap, ◌∙◌, sym, arith,
  subst, identity_eq, false, Bool-cases, inl, inr, ◌||◌,
}
use shario.Types.{CrdtRelation, Crdt, identity_of, parent_of, ok}
use shario.HashMap
use shario.HashMap.{get-insert}
use shario.Tree.File.{SharFile, root, Characters, is_line_break}
use shario.Tree.Document.{document, count, IsWellFormed, live_count, breaks_line}
use shario.Tree.Insert.{add_crdt, goes_before}
use shario.Tree.Insert.Order.{placed, behind, sibling_place, info}
use shario.Tree.Insert.Live.{add_crdt-placed_live}
use shario.Tree.Delete.{remove_crdt}
use shario.Tree.Delete.Erase.{erase, RemoveOutcome, LiveOutcome, remove_crdt-erases}

erase-head : (k : Identity) (ys : List Identity) → erase k (k ∷ ys) ≡ ys
unfolding erase
erase-head k ys = rw (same_refl k)

erase-sibling_place :
    (chars : Characters) (p k : Identity) (xs : List Identity)
    → count k xs ≡ 0
    → erase k (sibling_place chars p k xs) ≡ xs
unfolding erase sibling_place
erase-sibling_place chars p k [] h = ground (arith, same_refl k)
erase-sibling_place chars p k (x ∷ xs) h =
    elim (Bool-cases (breaks_line chars x || goes_before p k x (info chars x))) [
      | inl here ↦ rw (here, same_refl k)
      | inr past ↦ rw past (ground (arith, erase-sibling_place chars p k xs))
    ]

erase-behind :
    (k p : Identity) (change : List Identity → List Identity)
    → ((xs : List Identity) → count k xs ≡ 0 → erase k (change xs) ≡ xs)
    → (xs : List Identity) → count k xs ≡ 0
    → erase k (behind p change xs) ≡ xs
unfolding erase behind
erase-behind k p change back [] h = refl
erase-behind k p change back (x ∷ xs) h = ground (arith, back xs, erase-behind k p change back xs)

-- Taking a new node out of the document undoes its placement.
erase-placed :
    (chars : Characters) (crdt : Crdt) (xs : List Identity)
    → count (identity_of crdt) xs ≡ 0
    → erase (identity_of crdt) (placed chars crdt xs) ≡ xs
unfolding placed
erase-placed chars crdt xs h = elim (Bool-cases (is_line_break crdt.relation.value)) [
  | inl breaks ↦ rw breaks (
      erase-behind (identity_of crdt) (parent_of crdt.relation) (◌∷◌ (identity_of crdt))
        (λ ys e. erase-head (identity_of crdt) ys) xs h)
  | inr plain ↦ rw plain (
      erase-behind (identity_of crdt) (parent_of crdt.relation)
        (sibling_place chars (parent_of crdt.relation) (identity_of crdt))
        (erase-sibling_place chars (parent_of crdt.relation) (identity_of crdt)) xs h)
]

not_root :
    (f : SharFile) (k : Identity) → IsWellFormed f → HashMap.get k f.characters ≡ none → k ≢ root
not_root f k v new e =
    some-ne-none _ (sym v.sentinel ∙ ap (λ j. HashMap.get j f.characters) (sym e) ∙ new)

abbrev after : SharFile → ℕ → Crdt → SharFile
after f hint crdt = (add_crdt f hint crdt).0

-- In a well-formed file, a new node that is not deleted is inserted under a live parent and then
-- removed, each with any hint: the removal succeeds, the file stays well formed and the document is
-- what it was before the insertion.
pub remove_crdt-add_crdt :
    (f : SharFile) (hint hint' : ℕ) (crdt : Crdt) {par : CrdtRelation}
    → IsWellFormed f
    → HashMap.get (parent_of crdt.relation) f.characters ≡ some par
    → par.deleted ≡ false
    → HashMap.get (identity_of crdt) f.characters ≡ none
    → crdt.relation.deleted ≡ false
    → (pos : ℕ × ℕ) × ((remove_crdt (after f hint crdt) hint' (identity_of crdt)).1 ≡ ok (some pos))
      × (IsWellFormed (remove_crdt (after f hint crdt) hint' (identity_of crdt)).0
          × (document (remove_crdt (after f hint crdt) hint' (identity_of crdt)).0 ≡ document f))
remove_crdt-add_crdt f hint hint' crdt v has_parent live new visible =
    let (_, _, (wf, chars, doc)) = add_crdt-placed_live f hint crdt v has_parent live new visible in
    let k : Identity = identity_of crdt in
    let known : HashMap.get k (after f hint crdt).characters ≡ some crdt.relation =
      ap (HashMap.get k) chars
      ∙ get-insert k k crdt.relation f.characters
      ∙ ground (arith, same_refl k) in
    let out : RemoveOutcome (after f hint crdt) k hint' (some crdt.relation) =
      subst (RemoveOutcome (after f hint crdt) k hint') known
        (remove_crdt-erases (after f hint crdt) k hint' wf (not_root f k v new)) in
    let o : LiveOutcome (after f hint crdt) k hint' false =
      subst (LiveOutcome (after f hint crdt) k hint') visible out in
    let (pos, told, (wf', gone)) = o in
    (
      pos,
      told,
      (
        wf',
        gone
            ∙ ap (erase k) doc
            ∙ erase-placed f.characters crdt (document f) (v.counts k ∙ ap live_count new),
      ),
    )

add_crdt-known :
    (g : SharFile) (hint : ℕ) (crdt : Crdt) {par r : CrdtRelation}
    → HashMap.get (parent_of crdt.relation) g.characters ≡ some par
    → HashMap.get (identity_of crdt) g.characters ≡ some r
    → add_crdt g hint crdt ≡ (g, ok none)
unfolding add_crdt
add_crdt-known g hint crdt p e = ground arith

still_known :
    (chars : Characters) (k p : Identity) (r : CrdtRelation) {par : CrdtRelation}
    → HashMap.get p chars ≡ some par
    → (r' : CrdtRelation) × (HashMap.get p (HashMap.insert k r chars) ≡ some r')
still_known chars k p r {par} e = elim (Bool-cases (same k p)) [
  | inl here ↦ (r, get-insert k p r chars ∙ ground arith)
  | inr away ↦ (par, get-insert k p r chars ∙ ground arith)
]

-- The same node once more, under the same conditions and with any hint: it is accepted without a
-- position and nothing changes.
pub add_crdt-redelivered :
    (f : SharFile) (hint hint' : ℕ) (crdt : Crdt) {par : CrdtRelation}
    → IsWellFormed f
    → HashMap.get (parent_of crdt.relation) f.characters ≡ some par
    → par.deleted ≡ false
    → HashMap.get (identity_of crdt) f.characters ≡ none
    → crdt.relation.deleted ≡ false
    → add_crdt (after f hint crdt) hint' crdt ≡ (after f hint crdt, ok none)
add_crdt-redelivered f hint hint' crdt {par} v has_parent live new visible =
    let (_, _, (wf, chars, doc)) = add_crdt-placed_live f hint crdt v has_parent live new visible in
    let (r, there) =
      still_known f.characters (identity_of crdt) (parent_of crdt.relation) crdt.relation
        has_parent in
    add_crdt-known (after f hint crdt) hint' crdt {r = crdt.relation}
      (ap (HashMap.get (parent_of crdt.relation)) chars ∙ there)
      (ap (HashMap.get (identity_of crdt)) chars
        ∙ get-insert (identity_of crdt) (identity_of crdt) crdt.relation f.characters
        ∙ ground (arith, same_refl (identity_of crdt)))
