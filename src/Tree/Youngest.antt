-- ===== src/Tree/Youngest.antt =====
-- shar/core/tree.rs: an insertion whose id is above every other, and a removal, by the file's text.
use mathlib.Core.Option.{some-ne-none}
use shario.Prelude.{
  ℕ, zero, suc, ◌+◌, ◌<◌, ◌≤◌, false, Option, none, some, List, [], ◌∷◌, ◌++◌, if◌then◌else◌,
  Identity, same_iff, same_refl, ◌≡◌, ◌≢◌, refl, sym, ap, ◌∙◌, arith, subst, identity_eq, inl, inr,
  Bool-cases, length, insert_at, remove_at, map, append_assoc, ltb,
}
use shario.Types.{CrdtRelation, Crdt, identity_of, parent_of, Result, ok, err, fault}
use shario.HashMap
use shario.HashMap.{get-insert, get-modify}
use shario.Tree.File.{SharFile, root, Characters, is_line_break}
use shario.Tree.Document.{document, count, count-append, live_count, IsWellFormed}
use shario.Tree.Insert.{add_crdt, goes_before}
use shario.Tree.Insert.Order.{placed, behind-middle, sibling_place, info}
use shario.Tree.Insert.Live.{add_crdt-placed_live}
use shario.Tree.Insert.Live.Steps.{insert_at-next}
use shario.Tree.Delete.{
  remove_crdt, tombstoned, with_tombstone, remove_anchor, remove_cell, merge_row,
}
use shario.Tree.Delete.Erase.{erase, LiveOutcome, RemoveOutcome, remove_crdt-erases}
use shario.Tree.Load.RoundTrip.{text, values-insert, value-insert}

-- No identity above the counter is taken.
abbrev pub Fresh : SharFile → ℕ → Type 0
Fresh f counter = (k : Identity) → counter < k.0 → HashMap.get k f.characters ≡ none

live-known :
    (o : Option CrdtRelation)
    → live_count o ≡ 1
    → (r : CrdtRelation) × (o ≡ some r) × (r.deleted ≡ false)
live-known none e = absurd (omega (arith, e))
live-known (some r) e = elim (Bool-cases r.deleted) [
  | inl dead ↦ absurd (ground arith)
  | inr live ↦ (r, refl, live)
]

live_count-le : (o : Option CrdtRelation) → live_count o ≤ 1
live_count-le none = omega arith
live_count-le (some r) = ground arith

module _ (f : SharFile) (v : IsWellFormed f) (front : List Identity) (p : Identity)
    (back : List Identity) (whole : document f ≡ front ++ p ∷ back) where
  counted : (count p front ≡ 0) × (count p back ≡ 0) × (live_count (HashMap.get p f.characters) ≡ 1)
  counted =
      let all : count p front + (count p back + 1) ≡ live_count (HashMap.get p f.characters) =
        omega (
          arith,
          ap (count p) whole,
          count-append p front (p ∷ back),
          v.counts p,
          ap {B = ℕ} (λ d. if d then 1 else 0) (same_refl p),
        ) in
      let most = live_count-le (HashMap.get p f.characters) in
      (omega arith, omega arith, omega arith)

  pub stands : (r : CrdtRelation) × (HashMap.get p f.characters ≡ some r) × (r.deleted ≡ false)
  stands = live-known (HashMap.get p f.characters) counted.2

  pub below_counter : {counter : ℕ} → Fresh f counter → p.0 ≤ counter
  below_counter {counter} fresh = elim (Bool-cases (ltb counter p.0)) [
    | inl above ↦ absurd (some-ne-none _ (sym stands.1 ∙ fresh p (ground arith)))
    | inr below ↦ ground arith
  ]

-- A sibling with an id below goes behind, as does a node of another parent.
sibling_place-first :
    (chars : Characters) (p k : Identity) (xs : List Identity)
    → ((y : Identity) (ys : List Identity) → xs ≡ y ∷ ys → y.0 < k.0)
    → sibling_place chars p k xs ≡ k ∷ xs
unfolding sibling_place goes_before
sibling_place-first chars p k [] young = refl
sibling_place-first chars p k (x ∷ xs) young = ground (arith, young x xs refl)

placed-youngest :
    (chars : Characters) (crdt : Crdt) (front back : List Identity)
    → count (parent_of crdt.relation) front ≡ 0
    → ((y : Identity) (ys : List Identity) → back ≡ y ∷ ys → y.0 < crdt.id)
    → placed chars crdt (front ++ parent_of crdt.relation ∷ back)
      ≡ front ++ parent_of crdt.relation ∷ identity_of crdt ∷ back
unfolding placed
placed-youngest chars crdt front back fresh young =
    elim (Bool-cases (is_line_break crdt.relation.value)) [
      | inl breaks ↦
          rw breaks
            (behind-middle (parent_of crdt.relation) (◌∷◌ (identity_of crdt)) front back fresh)
      | inr plain ↦ rw plain (
          behind-middle (parent_of crdt.relation)
            (sibling_place chars (parent_of crdt.relation) (identity_of crdt)) front back fresh
          ∙ ap (λ l. front ++ parent_of crdt.relation ∷ l)
              (sibling_place-first chars (parent_of crdt.relation) (identity_of crdt) back young))
    ]

map-insert_at {ℓ κ} :
    {A : Type ℓ} {B : Type κ} (g : A → B) (i : ℕ) (x : A) (xs : List A)
    → map g (insert_at i x xs) ≡ insert_at i (g x) (map g xs)
map-insert_at g zero x xs = refl
map-insert_at g (suc i) x [] = refl
map-insert_at g (suc i) x (y ∷ ys) = ap (◌∷◌ (g y)) (map-insert_at g i x ys)

map-remove_at {ℓ κ} :
    {A : Type ℓ} {B : Type κ} (g : A → B) (i : ℕ) (xs : List A)
    → map g (remove_at i xs) ≡ remove_at i (map g xs)
map-remove_at g zero [] = refl
map-remove_at g (suc i) [] = refl
map-remove_at g zero (y ∷ ys) = refl
map-remove_at g (suc i) (y ∷ ys) = ap (◌∷◌ (g y)) (map-remove_at g i ys)

-- What an insertion with the next id leaves.
pub record Grown (f : SharFile) (crdt : Crdt) (front back : List Identity)
    (out : SharFile × Result (Option (ℕ × ℕ))) : Type 0 where
  pub pos : ℕ × ℕ
  pub result : out.1 ≡ ok (some pos)
  pub well_formed : IsWellFormed out.0
  pub grown : document out.0 ≡ front ++ parent_of crdt.relation ∷ identity_of crdt ∷ back
  pub shown : text out.0 ≡ insert_at (length front + 1) crdt.relation.value (text f)
  pub fresh : Fresh out.0 crdt.id

shown_lem :
    (f : SharFile) (crdt : Crdt) (front back : List Identity) (g : SharFile)
    → g.characters ≡ HashMap.insert (identity_of crdt) crdt.relation f.characters
    → document g ≡ front ++ parent_of crdt.relation ∷ identity_of crdt ∷ back
    → document f ≡ front ++ parent_of crdt.relation ∷ back
    → count (identity_of crdt) (document f) ≡ 0
    → text g ≡ insert_at (length front + 1) crdt.relation.value (text f)
shown_lem f crdt front back g chars grown whole new =
    let k : Identity = identity_of crdt in
    let value : Identity → ℕ = λ j. (info (HashMap.insert k crdt.relation f.characters) j).value in
    ap (λ c. map (λ j. (info c j).value) (document g)) chars
    ∙ ap (map value) (
        grown
        ∙ sym (insert_at-next front (parent_of crdt.relation) k back)
        ∙ ap (insert_at (length front + 1) k) (sym whole))
    ∙ map-insert_at value (length front + 1) k (document f)
    ∙ ap (λ c. insert_at (length front + 1) c (map value (document f)))
        (value-insert f.characters k crdt.relation)
    ∙ ap (insert_at (length front + 1) crdt.relation.value)
        (values-insert f.characters k crdt.relation (document f) new)

pub add_crdt-Grown :
    (f : SharFile) (hint : ℕ) (crdt : Crdt) (front back : List Identity) (counter : ℕ)
    → IsWellFormed f
    → document f ≡ front ++ parent_of crdt.relation ∷ back
    → Fresh f counter
    → crdt.id ≡ counter + 1
    → crdt.relation.deleted ≡ false
    → Grown f crdt front back (add_crdt f hint crdt)
add_crdt-Grown f hint crdt front back counter v whole fresh next visible =
    let (par, has_parent, live) = stands f v front (parent_of crdt.relation) back whole in
    let new : HashMap.get (identity_of crdt) f.characters ≡ none =
      fresh (identity_of crdt) (omega arith) in
    let (pos, result, (well, chars, doc)) =
      add_crdt-placed_live f hint crdt v has_parent live new visible in
    let grown : document (add_crdt f hint crdt).0
        ≡ front ++ parent_of crdt.relation ∷ identity_of crdt ∷ back =
      doc
      ∙ ap (placed f.characters crdt) whole
      ∙ placed-youngest f.characters crdt front back
          (counted f v front (parent_of crdt.relation) back whole).0 younger in
    record {
      pos = pos;
      result = result;
      well_formed = well;
      grown = grown;
      shown =
          shown_lem f crdt front back (add_crdt f hint crdt).0 chars grown whole
            (v.counts (identity_of crdt) ∙ ap live_count new);
      fresh = λ k lt.
          ap (HashMap.get k) chars
          ∙ get-insert (identity_of crdt) k crdt.relation f.characters
          ∙ ground (arith, same_iff (identity_of crdt) k, fresh k (omega arith));
    }
  where
    younger : (y : Identity) (ys : List Identity) → back ≡ y ∷ ys → y.0 < crdt.id
    younger y ys e =
        let w : document f ≡ (front ++ parent_of crdt.relation ∷ []) ++ y ∷ ys =
          whole
          ∙ ap (λ b. front ++ parent_of crdt.relation ∷ b) e
          ∙ sym (append_assoc front (parent_of crdt.relation ∷ []) (y ∷ ys)) in
        omega (arith, below_counter f v (front ++ parent_of crdt.relation ∷ []) y ys w fresh)

-- A removal changes a node's flag, and nothing else among the characters.
merge_row-characters :
    (f : SharFile) (row : ℕ) (line : List Identity)
    → (merge_row f row line).0.characters ≡ f.characters
unfolding merge_row
merge_row-characters f row [] = refl
merge_row-characters f zero (x ∷ xs) = refl
merge_row-characters f (suc row) (x ∷ xs) = ground arith

remove_anchor-characters :
    (f : SharFile) (r : Result (ℕ × ℕ)) → (remove_anchor f r).0.characters ≡ f.characters
unfolding remove_anchor
remove_anchor-characters f (err e) = refl
remove_anchor-characters f fault = refl
remove_anchor-characters f (ok (row, col)) = ground (arith, merge_row-characters f)

remove_cell-characters :
    (f : SharFile) (r : Result (ℕ × ℕ)) → (remove_cell f r).0.characters ≡ f.characters
unfolding remove_cell
remove_cell-characters f (err e) = refl
remove_cell-characters f fault = refl
remove_cell-characters f (ok (row, col)) = ground arith

remove_crdt-characters :
    (f : SharFile) (hint : ℕ) (k : Identity) {r : CrdtRelation}
    → HashMap.get k f.characters ≡ some r
    → r.deleted ≡ false
    → (remove_crdt f hint k).0.characters ≡ HashMap.modify k tombstoned f.characters
unfolding remove_crdt with_tombstone
remove_crdt-characters f hint k known live = ground (
  arith,
  remove_anchor-characters (with_tombstone f k),
  remove_cell-characters (with_tombstone f k),
)

value-modify :
    (chars : Characters) (k j : Identity)
    → (info (HashMap.modify k tombstoned chars) j).value ≡ (info chars j).value
value-modify chars k j = ground (arith, get-modify k j tombstoned chars)

values-modify :
    (chars : Characters) (k : Identity) (xs : List Identity)
    → map (λ j. (info (HashMap.modify k tombstoned chars) j).value) xs
      ≡ map (λ j. (info chars j).value) xs
values-modify chars k [] = refl
values-modify chars k (x ∷ xs) = cc (value-modify chars k x, values-modify chars k xs)

-- What a removal leaves.
pub record Shrunk (f : SharFile) (counter : ℕ) (front back : List Identity)
    (out : SharFile × Result (Option (ℕ × ℕ))) : Type 0 where
  pub pos : ℕ × ℕ
  pub result : out.1 ≡ ok (some pos)
  pub well_formed : IsWellFormed out.0
  pub shrunk : document out.0 ≡ front ++ back
  pub shown : text out.0 ≡ remove_at (length front) (text f)
  pub fresh : Fresh out.0 counter

erase-at :
    (k : Identity) (front back : List Identity)
    → count k front ≡ 0
    → (erase k (front ++ k ∷ back) ≡ front ++ back)
      × (remove_at (length front) (front ++ k ∷ back) ≡ front ++ back)
unfolding erase
erase-at k [] back e = (rw (same_refl k), refl)
erase-at k (x ∷ xs) back e =
    let (gone, out) = erase-at k xs back (ground arith) in (ground arith, ap (◌∷◌ x) out)

pub remove_crdt-Shrunk :
    (f : SharFile) (hint : ℕ) (k : Identity) (front back : List Identity) (counter : ℕ)
    → IsWellFormed f
    → k ≢ root
    → document f ≡ front ++ k ∷ back
    → Fresh f counter
    → Shrunk f counter front back (remove_crdt f hint k)
remove_crdt-Shrunk f hint k front back counter v not_root whole fresh =
    let (r, known, live) = stands f v front k back whole in
    let out : RemoveOutcome f k hint (some r) =
      subst (RemoveOutcome f k hint) known (remove_crdt-erases f k hint v not_root) in
    let o : LiveOutcome f k hint false = subst (LiveOutcome f k hint) live out in
    let (pos, result, (well, doc)) = o in
    let chars = remove_crdt-characters f hint k known live in
    let (gone, at) = erase-at k front back (counted f v front k back whole).0 in
    record {
      pos = pos;
      result = result;
      well_formed = well;
      shrunk = doc ∙ ap (erase k) whole ∙ gone;
      shown =
          ap (λ c. map (λ j. (info c j).value) (document (remove_crdt f hint k).0)) chars
          ∙ ap (map (λ j. (info (HashMap.modify k tombstoned f.characters) j).value))
              (doc ∙ ap (erase k) whole ∙ gone ∙ sym at ∙ ap (remove_at (length front)) (sym whole))
          ∙ values-modify f.characters k (remove_at (length front) (document f))
          ∙ map-remove_at (λ j. (info f.characters j).value) (length front) (document f);
      fresh = λ j lt.
          ap (HashMap.get j) chars
          ∙ get-modify k j tombstoned f.characters
          ∙ ground (arith, fresh j lt);
    }
