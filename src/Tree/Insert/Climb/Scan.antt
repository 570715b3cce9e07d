-- ===== src/Tree/Insert/Climb/Scan.antt =====
-- shar/core/tree.rs, `find_tombstone` and `add_crdt`: what the loop over a line passes, and where it stops.
use mathlib.Core.Option.{some-ne-none}
use shario.Prelude.{
  ℕ, zero, suc, ◌+◌, ◌-◌, ◌<◌, ◌≤◌, false, none, some, List, [], ◌∷◌, ◌++◌, Identity, same_iff,
  same_refl, concat, ◌≡◌, refl, sym, ap, ◌∙◌, subst, arith, Bool-cases, Option-cases, inl, inr,
  identity_eq, length, get_elem?, ltb, ◌==◌, ==_iff,
}
use shario.Types.{CrdtRelation, parent_of, ok}
use shario.HashMap
use shario.Tree.File.{SharFile, Characters}
use shario.Tree.Search.Ring.{lt-length}
use shario.Tree.Insert.{
  Slot, element, at_end, nowhere, scan, goes_before, tombstone_slot, slot_position,
}
use shario.Tree.Insert.Order.{Known}
use shario.Tree.Document.{IsWellFormed, live_count, count, count-append, concat-append}

-- A node itself, and its ancestors.
pub data Lineage (chars : Characters) : Identity → Identity → Type 0 where
  self : {k : Identity} → Lineage chars k k
  ancestor :
      {k a : Identity} {r : CrdtRelation}
      → HashMap.get k chars ≡ some r
      → Lineage chars (parent_of r) a
      → Lineage chars k a

pub parent-Lineage :
    (chars : Characters) {k : Identity} {r : CrdtRelation}
    → HashMap.get k chars ≡ some r
    → (q : Identity) → parent_of r ≡ q
    → Lineage chars k q
parent-Lineage chars {k} {r} here q e = ancestor here (subst (Lineage chars (parent_of r)) e self)

-- The nodes from column `low` of a line up to `high`, as children of nodes of a kind.
abbrev pub Passed : Characters → (Identity → Type 0) → List Identity → ℕ → ℕ → Type 0
Passed chars IsParent line low high =
    (i : ℕ) (x : Identity)
    → low ≤ i
    → i < high
    → get_elem? line i ≡ some x
    → (r : CrdtRelation) × (HashMap.get x chars ≡ some r) × IsParent (parent_of r)

-- Where the loop can stop in a line: not in front of `low`.
abbrev pub Stops : List Identity → ℕ → Slot → Type 0
Stops line low (element p) = (low ≤ p) × (p < length line)
Stops line low (at_end p) = (low ≤ p) × (p ≡ length line)
Stops line low nowhere = ⊥

abbrev pub AllKnown : Characters → List Identity → Type 0
AllKnown chars line = (i : ℕ) (x : Identity) → get_elem? line i ≡ some x → Known chars x

get_elem?-past {ℓ} : {A : Type ℓ} (xs : List A) (i : ℕ) → get_elem? xs i ≡ none → length xs ≤ i
get_elem?-past [] i e = omega arith
get_elem?-past (x ∷ xs) zero e = absurd (some-ne-none _ e)
get_elem?-past (x ∷ xs) (suc i) e = omega (arith, get_elem?-past xs i e)

module _ (chars : Characters) (IsParent : Identity → Type 0) (line : List Identity) where
  pub Passed-none : (low : ℕ) → Passed chars IsParent line low low
  Passed-none low i x le lt = absurd (omega (arith, le, lt))

  pub Passed-cons :
      (low high : ℕ) (next : Identity) (r : CrdtRelation)
      → get_elem? line low ≡ some next
      → HashMap.get next chars ≡ some r
      → IsParent (parent_of r)
      → Passed chars IsParent line (suc low) high
      → Passed chars IsParent line low high
  Passed-cons low high next r here knows parent more i x le lt at = elim (Bool-cases (i == low)) [
    | inl e ↦ (r, known_here ((==_iff i low).0 e), parent)
    | inr ne ↦ more i x (ground (arith, ==_iff i low)) lt at
  ]
    where
      same_entry : some next ≡ some x → HashMap.get x chars ≡ some r
      same_entry e = cc

      known_here : i ≡ low → HashMap.get x chars ≡ some r
      known_here e = same_entry (sym here ∙ sym (ap (get_elem? line) e) ∙ at)

  pub Passed-append :
      (low mid high : ℕ)
      → Passed chars IsParent line low mid
      → Passed chars IsParent line mid high
      → Passed chars IsParent line low high
  Passed-append low mid high before behind i x le lt at = elim (Bool-cases (ltb i mid)) [
    | inl lo ↦ before i x le (ground arith) at
    | inr hi ↦ behind i x (ground arith) lt at
  ]

  pub Passed-map :
      (Other : Identity → Type 0) (low high : ℕ)
      → ((q : Identity) → IsParent q → Other q)
      → Passed chars IsParent line low high
      → Passed chars Other line low high
  Passed-map Other low high f passed i x le lt at =
      let (r, knows, parent) = passed i x le lt at in (r, knows, f (parent_of r) parent)

abbrev pub slot_end : Slot → ℕ
slot_end (element p) = p
slot_end (at_end p) = p
slot_end nowhere = 0

goes_before-passed :
    (parent k x : Identity) (r : CrdtRelation)
    → goes_before parent k x r ≡ false
    → parent_of r ≡ parent
unfolding goes_before
goes_before-passed parent k x r h = (same_iff (parent_of r) parent).0 (ground arith)

-- With a round for each place that is left, the loop stops, having passed children of the parent only.
pub scan-Stops :
    (chars : Characters) (line : List Identity) (parent k : Identity) (offset rounds j : ℕ)
    → AllKnown chars line
    → j + offset ≤ length line
    → length line < j + offset + rounds
    → (s : Slot) × (scan chars line parent k offset rounds j ≡ ok s)
      × Stops line (j + offset) s
      × Passed chars (◌≡◌ parent) line (j + offset) (slot_end s)
unfolding scan
scan-Stops chars line parent k offset zero j known fits enough =
    absurd (omega (arith, fits, enough))
scan-Stops chars line parent k offset (suc rounds) j known fits enough =
    elim (Option-cases (get_elem? line (j + offset))) [
      | inl past ↦ (
        at_end (j + offset),
        ground arith,
        (omega arith, omega (arith, fits, get_elem?-past line (j + offset) past)),
        Passed-none chars (◌≡◌ parent) line (j + offset),
      )
      | inr (next, here) ↦
          let (r, knows) = known (j + offset) next here in
          let inside = lt-length line (j + offset) here in
          elim (Bool-cases (goes_before parent k next r)) [
            | inl stops ↦ (
              element (j + offset),
              ground arith,
              (omega arith, inside),
              Passed-none chars (◌≡◌ parent) line (j + offset),
            )
            | inr goes ↦
                let (s, run, at, passed) =
                  scan-Stops chars line parent k offset rounds (j + 1) known (omega (arith, inside))
                    (omega (arith, enough)) in
                (
                  s,
                  ground (arith, run),
                  later s at,
                  Passed-cons chars (◌≡◌ parent) line (j + offset) (slot_end s) next r here knows
                      (sym (goes_before-passed parent k next r goes))
                      (λ i x le. passed i x (omega (arith, le))),
                )
          ]
    ]
  where
    later : (s : Slot) → Stops line ((j + 1) + offset) s → Stops line (j + offset) s
    later (element p) h = (omega (arith, h.0), h.1)
    later (at_end p) h = (omega (arith, h.0), h.1)
    later nowhere h = h

-- Where an element of a list stands.
pub parted {ℓ} :
    {A : Type ℓ} (xs : List A) (i : ℕ) (x : A)
    → get_elem? xs i ≡ some x
    → (front : List A) × (back : List A) × (xs ≡ front ++ x ∷ back) × (length front ≡ i)
parted [] i x h = absurd (some-ne-none _ (sym h))
parted (y ∷ ys) zero x h = ([], ys, cc, refl)
parted (y ∷ ys) (suc i) x h =
    let (front, back, whole, at) = parted ys i x h in (y ∷ front, back, ap (◌∷◌ y) whole, ap suc at)

pub Known-live_count :
    (chars : Characters) (x : Identity) → 0 < live_count (HashMap.get x chars) → Known chars x
Known-live_count chars x h = elim (Option-cases (HashMap.get x chars)) [
  | inl e ↦ absurd (omega (arith, subst (λ o. 0 < live_count o) e h))
  | inr known ↦ known
]

-- Each element of a row is known.
pub row-AllKnown :
    (f : SharFile) (row : ℕ) (line : List Identity)
    → IsWellFormed f
    → get_elem? f.projection row ≡ some line
    → AllKnown f.characters line
row-AllKnown f row line v at i x here =
    let (above, below, whole, _) = parted f.projection row line at in
    let (front, back, parts, _) = parted line i x here in
    Known-live_count f.characters x (
      subst (◌<◌ 0) (v.counts x) (
        subst (λ n. 0 < count x n) (sym (ap concat whole ∙ concat-append above (line ∷ below)))
          (omega (
            arith,
            count-append x (concat above) (line ++ concat below),
            count-append x line (concat below),
            ap (count x) parts,
            count-append x front (x ∷ back),
            here_once x back,
          ))))
  where
    here_once : (x : Identity) (back : List Identity) → count x (x ∷ back) ≡ suc (count x back)
    here_once x back = ground (arith, same_refl x)

pub tombstone_slot-inside :
    (f : SharFile) (k : Identity) (relation : CrdtRelation) (offset extra row col : ℕ)
    (line : List Identity)
    → get_elem? f.projection row ≡ some line
    → AllKnown f.characters line
    → col + offset ≤ length line
    → 1 ≤ offset + extra
    → (p : ℕ) × (tombstone_slot f k relation offset extra (ok (row, col)) ≡ ok (row, p))
      × (col + offset ≤ p)
      × (p ≤ length line)
      × Passed f.characters (◌≡◌ (parent_of relation)) line (col + offset) p
unfolding tombstone_slot slot_position
tombstone_slot-inside f k relation offset extra row col line at known fits steps =
    let (s, run, stops, passed) =
      scan-Stops f.characters line (parent_of relation) k offset (length line + extra - col) col
        known fits (omega (arith, fits, steps)) in
    by_slot s run stops passed
  where
    by_slot :
        (s : Slot)
        → scan f.characters line (parent_of relation) k offset (length line + extra - col) col
          ≡ ok s
        → Stops line (col + offset) s
        → Passed f.characters (◌≡◌ (parent_of relation)) line (col + offset) (slot_end s)
        → (p : ℕ) × (tombstone_slot f k relation offset extra (ok (row, col)) ≡ ok (row, p))
          × (col + offset ≤ p)
          × (p ≤ length line)
          × Passed f.characters (◌≡◌ (parent_of relation)) line (col + offset) p
    by_slot (element p) run h passed = (p, ground (arith, at, run), h.0, omega (arith, h.1), passed)
    by_slot (at_end p) run h passed = (p, ground (arith, at, run), h.0, omega (arith, h.1), passed)
    by_slot nowhere run h passed = absurd h
