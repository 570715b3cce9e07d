-- ===== src/Tree/Insert/Order.antt =====
-- shar/core/tree.rs, `add_crdt`: where an insertion under a live parent puts an identity in the document.
use shario.Prelude.{
  ℕ, zero, suc, ◌+◌, ◌<◌, Bool, true, false, ◌||◌, none, some, List, [], ◌∷◌, ◌++◌, if◌then◌else◌,
  Identity, same, same_refl, All, concat, ◌≡◌, refl, sym, ap, ◌∙◌, subst, arith, Bool-cases, inl,
  inr, identity_eq, length, get_elem?, insert_at, append_assoc, append-nil, length-append,
}
use shario.Types.{CrdtRelation, Crdt, new_relation, parent_of, identity_of, ok}
use shario.HashMap
use shario.Tree.File.{is_line_break, Projection, Characters}
use shario.Tree.Insert.{goes_before, Slot, element, at_end, nowhere, scan}
use shario.Tree.Document.{count, breaks_line, Plain, Anchored, get_elem?-middle, insert_at-middle}

abbrev pub info : Characters → Identity → CrdtRelation
info chars k = elim (HashMap.get k chars) [ some r ↦ r | none ↦ new_relation 0 0 0 ]

-- Among what follows `parent`: past the siblings that come first, but never past a line break.
unfoldable pub sibling_place : Characters → Identity → Identity → List Identity → List Identity
sibling_place chars parent k [] = k ∷ []
sibling_place chars parent k (x ∷ xs) =
    let rest = x ∷ sibling_place chars parent k xs in
    if breaks_line chars x || goes_before parent k x (info chars x) then k ∷ x ∷ xs else rest

-- `change` applied to all that stands behind `parent`.
unfoldable pub behind : Identity → (List Identity → List Identity) → List Identity → List Identity
behind parent change [] = []
behind parent change (x ∷ xs) = if same x parent then x ∷ change xs else x ∷ behind parent change xs

-- The document with a new node under a live parent: a line break directly behind the parent, any
-- other character at its place among the siblings.
unfoldable pub placed : Characters → Crdt → List Identity → List Identity
placed chars crdt = behind (parent_of crdt.relation) (
    if is_line_break crdt.relation.value
    then ◌∷◌ (identity_of crdt)
    else sibling_place chars (parent_of crdt.relation) (identity_of crdt))

abbrev pub Known : Characters → Identity → Type 0
Known chars x = (r : CrdtRelation) × (HashMap.get x chars ≡ some r)

pub behind-middle :
    (p : Identity) (change : List Identity → List Identity) (front back : List Identity)
    → count p front ≡ 0
    → behind p change (front ++ p ∷ back) ≡ front ++ p ∷ change back
unfolding behind
behind-middle p change [] back h = rw (same_refl p)
behind-middle p change (x ∷ xs) back h = ground (arith, behind-middle p change xs back)

get_elem?-end {ℓ} : {A : Type ℓ} (xs : List A) → get_elem? (xs ++ []) (length xs) ≡ none
get_elem?-end [] = refl
get_elem?-end (x ∷ xs) = get_elem?-end xs

module _ (chars : Characters) (parent k : Identity) where
  pub count-sibling_place :
      (j : Identity) (xs : List Identity)
      → count j (sibling_place chars parent k xs) ≡ count j xs + (if same k j then 1 else 0)
  unfolding sibling_place
  count-sibling_place j [] = omega arith
  count-sibling_place j (x ∷ xs) = ground (arith, count-sibling_place j xs)

  pub Plain-sibling_place :
      (b : Identity → Bool) (xs : List Identity)
      → Plain b k
      → All (Plain b) xs
      → All (Plain b) (sibling_place chars parent k xs)
  unfolding sibling_place
  Plain-sibling_place b [] p h = (p, tt)
  Plain-sibling_place b (x ∷ xs) p h =
      elim (Bool-cases (breaks_line chars x || goes_before parent k x (info chars x))) [
        | inl stop ↦ rw stop (p, h)
        | inr go ↦ rw go (h.0, Plain-sibling_place b xs p h.1)
      ]

  -- The place lies in the parent's row.
  pub sibling_place-row :
      (xs : List Identity) (below : Projection)
      → All (Anchored (breaks_line chars)) below
      → sibling_place chars parent k (xs ++ concat below)
        ≡ sibling_place chars parent k xs ++ concat below
  unfolding sibling_place
  sibling_place-row [] [] h = refl
  sibling_place-row [] ([] ∷ rows) h = absurd h.0
  sibling_place-row [] ((x ∷ xs) ∷ rows) h = rw (h.0.0)
  sibling_place-row (x ∷ xs) below h = ground (arith, sibling_place-row xs below h)

  -- A slot, as the line that it makes of a line.
  abbrev pub Fills : Slot → List Identity → List Identity → Type 0
  Fills (element p) line result = insert_at p k line ≡ result
  Fills (at_end p) line result = line ++ k ∷ [] ≡ result
  Fills nowhere line result = ⊥

  abbrev pub ScanFills : List Identity → List Identity → ℕ → ℕ → ℕ → Type 0
  ScanFills pre xs offset rounds j =
      (s : Slot) × (scan chars (pre ++ xs) parent k offset rounds j ≡ ok s)
      × Fills s (pre ++ xs) (pre ++ sibling_place chars parent k xs)

  scan-end :
      (pre : List Identity) (offset rounds j : ℕ)
      → j + offset ≡ length pre
      → scan chars (pre ++ []) parent k offset (suc rounds) j ≡ ok (at_end (j + offset))
  unfolding scan
  scan-end pre offset rounds j e = ground (arith, ap (get_elem? (pre ++ [])) e, get_elem?-end pre)

  scan-element :
      (pre : List Identity) (x : Identity) (xs : List Identity) (offset rounds j : ℕ)
      → j + offset ≡ length pre
      → Known chars x
      → goes_before parent k x (info chars x) ≡ true
      → scan chars (pre ++ x ∷ xs) parent k offset (suc rounds) j ≡ ok (element (j + offset))
  unfolding scan
  scan-element pre x xs offset rounds j e (r, known) stop =
      ground (arith, ap (get_elem? (pre ++ x ∷ xs)) e, get_elem?-middle pre x xs)

  scan-next :
      (pre : List Identity) (x : Identity) (xs : List Identity) (offset rounds j : ℕ)
      → j + offset ≡ length pre
      → Known chars x
      → goes_before parent k x (info chars x) ≡ false
      → scan chars (pre ++ x ∷ xs) parent k offset (suc rounds) j
        ≡ scan chars (pre ++ x ∷ xs) parent k offset rounds (j + 1)
  unfolding scan
  scan-next pre x xs offset rounds j e (r, known) go =
      ground (arith, ap (get_elem? (pre ++ x ∷ xs)) e, get_elem?-middle pre x xs)

  -- With a round for each element and one more, the loop ends at the specified place.
  pub scan-fills :
      (pre xs : List Identity) (offset rounds j : ℕ)
      → j + offset ≡ length pre
      → length xs < rounds
      → All (Plain (breaks_line chars)) xs
      → All (Known chars) xs
      → ScanFills pre xs offset rounds j
  unfolding sibling_place
  scan-fills pre xs offset zero j e lt p h = absurd (omega arith)
  scan-fills pre [] offset (suc rounds) j e lt p h =
      (at_end (j + offset), scan-end pre offset rounds j e, ap (λ l. l ++ k ∷ []) (append-nil pre))
  scan-fills pre (x ∷ xs) offset (suc rounds) j e lt p h =
      elim (Bool-cases (goes_before parent k x (info chars x))) [
        | inl stop ↦ (
          element (j + offset),
          scan-element pre x xs offset rounds j e h.0 stop,
          rw (e, p.0, stop) (insert_at-middle pre k (x ∷ xs)),
        )
        | inr go ↦
            let (s, run, fills) =
              scan-fills (pre ++ x ∷ []) xs offset rounds (j + 1)
                (omega (arith, length-append pre (x ∷ []))) (omega arith) p.1 h.1 in
            (
              s,
              scan-next pre x xs offset rounds j e h.0 go
                  ∙ ap (λ l. scan chars l parent k offset rounds (j + 1))
                      (sym (append_assoc pre (x ∷ []) xs))
                  ∙ run,
              rw (p.0, go)
                  (subst (λ l. Fills s l (pre ++ x ∷ sibling_place chars parent k xs))
                    (append_assoc pre (x ∷ []) xs)
                    (subst (Fills s ((pre ++ x ∷ []) ++ xs))
                      (append_assoc pre (x ∷ []) (sibling_place chars parent k xs)) fills)),
            )
      ]
