-- ===== src/Tree/Document/Rows.antt =====
-- shar/core/tree.rs: the rows of a file when one row changes, and when its characters do.
use mathlib.Core.Path.{fun_ext}
use shario.Prelude.{
  Bool, true, none, some, List, [], ◌∷◌, ◌++◌, if◌then◌else◌, Identity, same, same_iff, All, concat,
  ◌≡◌, ◌≢◌, ◌⊎◌, refl, ap, ◌∙◌, arith, Bool-cases, inl, inr, identity_eq,
}
use shario.Types.{CrdtRelation, parent_of}
use shario.HashMap
use shario.HashMap.{get-modify, get-insert, remove-absent}
use shario.Tree.File.{is_line_break, Projection, Characters}
use shario.Tree.Delete.{tombstoned}
use shario.Tree.Document.{
  count, count-append, breaks_line, Plain, FirstRow, Anchored, Shape, Rooted, All-append,
}

initial {ℓ} :
    {A : Type ℓ} (x : A) (xs : List A) → (init : List A) × (y : A) × (x ∷ xs ≡ init ++ y ∷ [])
initial x [] = ([], x, refl)
initial x (y ∷ ys) = let (init, z, e) = initial y ys in (x ∷ init, z, ap (◌∷◌ x) e)

module _ (b : Identity → Bool) where
  pub Shape-replace :
      (above : Projection) (line line' : List Identity) (below : Projection)
      → (FirstRow b line → FirstRow b line')
      → (Anchored b line → Anchored b line')
      → Shape b (above ++ line ∷ below)
      → Shape b (above ++ line' ∷ below)
  Shape-replace [] line line' below f g (h, r) = (f h, r)
  Shape-replace (first ∷ above) line line' below f g (h, r) =
      let parts = (All-append (Anchored b) above (line ∷ below)).0 r in
      (h, (All-append (Anchored b) above (line' ∷ below)).1 (parts.0, (g parts.1.0, parts.1.1)))

  -- Beyond the head of a row stand characters that are no line breaks.
  pub FirstRow-tail :
      (x : Identity) (front back back' : List Identity)
      → (All (Plain b) back → All (Plain b) back')
      → FirstRow b (x ∷ front ++ back)
      → FirstRow b (x ∷ front ++ back')
  FirstRow-tail x front back back' f (h, r) =
      let parts = (All-append (Plain b) front back).0 r in
      (h, (All-append (Plain b) front back').1 (parts.0, f parts.1))

  pub Anchored-tail :
      (x : Identity) (front back back' : List Identity)
      → (All (Plain b) back → All (Plain b) back')
      → Anchored b (x ∷ front ++ back)
      → Anchored b (x ∷ front ++ back')
  Anchored-tail x front back back' f (h, r) =
      let parts = (All-append (Plain b) front back).0 r in
      (h, (All-append (Plain b) front back').1 (parts.0, f parts.1))

  -- A row that is not the first has one above it.
  pub Shape-at :
      (above : Projection) (line : List Identity) (below : Projection)
      → Shape b (above ++ line ∷ below)
      → ((above ≡ []) × FirstRow b line)
        ⊎ ((init : Projection) × (prev : List Identity) × (above ≡ init ++ prev ∷ [])
            × Anchored b line)
  Shape-at [] line below (h, r) = inl (refl, h)
  Shape-at (first ∷ above) line below (h, r) = inr (
    (initial first above).0,
    (initial first above).1,
    (initial first above).2,
    ((All-append (Anchored b) above (line ∷ below)).0 r).1.0,
  )

  -- Two rows made one.
  pub Shape-merge :
      (init : Projection) (prev : List Identity) (anchor : Identity) (back : List Identity)
      (below : Projection)
      → Shape b (init ++ prev ∷ (anchor ∷ back) ∷ below)
      → Shape b (init ++ (prev ++ back) ∷ below)
  Shape-merge [] prev anchor back below (h, (r, rs)) = (first prev h, rs)
    where
      first : (prev : List Identity) → FirstRow b prev → FirstRow b (prev ++ back)
      first [] h = absurd h
      first (x ∷ xs) h = (h.0, (All-append (Plain b) xs back).1 (h.1, r.1))
  Shape-merge (top ∷ init) prev anchor back below (h, r) =
      let parts = (All-append (Anchored b) init (prev ∷ (anchor ∷ back) ∷ below)).0 r in
      (
        h,
        (All-append (Anchored b) init ((prev ++ back) ∷ below)).1
            (parts.0, (joined prev parts.1.0 parts.1.1.0.1, parts.1.1.1)),
      )
    where
      joined :
          (prev : List Identity) → Anchored b prev → All (Plain b) back → Anchored b (prev ++ back)
      joined [] h r = absurd h
      joined (x ∷ xs) h r = (h.0, (All-append (Plain b) xs back).1 (h.1, r))

-- A key that occurs nowhere does not matter.
module _ (b b' : Identity → Bool) (k : Identity)
    (same_else : (j : Identity) → j ≢ k → b' j ≡ b j) where
  differs : (x : Identity) (xs : List Identity) → count k (x ∷ xs) ≡ 0 → x ≢ k
  differs x xs h e = ground (arith, same_iff x k)

  pub Plain-extend : (xs : List Identity) → count k xs ≡ 0 → All (Plain b) xs → All (Plain b') xs
  Plain-extend [] h a = tt
  Plain-extend (x ∷ xs) h a =
      (same_else x (differs x xs h) ∙ a.0, Plain-extend xs (omega arith) a.1)

  FirstRow-extend : (xs : List Identity) → count k xs ≡ 0 → FirstRow b xs → FirstRow b' xs
  FirstRow-extend [] h a = a
  FirstRow-extend (x ∷ xs) h a = (a.0, Plain-extend xs (omega arith) a.1)

  Anchored-extend : (xs : List Identity) → count k xs ≡ 0 → Anchored b xs → Anchored b' xs
  Anchored-extend [] h a = a
  Anchored-extend (x ∷ xs) h a =
      (same_else x (differs x xs h) ∙ a.0, Plain-extend xs (omega arith) a.1)

  rows-extend :
      (rows : Projection)
      → count k (concat rows) ≡ 0
      → All (Anchored b) rows
      → All (Anchored b') rows
  rows-extend [] h a = tt
  rows-extend (x ∷ xs) h a = (
    Anchored-extend x (omega (arith, count-append k x (concat xs))) a.0,
    rows-extend xs (omega (arith, count-append k x (concat xs))) a.1,
  )

  pub Shape-extend : (rows : Projection) → count k (concat rows) ≡ 0 → Shape b rows → Shape b' rows
  Shape-extend [] h a = a
  Shape-extend (x ∷ xs) h a = (
    FirstRow-extend x (omega (arith, count-append k x (concat xs))) a.0,
    rows-extend xs (omega (arith, count-append k x (concat xs))) a.1,
  )

pub breaks_line-modify :
    (k : Identity) (chars : Characters)
    → breaks_line (HashMap.modify k tombstoned chars) ≡ breaks_line chars
unfolding breaks_line
breaks_line-modify k chars = fun_ext λ j. ground (arith, get-modify k j tombstoned chars)

pub breaks_line-insert :
    (k : Identity) (r : CrdtRelation) (chars : Characters) (j : Identity)
    → breaks_line (HashMap.insert k r chars) j
      ≡ (if same k j then is_line_break r.value else breaks_line chars j)
unfolding breaks_line
breaks_line-insert k r chars j = ground (arith, get-insert k j r chars)

pub Rooted-insert :
    (k : Identity) (r p : CrdtRelation) (chars : Characters)
    → Rooted chars
    → HashMap.get k chars ≡ none
    → HashMap.get (parent_of r) chars ≡ some p
    → Rooted (HashMap.insert k r chars)
unfolding HashMap.insert
Rooted-insert k r p chars h e q = rw (remove-absent k chars e) (e, inr (p, q), h)

pub Rooted-modify :
    (k : Identity) (chars : Characters) → Rooted chars → Rooted (HashMap.modify k tombstoned chars)
unfolding HashMap.modify
Rooted-modify k [] h = tt
Rooted-modify k ((j, r) ∷ m) h = elim (Bool-cases (same j k)) [
  | inl e ↦ rw e h
  | inr ne ↦ rw ne (
    get-modify k j tombstoned m ∙ ground arith,
    elim h.1 [
      | inl is_root ↦ inl is_root
      | inr (p, q) ↦ inr (
        if same k (parent_of r) then tombstoned p else p,
        get-modify k (parent_of r) tombstoned m ∙ ground arith,
      )
    ],
    Rooted-modify k m h.2,
  )
]

-- One row parted behind an identity, the second part under a new anchor.
module _ (b : Identity → Bool) (p k : Identity) (back : List Identity) (breaks : b k ≡ true) where
  first_split :
      (front : List Identity)
      → FirstRow b (front ++ p ∷ back)
      → FirstRow b (front ++ p ∷ []) × All (Plain b) back
  first_split [] h = ((h.0, tt), h.1)
  first_split (x ∷ xs) h =
      let parts = (All-append (Plain b) xs (p ∷ back)).0 h.1 in
      ((h.0, (All-append (Plain b) xs (p ∷ [])).1 (parts.0, (parts.1.0, tt))), parts.1.1)

  Anchored-split :
      (front : List Identity)
      → Anchored b (front ++ p ∷ back)
      → Anchored b (front ++ p ∷ []) × All (Plain b) back
  Anchored-split [] h = ((h.0, tt), h.1)
  Anchored-split (x ∷ xs) h =
      let parts = (All-append (Plain b) xs (p ∷ back)).0 h.1 in
      ((h.0, (All-append (Plain b) xs (p ∷ [])).1 (parts.0, (parts.1.0, tt))), parts.1.1)

  pub Shape-split :
      (above : Projection) (front : List Identity) (below : Projection)
      → Shape b (above ++ (front ++ p ∷ back) ∷ below)
      → Shape b (above ++ (front ++ p ∷ []) ∷ (k ∷ back) ∷ below)
  Shape-split [] front below (h, r) = let s = first_split front h in (s.0, ((breaks, s.1), r))
  Shape-split (first ∷ above) front below (h, r) =
      let parts = (All-append (Anchored b) above ((front ++ p ∷ back) ∷ below)).0 r in
      let s = Anchored-split front parts.1.0 in
      (
        h,
        (All-append (Anchored b) above ((front ++ p ∷ []) ∷ (k ∷ back) ∷ below)).1
            (parts.0, (s.0, ((breaks, s.1), parts.1.1))),
      )

-- What stands behind an identity in its row, and in the rows below, breaks no line but at heads.
pub Shape-behind :
    (b : Identity → Bool) (p : Identity) (above : Projection) (front back : List Identity)
    (below : Projection)
    → Shape b (above ++ (front ++ p ∷ back) ∷ below)
    → All (Plain b) back × All (Anchored b) below
Shape-behind b p [] [] back below (h, r) = (h.1, r)
Shape-behind b p [] (x ∷ xs) back below (h, r) =
    (((All-append (Plain b) xs (p ∷ back)).0 h.1).1.1, r)
Shape-behind b p (first ∷ above) [] back below (h, r) =
    let parts = (All-append (Anchored b) above ((p ∷ back) ∷ below)).0 r in (parts.1.0.1, parts.1.1)
Shape-behind b p (first ∷ above) (x ∷ xs) back below (h, r) =
    let parts = (All-append (Anchored b) above ((x ∷ xs ++ p ∷ back) ∷ below)).0 r in
    (((All-append (Plain b) xs (p ∷ back)).0 parts.1.0.1).1.1, parts.1.1)
