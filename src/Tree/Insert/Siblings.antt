-- ===== src/Tree/Insert/Siblings.antt =====
-- shar/core/tree.rs, `add_crdt`: the places of two siblings in the document.
use shario.Prelude.{
  Bool, true, false, ◌||◌, List, [], ◌∷◌, if◌then◌else◌, Identity, same_iff, same_refl, ◌≡◌, ◌≢◌,
  refl, arith, identity_eq,
}
use shario.Types.{CrdtRelation, parent_of}
use shario.HashMap
use shario.HashMap.{get-insert}
use shario.Tree.File.{is_line_break, Characters}
use shario.Tree.Insert.{goes_before}
use shario.Tree.Insert.Order.{sibling_place, info}
use shario.Tree.Document.{count, breaks_line}

-- A key that occurs nowhere does not matter to the place.
sibling_place-insert :
    (chars : Characters) (parent k j : Identity) (r : CrdtRelation) (xs : List Identity)
    → count j xs ≡ 0
    → sibling_place (HashMap.insert j r chars) parent k xs ≡ sibling_place chars parent k xs
unfolding sibling_place breaks_line
sibling_place-insert chars parent k j r [] h = refl
sibling_place-insert chars parent k j r (x ∷ xs) h = ground (
  arith,
  sibling_place-insert chars parent k j r xs,
  same_iff x j,
  same_iff j x,
  get-insert j x r chars,
)

-- The tie-break between siblings is total and never puts each before the other.
pub goes_before_total :
    (parent x y : Identity) (rx ry : CrdtRelation)
    → parent_of rx ≡ parent
    → parent_of ry ≡ parent
    → x ≢ y
    → goes_before parent x y ry ≡ (if goes_before parent y x rx then false else true)
unfolding goes_before
goes_before_total parent x y rx ry px py ne =
    ground (arith, same_iff (parent_of rx) parent, same_iff (parent_of ry) parent)

-- What passes `z` also passes what stops before `z`.
goes_before_trans :
    (parent x y z : Identity) (rx rz : CrdtRelation)
    → parent_of rx ≡ parent
    → goes_before parent x z rz ≡ true
    → goes_before parent y z rz ≡ false
    → goes_before parent y x rx ≡ false
unfolding goes_before
goes_before_trans parent x y z rx rz px hx hy = ground (arith, same_iff (parent_of rx) parent)

pub sibling_place-nil :
    (chars : Characters) (parent k : Identity) → sibling_place chars parent k [] ≡ k ∷ []
unfolding sibling_place
sibling_place-nil chars parent k = refl

pub stops : Characters → Identity → Identity → Identity → Bool
stops chars parent k z = breaks_line chars z || goes_before parent k z (info chars z)

pub sibling_place-cons :
    (chars : Characters) (parent k z : Identity) (zs : List Identity)
    → sibling_place chars parent k (z ∷ zs)
      ≡ (if stops chars parent k z then k ∷ z ∷ zs else z ∷ sibling_place chars parent k zs)
unfolding sibling_place stops
sibling_place-cons chars parent k z zs = refl

stops-insert :
    (chars : Characters) (parent k z j : Identity) (r : CrdtRelation)
    → z ≢ j
    → stops (HashMap.insert j r chars) parent k z ≡ stops chars parent k z
unfolding stops breaks_line
stops-insert chars parent k z j r ne = ground (arith, same_iff j z, get-insert j z r chars)

pub stops-inserted :
    (chars : Characters) (parent k j : Identity) (r : CrdtRelation)
    → is_line_break r.value ≡ false
    → stops (HashMap.insert j r chars) parent k j ≡ goes_before parent k j r
unfolding stops breaks_line
stops-inserted chars parent k j r plain = ground (arith, same_refl j, get-insert j j r chars)

stops_trans :
    (chars : Characters) (parent x y z : Identity) (rx : CrdtRelation)
    → parent_of rx ≡ parent
    → stops chars parent x z ≡ true
    → stops chars parent y z ≡ false
    → goes_before parent y x rx ≡ false
unfolding stops
stops_trans chars parent x y z rx px hx hy =
    ground (arith, goes_before_trans parent x y z rx (info chars z))

module _ (chars : Characters) (p x y : Identity) (rx ry : CrdtRelation) (px : parent_of rx ≡ p)
    (py : parent_of ry ≡ p) (ne : x ≢ y) (plain_x : is_line_break rx.value ≡ false)
    (plain_y : is_line_break ry.value ≡ false) where
  abbrev with_x : Characters
  with_x = HashMap.insert x rx chars

  abbrev with_y : Characters
  with_y = HashMap.insert y ry chars

  -- Siblings commute, whatever stands behind their parent.
  pub sibling_place_comm :
      (xs : List Identity)
      → count x xs ≡ 0
      → count y xs ≡ 0
      → sibling_place with_x p y (sibling_place chars p x xs)
        ≡ sibling_place with_y p x (sibling_place chars p y xs)
  sibling_place_comm [] hx hy = ground (
    arith,
    goes_before_total p x y rx ry px py ne,
    stops-inserted chars p y x rx plain_x,
    stops-inserted chars p x y ry plain_y,
    sibling_place-nil chars p x,
    sibling_place-nil chars p y,
    sibling_place-nil with_x p y,
    sibling_place-nil with_y p x,
    sibling_place-cons with_x p y x [],
    sibling_place-cons with_y p x y [],
  )
  sibling_place_comm (z ∷ zs) hx hy =
      let x_z : x ≢ z = λ e. absurd (ground (arith, same_iff z x)) in
      let y_z : y ≢ z = λ e. absurd (ground (arith, same_iff z y)) in
      ground (
        arith,
        goes_before_total p x y rx ry px py ne,
        stops-inserted chars p y x rx plain_x,
        stops-inserted chars p x y ry plain_y,
        stops-insert chars p y z x rx,
        stops-insert chars p x z y ry,
        stops_trans chars p x y z rx px,
        stops_trans chars p y x z ry py,
        sibling_place_comm zs,
        sibling_place-cons chars p x z zs,
        sibling_place-cons chars p y z zs,
        sibling_place-cons with_x p y x (z ∷ zs),
        sibling_place-cons with_y p x y (z ∷ zs),
        sibling_place-cons with_x p y z zs,
        sibling_place-cons with_y p x z zs,
        sibling_place-cons with_x p y z (sibling_place chars p x zs),
        sibling_place-cons with_y p x z (sibling_place chars p y zs),
        sibling_place-insert chars p x y ry zs,
        sibling_place-insert chars p y x rx zs,
      )
