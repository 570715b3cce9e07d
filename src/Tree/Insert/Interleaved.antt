-- ===== src/Tree/Insert/Interleaved.antt =====
-- shar/core/tree.rs, `add_crdt`: a sibling that arrives after its elder sibling's first child.
use shario.Prelude.{
  ℕ, true, false, some, List, [], ◌∷◌, ◌++◌, if◌then◌else◌, Identity, same_iff, same_refl, ◌≡◌, ◌≢◌,
  sym, ap, ◌∙◌, arith, identity_eq, append_assoc, append-nil,
}
use shario.Types.{CrdtRelation, Crdt, parent_of, identity_of}
use shario.HashMap
use shario.HashMap.{get-insert}
use shario.Tree.File.{is_line_break, Characters, SharFile}
use shario.Tree.Insert.{goes_before, add_crdt}
use shario.Tree.Insert.Order.{sibling_place}
use shario.Tree.Insert.Siblings.{sibling_place-nil, goes_before_total}
use shario.Tree.Insert.Concurrent.{
  IsNewChild, insert_child, get-insert_ne, present_ne, not_in_document,
}
use shario.Tree.Document.{document, count, count-append, live_count, breaks_line, IsWellFormed}

append_cancel : (front xs ys : List Identity) → front ++ xs ≡ front ++ ys → xs ≡ ys
append_cancel [] xs ys e = e
append_cancel (z ∷ zs) xs ys e = append_cancel zs xs ys (ground arith)

-- What one insertion, of `x`, leaves of the premises of the next.
module _ (f g : SharFile) (x : Crdt)
    (inserted : g.characters ≡ HashMap.insert (identity_of x) x.relation f.characters) where
  still_new :
      (q : Identity) (y : Crdt)
      → IsNewChild f q y
      → identity_of x ≢ identity_of y
      → IsNewChild g q y
  still_new q y c ne = record {
    under = c.under;
    visible = c.visible;
    plain = c.plain;
    unknown =
        ap (HashMap.get (identity_of y)) inserted
        ∙ get-insert_ne f.characters (identity_of y) (identity_of x) x.relation c.unknown ne;
  }

  still_known :
      (q : Identity) {r : CrdtRelation}
      → HashMap.get q f.characters ≡ some r
      → identity_of x ≢ q
      → HashMap.get q g.characters ≡ some r
  still_known q h ne =
      ap (HashMap.get q) inserted ∙ get-insert_ne f.characters q (identity_of x) x.relation h ne

  now_known : HashMap.get (identity_of x) g.characters ≡ some x.relation
  now_known =
      ap (HashMap.get (identity_of x)) inserted
      ∙ get-insert (identity_of x) (identity_of x) x.relation f.characters
      ∙ rw (same_refl (identity_of x))

-- The place of a sibling behind an elder one, and before what has another parent.
module _ (chars : Characters) (p k : Identity) where
  elder_first :
      (z : Identity) (zs : List Identity) (r : CrdtRelation)
      → HashMap.get z chars ≡ some r
      → is_line_break r.value ≡ false
      → goes_before p k z r ≡ false
      → sibling_place chars p k (z ∷ zs) ≡ z ∷ sibling_place chars p k zs
  unfolding sibling_place breaks_line
  elder_first z zs r h plain e = ground arith

  before :
      (z : Identity) (zs : List Identity) (r : CrdtRelation)
      → HashMap.get z chars ≡ some r
      → goes_before p k z r ≡ true
      → sibling_place chars p k (z ∷ zs) ≡ k ∷ z ∷ zs
  unfolding sibling_place breaks_line
  before z zs r h e = ground arith

stranger : (p k z : Identity) (r : CrdtRelation) → parent_of r ≢ p → goes_before p k z r ≡ true
unfolding goes_before
stranger p k z r ne = ground (arith, same_iff (parent_of r) p)

module _ (f : SharFile) (parent : Identity) (front : List Identity) (a b x : Crdt)
    {par : CrdtRelation} (v : IsWellFormed f)
    (has_parent : HashMap.get parent f.characters ≡ some par) (live : par.deleted ≡ false)
    (whole : document f ≡ front ++ parent ∷ []) (ca : IsNewChild f parent a)
    (cx : IsNewChild f parent x) (cb : IsNewChild f (identity_of a) b)
    (a_x : identity_of a ≢ identity_of x) (a_b : identity_of a ≢ identity_of b)
    (b_x : identity_of b ≢ identity_of x)
    (elder : goes_before parent (identity_of x) (identity_of a) a.relation ≡ false) where
  abbrev child_first : ℕ → ℕ → ℕ → SharFile
  child_first h₁ h₂ h₃ = (add_crdt (add_crdt (add_crdt f h₁ a).0 h₂ b).0 h₃ x).0

  abbrev sibling_first : ℕ → ℕ → ℕ → SharFile
  sibling_first h₁ h₂ h₃ = (add_crdt (add_crdt (add_crdt f h₁ x).0 h₂ a).0 h₃ b).0

  fresh : count parent front ≡ 0
  fresh = omega (
    arith,
    ap (count parent) whole,
    count-append parent front (parent ∷ []),
    v.counts parent,
    ap live_count has_parent,
    one,
    ap {B = ℕ} (λ d. if d then 0 else 1) live,
  )
    where
      one : count parent (parent ∷ []) ≡ 1
      one = rw (same_refl parent)

  not_parent : (z : Crdt) (q : Identity) → IsNewChild f q z → identity_of z ≢ parent
  not_parent z q c = present_ne f.characters parent (identity_of z) has_parent c.unknown

  -- `a` at the end of the document is seen as the first part of its own.
  shift :
      (k : Identity) (xs : List Identity)
      → front ++ parent ∷ k ∷ xs ≡ (front ++ parent ∷ []) ++ k ∷ xs
  shift k xs = sym (append_assoc front (parent ∷ []) (k ∷ xs))

  fresh_a : count (identity_of a) (front ++ parent ∷ []) ≡ 0
  fresh_a = omega (
    arith,
    (not_in_document f (identity_of a) (front ++ parent ∷ []) [] v ca.unknown
        (whole ∙ sym (append-nil _))).0,
  )

  document-child_first :
      (h₁ h₂ h₃ : ℕ)
      → document (child_first h₁ h₂ h₃)
        ≡ front ++ parent ∷ identity_of a ∷ identity_of x ∷ identity_of b ∷ []
  document-child_first h₁ h₂ h₃ =
      let g₁ = (add_crdt f h₁ a).0 in
      let (well₁, chars₁, doc₁) =
        insert_child f parent v has_parent live a h₁ front [] ca whole fresh in
      let (well₂, chars₂, doc₂) =
        insert_child g₁ (identity_of a) well₁ (now_known f g₁ a chars₁) ca.visible b h₂
          (front ++ parent ∷ []) [] (still_new f g₁ a chars₁ (identity_of a) b cb a_b)
          (doc₁
            ∙ ap (λ l. front ++ parent ∷ l) (sibling_place-nil f.characters parent (identity_of a))
            ∙ shift (identity_of a) [])
          fresh_a in
      let g₂ = (add_crdt g₁ h₂ b).0 in
      let (well₃, chars₃, doc₃) =
        insert_child g₂ parent well₂
          (still_known g₁ g₂ b chars₂ parent
            (still_known f g₁ a chars₁ parent has_parent (not_parent a parent ca))
            (not_parent b (identity_of a) cb))
          live x h₃ front (identity_of a ∷ identity_of b ∷ [])
          (still_new g₁ g₂ b chars₂ parent x (still_new f g₁ a chars₁ parent x cx a_x) b_x)
          (doc₂
            ∙ ap (λ l. (front ++ parent ∷ []) ++ identity_of a ∷ l)
                (sibling_place-nil g₁.characters (identity_of a) (identity_of b))
            ∙ sym (shift (identity_of a) (identity_of b ∷ [])))
          fresh in
      doc₃
      ∙ ap (λ l. front ++ parent ∷ l)
          (elder_first g₂.characters parent (identity_of x) (identity_of a) (identity_of b ∷ [])
              a.relation
              (still_known g₁ g₂ b chars₂ (identity_of a) (now_known f g₁ a chars₁)
                (λ e. a_b (sym e)))
              ca.plain elder
            ∙ ap (◌∷◌ (identity_of a)) (
                before g₂.characters parent (identity_of x) (identity_of b) [] b.relation
                  (now_known g₁ g₂ b chars₂)
                  (stranger parent (identity_of x) (identity_of b) b.relation
                    (λ e. not_parent a parent ca (sym cb.under ∙ e)))))

  document-sibling_first :
      (h₁ h₂ h₃ : ℕ)
      → document (sibling_first h₁ h₂ h₃)
        ≡ front ++ parent ∷ identity_of a ∷ identity_of b ∷ identity_of x ∷ []
  document-sibling_first h₁ h₂ h₃ =
      let g₁ = (add_crdt f h₁ x).0 in
      let (well₁, chars₁, doc₁) =
        insert_child f parent v has_parent live x h₁ front [] cx whole fresh in
      let (well₂, chars₂, doc₂) =
        insert_child g₁ parent well₁
          (still_known f g₁ x chars₁ parent has_parent (not_parent x parent cx)) live a h₂ front
          (identity_of x ∷ []) (still_new f g₁ x chars₁ parent a ca (λ e. a_x (sym e)))
          (doc₁
            ∙ ap (λ l. front ++ parent ∷ l) (sibling_place-nil f.characters parent (identity_of x)))
          fresh in
      let g₂ = (add_crdt g₁ h₂ a).0 in
      let (well₃, chars₃, doc₃) =
        insert_child g₂ (identity_of a) well₂ (now_known g₁ g₂ a chars₂) ca.visible b h₃
          (front ++ parent ∷ []) (identity_of x ∷ [])
          (still_new g₁ g₂ a chars₂ (identity_of a) b
            (still_new f g₁ x chars₁ (identity_of a) b cb (λ e. b_x (sym e))) a_b)
          (doc₂
            ∙ ap (λ l. front ++ parent ∷ l)
                (before g₁.characters parent (identity_of a) (identity_of x) [] x.relation
                  (now_known f g₁ x chars₁) younger)
            ∙ shift (identity_of a) (identity_of x ∷ []))
          fresh_a in
      doc₃
      ∙ ap (λ l. (front ++ parent ∷ []) ++ identity_of a ∷ l)
          (before g₂.characters (identity_of a) (identity_of b) (identity_of x) [] x.relation
            (still_known g₁ g₂ a chars₂ (identity_of x) (now_known f g₁ x chars₁) a_x)
            (stranger (identity_of a) (identity_of b) (identity_of x) x.relation
              (λ e. not_parent a parent ca (sym e ∙ cx.under))))
      ∙ sym (shift (identity_of a) (identity_of b ∷ identity_of x ∷ []))
    where
      younger : goes_before parent (identity_of a) (identity_of x) x.relation ≡ true
      younger = ground (
        arith,
        goes_before_total parent (identity_of x) (identity_of a) x.relation a.relation cx.under
            ca.under (λ e. a_x (sym e)),
      )

-- At the end of a well-formed document, behind a live parent: let `a` and `x` be two new children
-- of the parent, `a` first by the tie-break, and `b` a new child of `a`. A replica that applies
-- a, b, x shows a, x, b; one that applies x, a, b shows a, b, x. So the two documents differ.
pub interleaved_siblings_differ :
    (f : SharFile) (parent : Identity) (front : List Identity) (a b x : Crdt)
    (h₁ h₂ h₃ h₄ h₅ h₆ : ℕ) {par : CrdtRelation}
    → IsWellFormed f
    → HashMap.get parent f.characters ≡ some par
    → par.deleted ≡ false
    → document f ≡ front ++ parent ∷ []
    → IsNewChild f parent a
    → IsNewChild f parent x
    → IsNewChild f (identity_of a) b
    → identity_of a ≢ identity_of x
    → identity_of a ≢ identity_of b
    → identity_of b ≢ identity_of x
    → goes_before parent (identity_of x) (identity_of a) a.relation ≡ false
    → let child_first = (add_crdt (add_crdt (add_crdt f h₁ a).0 h₂ b).0 h₃ x).0 in
      let sibling_first = (add_crdt (add_crdt (add_crdt f h₄ x).0 h₅ a).0 h₆ b).0 in
      (document child_first ≡ front ++ parent ∷ identity_of a ∷ identity_of x ∷ identity_of b ∷ [])
      × (document sibling_first
          ≡ front ++ parent ∷ identity_of a ∷ identity_of b ∷ identity_of x ∷ [])
      × (document child_first ≢ document sibling_first)
interleaved_siblings_differ f parent front a b x h₁ h₂ h₃ h₄ h₅ h₆ v has_parent live whole ca cx cb
      a_x a_b b_x elder =
    let d =
      document-child_first f parent front a b x v has_parent live whole ca cx cb a_x a_b b_x elder
        h₁ h₂ h₃ in
    let d' =
      document-sibling_first f parent front a b x v has_parent live whole ca cx cb a_x a_b b_x elder
        h₄ h₅ h₆ in
    (d, d', λ e. b_x (swapped (append_cancel front _ _ (sym d ∙ e ∙ d'))))
  where
    swapped :
        parent ∷ identity_of a ∷ identity_of x ∷ identity_of b ∷ []
          ≡ parent ∷ identity_of a ∷ identity_of b ∷ identity_of x ∷ []
        → identity_of b ≡ identity_of x
    swapped e = ground arith
