-- ===== src/Tree/Insert/Grown.antt =====
-- shar/core/tree.rs, `add_crdt`: a well-formed file with one more character in its map.
use shario.Prelude.{
  ◌+◌, false, none, some, Identity, same, same_iff, same_refl, concat, if◌then◌else◌, ◌≡◌, ◌∙◌,
  arith, identity_eq,
}
use shario.Types.{CrdtRelation, Crdt, parent_of, identity_of}
use shario.HashMap
use shario.HashMap.{get-insert}
use shario.Tree.File.{SharFile, Projection, Characters, root, is_line_break}
use shario.Tree.Document.{document, count, IsWellFormed, Shape, breaks_line}
use shario.Tree.Document.Rows.{Shape-extend, breaks_line-insert, Rooted-insert}

module _ (f : SharFile) (crdt : Crdt) (par : CrdtRelation) (v : IsWellFormed f)
    (has_parent : HashMap.get (parent_of crdt.relation) f.characters ≡ some par)
    (new : HashMap.get (identity_of crdt) f.characters ≡ none)
    (visible : crdt.relation.deleted ≡ false) where
  abbrev k : Identity
  k = identity_of crdt

  abbrev pub grown_characters : Characters
  grown_characters = HashMap.insert (identity_of crdt) crdt.relation f.characters

  pub fresh : count (identity_of crdt) (document f) ≡ 0
  fresh = v.counts k ∙ ground arith

  pub grown-Shape : Shape (breaks_line grown_characters) f.projection
  grown-Shape =
      Shape-extend (breaks_line f.characters) (breaks_line grown_characters) k
        (λ j ne. breaks_line-insert k crdt.relation f.characters j ∙ ground (arith, same_iff k j))
        f.projection fresh v.shape

  pub kind : breaks_line grown_characters (identity_of crdt) ≡ is_line_break crdt.relation.value
  kind = breaks_line-insert k crdt.relation f.characters k ∙ ground (arith, same_refl k)

  -- A projection with the right shape and contents makes a well-formed file.
  pub grown-IsWellFormed :
      (proj : Projection)
      → ((j : Identity)
          → count j (concat proj)
            ≡ count j (document f) + (if same (identity_of crdt) j then 1 else 0))
      → Shape (breaks_line grown_characters) proj
      → IsWellFormed (record f { characters = grown_characters; projection = proj })
  grown-IsWellFormed proj counts shape = record {
    shape = shape;
    counts = λ j.
        counts j
        ∙ ground (arith, get-insert k j crdt.relation f.characters, v.counts j, same_iff k j, new);
    rooted = Rooted-insert k crdt.relation par f.characters v.rooted new has_parent;
    sentinel =
        get-insert k root crdt.relation f.characters
        ∙ ground (arith, same_iff k root, v.sentinel, new);
  }
