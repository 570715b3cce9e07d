-- ===== src/Tree/Directory/Shown.antt =====
-- shar/core/tree.rs, `identities`: what a joining IDE is shown of well-formed files.
use mathlib.Core.List.{Perm, perm_append_comm, map-append}
use mathlib.Core.List.Perm
use mathlib.Core.Path.{ap₂}
use shario.Prelude.{
  ℕ, ◌<◌, none, some, List, [], ◌∷◌, ◌++◌, map, All, ◌≡◌, refl, sym, ap, ◌∙◌, arith, Identity,
  same_refl, concat, subst, Option-cases, inl, inr, identity_eq,
}
use shario.Types.{ok, PathBuf, CrdtRelation}
use shario.HashMap
use shario.Tree.File
use shario.Tree.File.{SharFile, Characters, Projection, line_values, lines_values}
use shario.Tree.Insert.Order.{info}
use shario.Tree.Document.{document, count, live_count, IsWellFormed, All-append}
use shario.Tree.Directory.{SharDirectory, Directories, directory, nil, cons}
use shario.Tree.Directory.Load.{
  Shown, append_shown, and_then, files_identities, identities, dirs_identities,
}
use shario.Tree.Directory.Loaded.Contents.{files_of, files_below, shows}

-- The identity's character is there.
abbrev IsPresent : Characters → Identity → Type 0
IsPresent chars k = 0 < live_count (HashMap.get k chars)

abbrev valued : Characters → Identity → Identity × ℕ
valued chars k = (k, (info chars k).value)

All-counted :
    (P : Identity → Type 0) (xs : List Identity)
    → ((k : Identity) → 0 < count k xs → P k)
    → All P xs
All-counted P [] h = tt
All-counted P (x ∷ xs) h =
    (h x (rw (same_refl x) (omega arith)), All-counted P xs (λ k lt. h k (omega (arith, lt))))

document-IsPresent : (f : SharFile) → IsWellFormed f → All (IsPresent f.characters) (document f)
document-IsPresent f well =
    All-counted (IsPresent f.characters) (document f)
      (λ k lt. subst (λ n. 0 < n) (well.counts k) lt)

info-found :
    (chars : Characters) (k : Identity) (r : CrdtRelation)
    → HashMap.get k chars ≡ some r
    → (info chars k).value ≡ r.value
info-found chars k r e = rw (info, e) refl

line_values-ok :
    (chars : Characters) (line : List Identity)
    → All (IsPresent chars) line
    → line_values chars line ≡ ok (map (valued chars) line)
unfolding line_values
line_values-ok chars [] h = refl
line_values-ok chars (k ∷ ks) (present, h) = elim (Option-cases (HashMap.get k chars)) [
  | inl e ↦ absurd (
      let none_there : 0 < live_count none = subst (λ o. 0 < live_count o) e present in
      omega (arith, none_there))
  | inr (r, e) ↦
      rw (line_values, e, line_values-ok chars ks h)
        (ap (λ v. ok ((k, v) ∷ map (valued chars) ks)) (sym (info-found chars k r e)))
]

lines_values-ok :
    (chars : Characters) (rows : Projection)
    → All (IsPresent chars) (concat rows)
    → lines_values chars rows ≡ ok (map (map (valued chars)) rows)
unfolding lines_values
lines_values-ok chars [] h = refl
lines_values-ok chars (line ∷ rows) h =
    let (here, later) = (All-append (IsPresent chars) line (concat rows)).0 h in
    rw (lines_values, line_values-ok chars line here, lines_values-ok chars rows later) refl

-- A file with its lines as they are sent.
abbrev pub seen : SharFile → PathBuf × List (List (Identity × ℕ))
seen f = (f.file_path, map (map (valued f.characters)) f.projection)

-- The characters of what is sent for a file.
abbrev pub reads : PathBuf × List (List (Identity × ℕ)) → PathBuf × List ℕ
reads (path, lines) = (path, map (λ cell. cell.1) (concat lines))

values-row :
    (chars : Characters) (line : List Identity)
    → map (λ cell. cell.1) (map (valued chars) line) ≡ map (λ k. (info chars k).value) line
values-row chars [] = refl
values-row chars (k ∷ ks) = ap (◌∷◌ (info chars k).value) (values-row chars ks)

values-rows :
    (chars : Characters) (rows : Projection)
    → map (λ cell. cell.1) (concat (map (map (valued chars)) rows))
      ≡ map (λ k. (info chars k).value) (concat rows)
values-rows chars [] = refl
values-rows chars (line ∷ rows) =
    map-append (λ cell. cell.1) (map (valued chars) line) (concat (map (map (valued chars)) rows))
    ∙ ap₂ (λ xs ys. xs ++ ys) (values-row chars line) (values-rows chars rows)
    ∙ sym (map-append (λ k. (info chars k).value) line (concat rows))

reads-seen : (f : SharFile) → reads (seen f) ≡ shows f
reads-seen f = ap (λ t. (f.file_path, t)) (values-rows f.characters f.projection)

pub map-reads-seen : (fs : List SharFile) → map reads (map seen fs) ≡ map shows fs
map-reads-seen [] = refl
map-reads-seen (f ∷ fs) =
    ap₂ {C = List (PathBuf × List ℕ)} (λ x xs. x ∷ xs) (reads-seen f) (map-reads-seen fs)

identities_with_values-ok :
    (f : SharFile)
    → IsWellFormed f
    → File.identities_with_values f ≡ ok (map (map (valued f.characters)) f.projection)
unfolding File.identities_with_values
identities_with_values-ok f well =
    lines_values-ok f.characters f.projection (document-IsPresent f well)

files_identities-ok :
    (fs : List SharFile) → All IsWellFormed fs → files_identities fs ≡ ok (map seen fs)
unfolding files_identities
files_identities-ok [] h = refl
files_identities-ok (f ∷ fs) (well, h) =
    rw (identities_with_values-ok f well, files_identities-ok fs h) refl

append_shown-ok : (xs ys : Shown) → append_shown (ok xs) (ok ys) ≡ ok (xs ++ ys)
append_shown-ok [] ys = refl
append_shown-ok (x ∷ xs) ys = ap (λ r. and_then r (λ zs. ok (x ∷ zs))) (append_shown-ok xs ys)

unfoldable mutual
  -- The files in the order in which they are sent: a directory's own come first.
  pub own_first : SharDirectory → List SharFile
  own_first (directory name dirs files) = files ++ own_first_below dirs

  pub own_first_below : Directories → List SharFile
  own_first_below nil = []
  own_first_below (cons d ds) = own_first d ++ own_first_below ds

mutual
  unfolding identities own_first files_of files_below

  pub identities-ok :
      (d : SharDirectory)
      → All IsWellFormed (files_of d)
      → identities d ≡ ok (map seen (own_first d))
  identities-ok (directory name dirs files) h =
      let (below, own) = (All-append IsWellFormed (files_below dirs) files).0 h in
      ap₂ append_shown (files_identities-ok files own) (dirs_identities-ok dirs below)
      ∙ append_shown-ok (map seen files) (map seen (own_first_below dirs))
      ∙ ap ok (sym (map-append seen files (own_first_below dirs)))

  dirs_identities-ok :
      (ds : Directories)
      → All IsWellFormed (files_below ds)
      → dirs_identities ds ≡ ok (map seen (own_first_below ds))
  dirs_identities-ok nil h = refl
  dirs_identities-ok (cons d ds) h =
      let (first, later) = (All-append IsWellFormed (files_of d) (files_below ds)).0 h in
      ap₂ append_shown (identities-ok d first) (dirs_identities-ok ds later)
      ∙ append_shown-ok (map seen (own_first d)) (map seen (own_first_below ds))
      ∙ ap ok (sym (map-append seen (own_first d) (own_first_below ds)))

mutual
  unfolding own_first files_of files_below

  pub own_first-perm : (d : SharDirectory) → Perm (own_first d) (files_of d)
  own_first-perm (directory name dirs files) =
      Perm.trans (Perm.append (Perm.refl files) (own_first_below-perm dirs))
        (perm_append_comm files (files_below dirs))

  own_first_below-perm : (ds : Directories) → Perm (own_first_below ds) (files_below ds)
  own_first_below-perm nil = Perm.refl []
  own_first_below-perm (cons d ds) = Perm.append (own_first-perm d) (own_first_below-perm ds)
