-- ===== src/Tree/Directory/Repeated.antt =====
-- shar/core/tree.rs, `SharDirectory::find_file`: a directory whose name its own path has earlier.
use shario.Prelude.{
  ℕ, String, false, none, some, List, [], ◌∷◌, ◌++◌, All, ◌≡◌, refl, ap, ◌∙◌, string_eq, Bool-cases,
  inl, inr, Identity, append_assoc,
}
use shario.Types.{PathBuf, Crdt, Result, err}
use shario.Tree.File.{SharFile}
use shario.Tree.Insert
use shario.Tree.Delete
use shario.Tree.Directory
use shario.Tree.Directory.{
  SharDirectory, Directories, directory, nil, find_file, find_in, find_below, route, is_nil,
  is_empty, file_name, after_name, at_file, file_not_found,
}
use shario.Tree.Directory.Listed.Shape.{IsNormal, file_name-last, after_name-first}

-- The rest of the path seems to lead into a child.
route-astray :
    (name : PathBuf) (files : List SharFile) (path more : PathBuf) (this n : String)
    → route name nil files (λ next. find_below nil next path) (more ++ this ∷ n ∷ []) ≡ none
unfolding route find_below
route-astray name files path [] this n = refl
route-astray name files path (c ∷ []) this n = refl
route-astray name files path (c ∷ d ∷ cs) this n = refl

find_file-astray :
    (base more : PathBuf) (this n : String) (files : List SharFile)
    → All (λ c. string_eq.beq c this ≡ false) base
    → IsNormal this
    → (let name = base ++ this ∷ (more ++ this ∷ []) in
        find_file (directory name nil files) (name ++ n ∷ []) ≡ none)
unfolding find_file find_in
find_file-astray base more this n files once normal =
    let name = base ++ this ∷ (more ++ this ∷ []) in
    let named : file_name name ≡ some this =
      ap file_name (append_assoc_last base more this)
      ∙ file_name-last (base ++ this ∷ more) this normal in
    let behind : after_name this (name ++ n ∷ []) ≡ some (more ++ this ∷ n ∷ []) =
      ap (after_name this) (
        append_assoc base (this ∷ (more ++ this ∷ [])) (n ∷ [])
        ∙ ap (λ p. base ++ this ∷ p) (append_assoc more (this ∷ []) (n ∷ [])))
      ∙ after_name-first base this (more ++ this ∷ n ∷ []) once in
    elim (Bool-cases (is_empty files)) [
      | inl hollow ↦ rw (hollow, is_nil) refl
      | inr filled ↦
          rw (filled, named, behind) (route-astray name files (name ++ n ∷ []) more this n)
    ]
  where
    append_assoc_last :
        (base more : PathBuf) (this : String)
        → base ++ this ∷ (more ++ this ∷ []) ≡ (base ++ this ∷ more) ++ this ∷ []
    append_assoc_last base more this = simp append_assoc

-- A path with its last component further up as well.
abbrev pub repeated : PathBuf → PathBuf → String → PathBuf
repeated base more this = base ++ this ∷ (more ++ this ∷ [])

at_file-lost {ℓ} :
    {A : Type ℓ} (d : SharDirectory) (path : PathBuf) (method : SharFile → SharFile × Result A)
    → find_file d path ≡ none
    → at_file d path method ≡ (d, err file_not_found)
unfolding at_file
at_file-lost d path method e = rw (at_file, e) refl

-- Where the name of a directory, a normal one, occurs in its path already further up, and it has no
-- sub-directories: an insertion and a removal under the path of any file directly in it answer that the file is not
-- found, and change nothing, whatever files the directory has.
pub repeated_name-unreachable :
    (base more : PathBuf) (this n : String) (files : List SharFile)
    → All (λ c. string_eq.beq c this ≡ false) base
    → IsNormal this
    → ((hint : ℕ) (crdt : Crdt)
        → Directory.add_crdt
            (directory (repeated base more this) nil files)
            (repeated base more this ++ n ∷ [])
            hint
            crdt
          ≡ (directory (repeated base more this) nil files, err file_not_found))
      × ((hint : ℕ) (k : Identity)
          → Directory.remove_crdt
              (directory (repeated base more this) nil files)
              (repeated base more this ++ n ∷ [])
              hint
              k
            ≡ (directory (repeated base more this) nil files, err file_not_found))
unfolding Directory.add_crdt Directory.remove_crdt
repeated_name-unreachable base more this n files once normal =
    let missed = find_file-astray base more this n files once normal in
    (
      λ hint crdt. at_file-lost _ _ (λ f. Insert.add_crdt f hint crdt) missed,
      λ hint k. at_file-lost _ _ (λ f. Delete.remove_crdt f hint k) missed,
    )
