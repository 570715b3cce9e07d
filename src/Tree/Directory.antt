-- ===== src/Tree/Directory.antt =====
-- shar/core/tree.rs, `SharDirectory`: files in nested directories, found by path.
pub mod Borrowed
pub mod Listed
pub mod Load
pub mod Loaded
pub mod Repeated
pub mod Routed
pub mod Shown
use shario.Prelude.{
  ℕ, String, Bool, true, false, not, ◌&&◌, Option, none, some, List, [], ◌∷◌, ◌++◌, ◌⊎◌,
  if◌then◌else◌, string_eq, Identity,
}
use shario.Types.{Error, Result, ok, err, fault, generic, read_fail, PathBuf, Crdt}
use shario.Tree.File
use shario.Tree.File.{SharFile, Characters}
use shario.Tree.Insert
use shario.Tree.Delete
use shario.Tree.Load.{new_file}

mutual
  pub data SharDirectory : Type 0 where
    directory : PathBuf → Directories → List SharFile → SharDirectory

  pub data Directories : Type 0 where
    nil : Directories
    cons : SharDirectory → Directories → Directories

abbrev pub dir_name : SharDirectory → PathBuf
dir_name (directory name dirs files) = name

-- `SharDirectory::root`
abbrev pub root : SharDirectory → PathBuf
root d = dir_name d

-- `Path::file_name`: the last component, if it is a normal one.
unfoldable pub file_name : PathBuf → Option String
file_name [] = none
file_name (c ∷ d ∷ cs) = file_name (d ∷ cs)
file_name (c ∷ []) =
    if string_eq.beq c "/"
    then none
    else if string_eq.beq c ".."
    then none
    else if string_eq.beq c "."
    then none
    else some c

-- `path.ends_with(next)`, for one component.
unfoldable pub ends_with : PathBuf → String → Bool
ends_with [] next = false
ends_with (c ∷ []) next = string_eq.beq c next
ends_with (c ∷ d ∷ cs) next = ends_with (d ∷ cs) next

-- What follows the first component that is `name`.
unfoldable pub after_name : String → PathBuf → Option PathBuf
after_name name [] = none
after_name name (c ∷ cs) = if string_eq.beq c name then some cs else after_name name cs

-- A mutable borrow: what it refers to, and the owner after a write through it.
abbrev pub Borrow : Type 0 → Type 0
Borrow Owner = SharFile × (SharFile → Owner)

abbrev pub reborrow : {A B : Type 0} → (A → B) → Option (Borrow A) → Option (Borrow B)
reborrow put none = none
reborrow put (some (f, back)) = some (f, λ g. put (back g))

unfoldable pub find_sub_file : List SharFile → String → Option (Borrow (List SharFile))
unfolding ends_with
find_sub_file [] next = none
find_sub_file (f ∷ fs) next =
    if ends_with f.file_path next
    then some (f, λ g. g ∷ fs)
    else reborrow (◌∷◌ f) (find_sub_file fs next)

pub is_nil : Directories → Bool
is_nil nil = true
is_nil (cons d ds) = false

pub is_empty : List SharFile → Bool
is_empty [] = true
is_empty (f ∷ fs) = false

-- The rest of the path behind the directory's own name: a file of it, or a path below a child.
unfoldable pub route :
    PathBuf
    → Directories
    → List SharFile
    → (String → Option (Borrow Directories))
    → PathBuf
    → Option (Borrow SharDirectory)
unfolding find_sub_file
route name dirs files below [] = none
route name dirs files below (next ∷ []) = reborrow (directory name dirs) (find_sub_file files next)
route name dirs files below (next ∷ more ∷ rest) =
    reborrow (λ ds. directory name ds files) (below next)

-- `find_file` without its call of itself, which is `below`.
unfoldable pub find_in :
    PathBuf
    → Directories
    → List SharFile
    → (String → Option (Borrow Directories))
    → PathBuf
    → Option (Borrow SharDirectory)
unfolding route is_nil is_empty file_name after_name
find_in name dirs files below path =
    if is_nil dirs && is_empty files then none else elim (file_name name) [
      | none ↦ none
      | some this_dir_name ↦ elim (after_name this_dir_name path) [
        | none ↦ none
        | some rest ↦ route name dirs files below rest
      ]
    ]

unfoldable mutual
  unfolding find_in ends_with

  pub find_file : SharDirectory → PathBuf → Option (Borrow SharDirectory)
  find_file (directory name dirs files) path =
      find_in name dirs files (λ next. find_below dirs next path) path

  -- The first child whose name is `next`, searched with the whole path.
  pub find_below : Directories → String → PathBuf → Option (Borrow Directories)
  find_below nil next path = none
  find_below (cons d ds) next path =
      let here = reborrow (λ e. cons e ds) (find_file d path) in
      let later = reborrow (cons d) (find_below ds next path) in
      if ends_with (dir_name d) next then here else later

abbrev pub file_not_found : Error
file_not_found = generic "File not found"

-- A method of the file that a path leads to.
unfoldable pub at_file {ℓ} :
    {A : Type ℓ}
    → SharDirectory
    → PathBuf
    → (SharFile → SharFile × Result A)
    → SharDirectory × Result A
at_file d path method = elim (find_file d path) [
  | none ↦ (d, err file_not_found)
  | some (f, put) ↦ let (g, r) = method f in (put g, r)
]

unfoldable pub add_crdt :
    SharDirectory → PathBuf → ℕ → Crdt → SharDirectory × Result (Option (ℕ × ℕ))
unfolding at_file
add_crdt d path line_num crdt = at_file d path (λ f. Insert.add_crdt f line_num crdt)

unfoldable pub remove_crdt :
    SharDirectory → PathBuf → ℕ → Identity → SharDirectory × Result (Option (ℕ × ℕ))
unfolding at_file
remove_crdt d path line_num k = at_file d path (λ f. Delete.remove_crdt f line_num k)

unfoldable pub get_id_peer :
    SharDirectory → PathBuf → ℕ × ℕ → SharDirectory × Result (Option Identity)
unfolding at_file
get_id_peer d path pos = at_file d path (λ f. (f, File.get_id_peer f pos))

unfoldable pub predecessor_identity :
    SharDirectory → PathBuf → ℕ × ℕ → SharDirectory × Result (Option Identity)
unfolding at_file
predecessor_identity d path pos = at_file d path (λ f. (f, ok (File.predecessor_identity f pos)))

unfoldable pub files_state : List SharFile → List (PathBuf × Characters)
files_state [] = []
files_state (f ∷ fs) = (f.file_path, File.full_state f) ∷ files_state fs

unfoldable mutual
  unfolding files_state

  pub full_state : SharDirectory → List (PathBuf × Characters)
  full_state (directory name dirs files) = files_state files ++ full_states dirs

  pub full_states : Directories → List (PathBuf × Characters)
  full_states nil = []
  full_states (cons d ds) = full_state d ++ full_states ds
