-- ===== src/Tree/Directory/Load.antt =====
-- shar/core/tree.rs, `SharDirectory::new`, and what a joining IDE is shown of a directory.
-- What the file system answers is an argument: the entries of a directory, with what reading each gives.
use shario.Prelude.{ℕ, String, List, [], ◌∷◌, ◌⊎◌, Identity}
use shario.Types.{Result, ok, err, fault, read_fail, PathBuf}
use shario.Tree.File
use shario.Tree.File.{SharFile}
use shario.Tree.Load.{new_file}
use shario.Tree.Directory.{SharDirectory, Directories, directory, nil, cons}

mutual
  -- What `read_dir` and all that follows it find under a path.
  pub data Listing : Type 0 where
    unreadable : String → Listing
    entries : Entries → Listing

  pub data Entries : Type 0 where
    done : Entries
    bad_entry : String → Entries → Entries
    bad_type : String → Entries → Entries
    sub_dir : PathBuf → Listing → Entries → Entries
    sub_file : PathBuf → String ⊎ List ℕ → Entries → Entries
    -- neither a directory nor a file
    other : Entries → Entries

-- The vectors of children, and the counter.
abbrev pub Children : Type 0
Children = (Directories × List SharFile) × ℕ

abbrev pub with_dir : SharDirectory → Result Children → Result Children
with_dir d (ok ((dirs, files), counter)) = ok ((cons d dirs, files), counter)
with_dir d (err e) = err e
with_dir d fault = fault

abbrev pub with_file : SharFile → Result Children → Result Children
with_file f (ok ((dirs, files), counter)) = ok ((dirs, f ∷ files), counter)
with_file f (err e) = err e
with_file f fault = fault

-- `?`
abbrev pub and_then {ℓ κ} : {A : Type ℓ} {B : Type κ} → Result A → (A → Result B) → Result B
and_then (ok a) next = next a
and_then (err e) next = err e
and_then fault next = fault

unfoldable mutual
  unfolding new_file

  pub new_directory : PathBuf → Listing → ℕ → Result (SharDirectory × ℕ)
  new_directory dir_path (unreadable message) counter = err (read_fail message)
  new_directory dir_path (entries es) counter =
      and_then (load_entries es counter)
        λ loaded. ok (directory dir_path loaded.0.0 loaded.0.1, loaded.1)

  pub load_entries : Entries → ℕ → Result Children
  load_entries done counter = ok ((nil, []), counter)
  load_entries (bad_entry message es) counter = err (read_fail message)
  load_entries (bad_type message es) counter = err (read_fail message)
  load_entries (sub_dir path listing es) counter =
      and_then (new_directory path listing counter)
        λ loaded. with_dir loaded.0 (load_entries es loaded.1)
  load_entries (sub_file path contents es) counter =
      and_then (new_file path contents counter)
        λ loaded. with_file loaded.0 (load_entries es loaded.1)
  load_entries (other es) counter = load_entries es counter

-- `identities`: each file's path with its lines of identities and characters.
abbrev pub Shown : Type 0
Shown = List (PathBuf × List (List (Identity × ℕ)))

abbrev pub append_shown : Result Shown → Result Shown → Result Shown
append_shown first rest = and_then first λ xs. and_then rest λ ys. ok (shown_append xs ys)
  where
    shown_append : Shown → Shown → Shown
    shown_append [] ys = ys
    shown_append (x ∷ xs) ys = x ∷ shown_append xs ys

unfoldable pub files_identities : List SharFile → Result Shown
files_identities [] = ok []
files_identities (f ∷ fs) =
    and_then (File.identities_with_values f)
      λ lines. and_then (files_identities fs) λ rest. ok ((f.file_path, lines) ∷ rest)

unfoldable mutual
  unfolding files_identities

  pub identities : SharDirectory → Result Shown
  identities (directory name dirs files) =
      append_shown (files_identities files) (dirs_identities dirs)

  pub dirs_identities : Directories → Result Shown
  dirs_identities nil = ok []
  dirs_identities (cons d ds) = append_shown (identities d) (dirs_identities ds)
