-- ===== src/Tree/Directory/Loaded/Contents.antt =====
-- shar/core/tree.rs, `SharDirectory::new`: what a listing holds, and what is asked of the directory it makes.
use shario.Prelude.{
  ℕ, ◌+◌, ◌≤◌, ◌<◌, String, Option, none, some, List, [], ◌∷◌, ◌++◌, map, All, ◌⊎◌, inl, inr, ◌≡◌,
  arith, length, Identity, identity_eq,
}
use shario.Types.{Result, ok, err, read_fail, PathBuf}
use shario.HashMap
use shario.Tree.File.{SharFile}
use shario.Tree.Load.RoundTrip.{text}
use shario.Tree.Insert.Climb.{IsNumbered}
use shario.Tree.Document.{IsWellFormed}
use shario.Tree.Directory.{SharDirectory, Directories, directory, nil, cons}
use shario.Tree.Directory.Load.{
  Listing, unreadable, entries, Entries, done, bad_entry, bad_type, sub_dir, sub_file, other,
  Children,
}

unfoldable mutual
  -- The files of a directory: those of its directories, then its own.
  pub files_of : SharDirectory → List SharFile
  files_of (directory name dirs files) = files_below dirs ++ files

  pub files_below : Directories → List SharFile
  files_below nil = []
  files_below (cons d dirs) = files_of d ++ files_below dirs

abbrev pub earlier : Option String → Option String → Option String
earlier (some message) later = some message
earlier none later = later

abbrev pub contents_length : String ⊎ List ℕ → ℕ
contents_length (inl message) = 0
contents_length (inr contents) = length contents

abbrev pub contents_error : String ⊎ List ℕ → Option String
contents_error (inl message) = some message
contents_error (inr contents) = none

abbrev pub contents_under : PathBuf → String ⊎ List ℕ → List (PathBuf × List ℕ)
contents_under path (inl message) = []
contents_under path (inr contents) = (path, contents) ∷ []

unfoldable mutual
  -- How many characters a listing holds.
  pub size : Listing → ℕ
  size (unreadable message) = 0
  size (entries es) = entries_size es

  pub entries_size : Entries → ℕ
  entries_size done = 0
  entries_size (bad_entry message es) = 0
  entries_size (bad_type message es) = 0
  entries_size (sub_dir path listing es) = size listing + entries_size es
  entries_size (sub_file path contents es) = contents_length contents + entries_size es
  entries_size (other es) = entries_size es

unfoldable mutual
  -- The first failure that reading a listing meets.
  pub first_error : Listing → Option String
  first_error (unreadable message) = some message
  first_error (entries es) = entries_error es

  pub entries_error : Entries → Option String
  entries_error done = none
  entries_error (bad_entry message es) = some message
  entries_error (bad_type message es) = some message
  entries_error (sub_dir path listing es) = earlier (first_error listing) (entries_error es)
  entries_error (sub_file path contents es) = earlier (contents_error contents) (entries_error es)
  entries_error (other es) = entries_error es

unfoldable mutual
  -- The paths and texts of a listing's files, those below its directories first.
  pub contents_of : Listing → List (PathBuf × List ℕ)
  contents_of (unreadable message) = []
  contents_of (entries es) = contents_below es ++ own_contents es

  pub contents_below : Entries → List (PathBuf × List ℕ)
  contents_below done = []
  contents_below (bad_entry message es) = []
  contents_below (bad_type message es) = []
  contents_below (sub_dir path listing es) = contents_of listing ++ contents_below es
  contents_below (sub_file path contents es) = contents_below es
  contents_below (other es) = contents_below es

  pub own_contents : Entries → List (PathBuf × List ℕ)
  own_contents done = []
  own_contents (bad_entry message es) = []
  own_contents (bad_type message es) = []
  own_contents (sub_dir path listing es) = own_contents es
  own_contents (sub_file path contents es) = contents_under path contents ++ own_contents es
  own_contents (other es) = own_contents es

-- A file as the queue needs it: well formed, with ids from 1 up to the counter.
abbrev pub IsLoadedFile : ℕ → SharFile → Type 0
IsLoadedFile counter f =
    IsWellFormed f
    × IsNumbered f
    × ((k : Identity) → counter < k.0 → HashMap.get k f.characters ≡ none)

-- What a file shows, the sentinel's character at the front, and under which path.
abbrev pub shows : SharFile → PathBuf × List ℕ
shows f = (f.file_path, text f)

abbrev pub shown_as : PathBuf × List ℕ → PathBuf × List ℕ
shown_as (path, contents) = (path, 0 ∷ contents)

pub IsLoadedFile-later : (n m : ℕ) (f : SharFile) → n ≤ m → IsLoadedFile n f → IsLoadedFile m f
IsLoadedFile-later n m f le h = (h.0, h.1, λ k lt. h.2 k (omega (arith, le, lt)))

pub All-later :
    (n m : ℕ) (fs : List SharFile) → n ≤ m → All (IsLoadedFile n) fs → All (IsLoadedFile m) fs
All-later n m [] le h = tt
All-later n m (f ∷ fs) le h = (IsLoadedFile-later n m f le h.0, All-later n m fs le h.1)

-- The outcome of loading, by the first failure.
abbrev pub Loads : Listing → ℕ → Option String → Result (SharDirectory × ℕ) → Type 0
Loads listing counter (some message) out = out ≡ err (read_fail message)
Loads listing counter none out =
    (d : SharDirectory) × (out ≡ ok (d, counter + size listing))
    × All (IsLoadedFile (counter + size listing)) (files_of d)
    × (map shows (files_of d) ≡ map shown_as (contents_of listing))

abbrev pub LoadsEntries : Entries → ℕ → Option String → Result Children → Type 0
LoadsEntries es counter (some message) out = out ≡ err (read_fail message)
LoadsEntries es counter none out =
    (dirs : Directories) × (files : List SharFile) × (out
      ≡ ok ((dirs, files), counter + entries_size es))
    × All (IsLoadedFile (counter + entries_size es)) (files_below dirs)
    × All (IsLoadedFile (counter + entries_size es)) files
    × (map shows (files_below dirs) ≡ map shown_as (contents_below es))
    × (map shows files ≡ map shown_as (own_contents es))
