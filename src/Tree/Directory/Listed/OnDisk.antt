-- ===== src/Tree/Directory/Listed/OnDisk.antt =====
-- shar/core/tree.rs, `SharDirectory::new`: the paths of a directory that was loaded from disk.
use shario.Prelude.{
  ℕ, ◌+◌, ◌<◌, ◌^◌, String, List, [], ◌∷◌, ◌++◌, All, ◌⊎◌, inl, inr, ◌≡◌, ◌≢◌, refl, sym, ap, ◌∙◌,
  arith, subst,
}
use shario.Types.{Result, ok, err, fault, PathBuf}
use shario.Tree.File.{SharFile}
use shario.Tree.Load.{new_file}
use shario.Tree.Load.RoundTrip.{add_file-LoadedAll}
use shario.Tree.Directory.{SharDirectory, Directories, directory, nil, cons, dir_name}
use shario.Tree.Directory.Load.{
  Listing, unreadable, entries, Entries, done, bad_entry, bad_type, sub_dir, sub_file, other,
  Children, with_dir, with_file, and_then, new_directory, load_entries,
}
use shario.Tree.Directory.Loaded.Contents.{size, entries_size, contents_length}
use shario.Tree.Directory.Listed.Shape.{IsNamedOnce, FilesUnder, NotNamed, IsListed, ListedUnder}

-- No later entry is a directory with the path, or a file with it.
abbrev pub NoDirectory : PathBuf → Entries → Type 0
NoDirectory p done = Unit
NoDirectory p (bad_entry message es) = NoDirectory p es
NoDirectory p (bad_type message es) = NoDirectory p es
NoDirectory p (sub_dir path listing es) = (path ≢ p) × NoDirectory p es
NoDirectory p (sub_file path contents es) = NoDirectory p es
NoDirectory p (other es) = NoDirectory p es

abbrev pub NoFile : PathBuf → Entries → Type 0
NoFile p done = Unit
NoFile p (bad_entry message es) = NoFile p es
NoFile p (bad_type message es) = NoFile p es
NoFile p (sub_dir path listing es) = NoFile p es
NoFile p (sub_file path contents es) = (path ≢ p) × NoFile p es
NoFile p (other es) = NoFile p es

unfoldable mutual
  -- `read_dir` gives each entry the path it reads with the entry's name behind it, and no name twice.
  pub IsOnDisk : PathBuf → Listing → Type 0
  IsOnDisk path (unreadable message) = Unit
  IsOnDisk path (entries es) = IsNamedOnce path × EntriesUnder path es

  pub EntriesUnder : PathBuf → Entries → Type 0
  EntriesUnder path done = Unit
  EntriesUnder path (bad_entry message es) = EntriesUnder path es
  EntriesUnder path (bad_type message es) = EntriesUnder path es
  EntriesUnder path (sub_dir p listing es) =
      ((n : String) × (p ≡ path ++ n ∷ []))
      × NoDirectory p es
      × IsOnDisk p listing
      × EntriesUnder path es
  EntriesUnder path (sub_file p contents es) =
      ((n : String) × (p ≡ path ++ n ∷ [])) × NoFile p es × EntriesUnder path es
  EntriesUnder path (other es) = EntriesUnder path es

and_then-eq-ok :
    {A B : Type 0} (r : Result A) (next : A → Result B) {b : B}
    → and_then r next ≡ ok b
    → (a : A) × (r ≡ ok a) × (next a ≡ ok b)
and_then-eq-ok (ok a) next e = (a, refl, e)
and_then-eq-ok (err x) next e = cc
and_then-eq-ok fault next e = cc

with_dir-eq-ok :
    (d : SharDirectory) (r : Result Children) {out : Children}
    → with_dir d r ≡ ok out
    → (dirs : Directories) × (files : List SharFile) × (n : ℕ) × (r ≡ ok ((dirs, files), n))
      × (out ≡ ((cons d dirs, files), n))
with_dir-eq-ok d (ok ((dirs, files), n)) e = (dirs, files, n, refl, cc)
with_dir-eq-ok d (err x) e = cc
with_dir-eq-ok d fault e = cc

with_file-eq-ok :
    (f : SharFile) (r : Result Children) {out : Children}
    → with_file f r ≡ ok out
    → (dirs : Directories) × (files : List SharFile) × (n : ℕ) × (r ≡ ok ((dirs, files), n))
      × (out ≡ ((dirs, f ∷ files), n))
with_file-eq-ok f (ok ((dirs, files), n)) e = (dirs, files, n, refl, cc)
with_file-eq-ok f (err x) e = cc
with_file-eq-ok f fault e = cc

new_file-path :
    (path : PathBuf) (contents : String ⊎ List ℕ) (counter : ℕ) (f : SharFile) (n : ℕ)
    → counter + contents_length contents < 2 ^ 32
    → new_file path contents counter ≡ ok (f, n)
    → (f.file_path ≡ path) × (n ≡ counter + contents_length contents)
unfolding new_file
new_file-path path (inl message) counter f n lt e = cc
new_file-path path (inr contents) counter f n lt e =
    let (g, run, _, _, _, same_path, _, _) = add_file-LoadedAll path contents counter lt in
    let same : ◌≡◌ {A = Result (SharFile × ℕ)} (ok (g, counter + contents_length (inr contents)))
        (ok (f, n)) =
      sym run ∙ e in
    let same_file : g ≡ f = cc in (subst (λ h. h.file_path ≡ path) same_file same_path, cc)

-- What loading makes of a directory, and of its entries.
abbrev Placed : PathBuf → Listing → ℕ → SharDirectory → ℕ → Type 0
Placed path listing counter d n = IsListed d × (dir_name d ≡ path) × (n ≡ counter + size listing)

abbrev PlacedEntries : PathBuf → Entries → ℕ → Children → Type 0
PlacedEntries path es counter ((dirs, files), n) =
    ListedUnder path dirs
    × FilesUnder path files
    × ((p : PathBuf) → NoDirectory p es → NotNamed p dirs)
    × ((p : PathBuf) → NoFile p es → All (λ f. f.file_path ≢ p) files)
    × (n ≡ counter + entries_size es)

-- A sub-directory in front of what the other entries give.
sub_dir-PlacedEntries :
    (path p : PathBuf) (listing : Listing) (es : Entries) (counter m : ℕ) (d : SharDirectory)
    (dirs : Directories) (files : List SharFile) (n : ℕ)
    → EntriesUnder path (sub_dir p listing es)
    → Placed p listing counter d m
    → PlacedEntries path es m ((dirs, files), n)
    → PlacedEntries path (sub_dir p listing es) counter ((cons d dirs, files), n)
unfolding EntriesUnder ListedUnder entries_size
sub_dir-PlacedEntries path p listing es counter m d dirs files n ((c, below), unique, _, _)
      (listed, named, total) (under, own, dirs_apart, files_apart, total') =
    (
      (
        (c, named ∙ below),
        subst (λ q. NotNamed q dirs) (sym named) (dirs_apart p unique),
        listed,
        under,
      ),
      own,
      λ q apart. (λ e. apart.0 (sym named ∙ e), dirs_apart q apart.1),
      files_apart,
      omega (arith, total, total'),
    )

-- A file in front of what the other entries give.
sub_file-PlacedEntries :
    (path p : PathBuf) (contents : String ⊎ List ℕ) (es : Entries) (counter m : ℕ) (f : SharFile)
    (dirs : Directories) (files : List SharFile) (n : ℕ)
    → EntriesUnder path (sub_file p contents es)
    → (f.file_path ≡ p) × (m ≡ counter + contents_length contents)
    → PlacedEntries path es m ((dirs, files), n)
    → PlacedEntries path (sub_file p contents es) counter ((dirs, f ∷ files), n)
unfolding EntriesUnder entries_size
sub_file-PlacedEntries path p contents es counter m f dirs files n ((c, below), unique, _)
      (named, total) (under, own, dirs_apart, files_apart, total') =
    (
      under,
      (
        (c, named ∙ below),
        subst (λ q. All (λ g. g.file_path ≢ q) files) (sym named) (files_apart p unique),
        own,
      ),
      dirs_apart,
      λ q apart. (λ e. apart.0 (sym named ∙ e), files_apart q apart.1),
      omega (arith, total, total'),
    )

mutual
  unfolding IsOnDisk EntriesUnder IsListed ListedUnder new_directory load_entries size entries_size

  new_directory-Placed :
      (path : PathBuf) (listing : Listing) (counter : ℕ) (d : SharDirectory) (n : ℕ)
      → IsOnDisk path listing
      → counter + size listing < 2 ^ 32
      → new_directory path listing counter ≡ ok (d, n)
      → Placed path listing counter d n
  new_directory-Placed path (unreadable message) counter d n h lt e = absurd (ground arith)
  new_directory-Placed path (entries es) counter d n (once, under) lt e =
      let (((dirs, files), m), run, made) =
        and_then-eq-ok (load_entries es counter)
          (λ loaded. ok (directory path loaded.0.0 loaded.0.1, loaded.1)) e in
      let (listed, own, _, _, total) =
        load_entries-Placed path es counter dirs files m under lt run in
      let same : directory path dirs files ≡ d = cc in
      let count : m ≡ n = cc in
      (subst IsListed same (once, own, listed), ap dir_name (sym same), omega (arith, total, count))

  load_entries-Placed :
      (path : PathBuf) (es : Entries) (counter : ℕ) (dirs : Directories) (files : List SharFile)
      (n : ℕ)
      → EntriesUnder path es
      → counter + entries_size es < 2 ^ 32
      → load_entries es counter ≡ ok ((dirs, files), n)
      → PlacedEntries path es counter ((dirs, files), n)
  load_entries-Placed path done counter dirs files n h lt e =
      subst (PlacedEntries path done counter)
        (let same : ((nil, []), counter) ≡ ((dirs, files), n) = cc in same)
        (tt, tt, λ p _. tt, λ p _. tt, omega arith)
  load_entries-Placed path (bad_entry message es) counter dirs files n h lt e =
      absurd (ground arith)
  load_entries-Placed path (bad_type message es) counter dirs files n h lt e = absurd (ground arith)
  load_entries-Placed path (sub_dir p listing es) counter dirs files n h lt e =
      let ((d, m), run, rest) =
        and_then-eq-ok (new_directory p listing counter)
          (λ loaded. with_dir loaded.0 (load_entries es loaded.1)) e in
      let (dirs', files', n', run', made) = with_dir-eq-ok d (load_entries es m) rest in
      let first = new_directory-Placed p listing counter d m h.2 (omega arith) run in
      let later = load_entries-Placed path es m dirs' files' n' h.3 (omega (arith, first.2)) run' in
      subst (PlacedEntries path (sub_dir p listing es) counter) (sym made)
        (sub_dir-PlacedEntries path p listing es counter m d dirs' files' n' h first later)
  load_entries-Placed path (sub_file p contents es) counter dirs files n h lt e =
      let ((f, m), run, rest) =
        and_then-eq-ok (new_file p contents counter)
          (λ loaded. with_file loaded.0 (load_entries es loaded.1)) e in
      let (dirs', files', n', run', made) = with_file-eq-ok f (load_entries es m) rest in
      let first = new_file-path p contents counter f m (omega arith) run in
      let later = load_entries-Placed path es m dirs' files' n' h.2 (omega (arith, first.1)) run' in
      subst (PlacedEntries path (sub_file p contents es) counter) (sym made)
        (sub_file-PlacedEntries path p contents es counter m f dirs' files' n' h first later)
  load_entries-Placed path (other es) counter dirs files n h lt e =
      load_entries-Placed path es counter dirs files n h lt e

-- A directory that is loaded from disk while the counter does not pass u32, from a listing in which `read_dir`
-- gives each entry the path it reads with the entry's name behind it and no name twice, and in which the
-- name of each directory is a normal one that its path has once: it stands under the path that was loaded,
-- and so does, at any depth, every file and directory under that of its parent, with a name of its own.
pub new_directory-IsListed :
    (path : PathBuf) (listing : Listing) (counter : ℕ) (d : SharDirectory) (n : ℕ)
    → IsOnDisk path listing
    → counter + size listing < 2 ^ 32
    → new_directory path listing counter ≡ ok (d, n)
    → IsListed d × (dir_name d ≡ path)
new_directory-IsListed path listing counter d n h lt e =
    let placed = new_directory-Placed path listing counter d n h lt e in (placed.0, placed.1)
