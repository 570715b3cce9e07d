-- ===== src/Tree/Directory/Loaded.antt =====
-- shar/core/tree.rs, `SharDirectory::new`: the files of a directory that was loaded from disk.
pub mod Contents
use mathlib.Core.List.{map-append}
use mathlib.Core.Path.{ap₂}
use shario.Prelude.{
  ℕ, ◌+◌, ◌≤◌, ◌<◌, ◌^◌, String, Option, none, some, List, [], ◌∷◌, ◌++◌, map, All, ◌⊎◌, inl, inr,
  ◌≡◌, refl, sym, ap, ◌∙◌, arith, length, Identity, identity_eq, subst,
}
use shario.Types.{Result, ok, err, fault, read_fail, PathBuf}
use shario.HashMap
use shario.Tree.File.{SharFile}
use shario.Tree.Load.{new_file, add_file, seeded}
use shario.Tree.Load.RoundTrip.{text, text-seeded, add_file-LoadedAll}
use shario.Tree.Insert.Climb.{IsNumbered}
use shario.Tree.Document.{IsWellFormed, All-append}
use shario.Tree.Directory.{SharDirectory, Directories, directory, nil, cons}
use shario.Tree.Directory.Load.{
  Listing, unreadable, entries, Entries, done, bad_entry, bad_type, sub_dir, sub_file, other,
  Children, with_dir, with_file, and_then, new_directory, load_entries,
}
use shario.Tree.Directory.Loaded.Contents.{
  files_of, files_below, earlier, contents_length, contents_error, size, entries_size, first_error,
  entries_error, contents_of, contents_below, own_contents, IsLoadedFile, shows, shown_as,
  All-later, Loads, LoadsEntries,
}

-- A sub-directory, and the entries behind it.
sub_dir-LoadsEntries :
    (path : PathBuf) (listing : Listing) (es : Entries) (counter : ℕ) (e e' : Option String)
    → Loads listing counter e (new_directory path listing counter)
    → LoadsEntries es (counter + size listing) e' (load_entries es (counter + size listing))
    → LoadsEntries
        (sub_dir path listing es)
        counter
        (earlier e e')
        (load_entries (sub_dir path listing es) counter)
unfolding load_entries size entries_size files_of files_below contents_of contents_below
    own_contents
sub_dir-LoadsEntries path listing es counter (some message) e' refused rest =
    ap (λ r. and_then r (λ loaded. with_dir loaded.0 (load_entries es loaded.1))) refused
sub_dir-LoadsEntries path listing es counter none (some message) (d, run, kept, shown) refused =
    ap (λ r. and_then r (λ loaded. with_dir loaded.0 (load_entries es loaded.1))) run
    ∙ ap (with_dir d) refused
sub_dir-LoadsEntries path listing es counter none none (d, run, kept, shown)
      (dirs, files, run', below, own, shown_below, shown_own) =
    let total : counter + size listing + entries_size es
        ≡ counter + (size listing + entries_size es) =
      omega arith in
    (
      cons d dirs,
      files,
      ap (λ r. and_then r (λ loaded. with_dir loaded.0 (load_entries es loaded.1))) run
          ∙ ap (with_dir d) run'
          ∙ ap (λ n. ok ((cons d dirs, files), n)) total,
      (All-append (IsLoadedFile (counter + (size listing + entries_size es))) (files_of d)
            (files_below dirs)).1
          (
            All-later (counter + size listing) _ (files_of d) (omega arith) kept,
            All-later (counter + size listing + entries_size es) _ (files_below dirs) (omega arith)
                below,
          ),
      All-later (counter + size listing + entries_size es) _ files (omega arith) own,
      map-append shows (files_of d) (files_below dirs)
          ∙ ap₂ (λ xs ys. xs ++ ys) shown shown_below
          ∙ sym (map-append shown_as (contents_of listing) (contents_below es)),
      shown_own,
    )

-- A file, and the entries behind it.
sub_file-LoadsEntries :
    (path : PathBuf) (contents : String ⊎ List ℕ) (es : Entries) (counter : ℕ) (e' : Option String)
    → counter + contents_length contents < 2 ^ 32
    → LoadsEntries es
        (counter + contents_length contents)
        e'
        (load_entries es (counter + contents_length contents))
    → LoadsEntries
        (sub_file path contents es)
        counter
        (earlier (contents_error contents) e')
        (load_entries (sub_file path contents es) counter)
unfolding load_entries entries_size contents_below own_contents new_file
sub_file-LoadsEntries path (inl message) es counter e' lt rest = refl
sub_file-LoadsEntries path (inr contents) es counter (some message) lt refused =
    let (f, run, _, _, _, _, _, _) = add_file-LoadedAll path contents counter lt in
    ap (λ r. and_then r (λ loaded. with_file loaded.0 (load_entries es loaded.1))) run
    ∙ ap (with_file f) refused
sub_file-LoadsEntries path (inr contents) es counter none lt
      (dirs, files, run', below, own, shown_below, shown_own) =
    let (f, run, well, doc, shown, same_path, numbered, free) =
      add_file-LoadedAll path contents counter lt in
    let total : counter + length contents + entries_size es
        ≡ counter + (length contents + entries_size es) =
      omega arith in
    (
      dirs,
      f ∷ files,
      ap (λ r. and_then r (λ loaded. with_file loaded.0 (load_entries es loaded.1))) run
          ∙ ap (with_file f) run'
          ∙ ap (λ n. ok ((dirs, f ∷ files), n)) total,
      All-later (counter + length contents + entries_size es) _ (files_below dirs) (omega arith)
          below,
      (
        (well, numbered, λ k lt'. free k (omega (arith, lt'))),
        All-later (counter + length contents + entries_size es) _ files (omega arith) own,
      ),
      shown_below,
      ap₂ {C = List (PathBuf × List ℕ)} (λ x xs. x ∷ xs)
          (ap₂ {C = PathBuf × List ℕ} (λ p t. (p, t)) same_path
            (shown ∙ ap (λ t. t ++ contents) (text-seeded path)))
          shown_own,
    )

-- A directory from what its entries give.
entries-Loads :
    (path : PathBuf) (es : Entries) (counter : ℕ) (e : Option String)
    → LoadsEntries es counter e (load_entries es counter)
    → Loads (entries es) counter e (new_directory path (entries es) counter)
unfolding new_directory size files_of contents_of
entries-Loads path es counter (some message) refused =
    ap (λ r. and_then r (λ loaded. ok (directory path loaded.0.0 loaded.0.1, loaded.1))) refused
entries-Loads path es counter none (dirs, files, run, below, own, shown_below, shown_own) = (
  directory path dirs files,
  ap (λ r. and_then r (λ loaded. ok (directory path loaded.0.0 loaded.0.1, loaded.1))) run,
  (All-append (IsLoadedFile (counter + entries_size es)) (files_below dirs) files).1 (below, own),
  map-append shows (files_below dirs) files
      ∙ ap₂ (λ xs ys. xs ++ ys) shown_below shown_own
      ∙ sym (map-append shown_as (contents_below es) (own_contents es)),
)

mutual
  unfolding new_directory first_error entries_error size entries_size files_of contents_of

  -- By the mutual recursion of `SharDirectory::new`.
  new_directory-Loads :
      (path : PathBuf) (listing : Listing) (counter : ℕ)
      → counter + size listing < 2 ^ 32
      → Loads listing counter (first_error listing) (new_directory path listing counter)
  new_directory-Loads path (unreadable message) counter lt = refl
  new_directory-Loads path (entries es) counter lt =
      entries-Loads path es counter (entries_error es) (load_entries-Loads es counter lt)

  load_entries-Loads :
      (es : Entries) (counter : ℕ)
      → counter + entries_size es < 2 ^ 32
      → LoadsEntries es counter (entries_error es) (load_entries es counter)
  load_entries-Loads done counter lt =
      (nil, [], ap (λ n. ok ((nil, []), n)) (omega arith), tt, tt, refl, refl)
  load_entries-Loads (bad_entry message es) counter lt = refl
  load_entries-Loads (bad_type message es) counter lt = refl
  load_entries-Loads (sub_dir path listing es) counter lt =
      sub_dir-LoadsEntries path listing es counter (first_error listing) (entries_error es)
        (new_directory-Loads path listing counter (omega arith))
        (load_entries-Loads es (counter + size listing) (omega arith))
  load_entries-Loads (sub_file path contents es) counter lt =
      sub_file-LoadsEntries path contents es counter (entries_error es) (omega arith)
        (load_entries-Loads es (counter + contents_length contents) (omega arith))
  load_entries-Loads (other es) counter lt = load_entries-Loads es counter lt

-- Loading a directory while the counter does not pass u32: the first failure to read is its error, whatever
-- was loaded before. Without a failure it succeeds, and the counter grows by the number of characters; every file of the directory,
-- at any depth, is well formed and has ids from 1 up to that counter, and the files show the paths and texts that were read, the
-- files below sub-directories first.
pub new_directory-loaded :
    (path : PathBuf) (listing : Listing) (counter : ℕ)
    → counter + size listing < 2 ^ 32
    → Loads listing counter (first_error listing) (new_directory path listing counter)
new_directory-loaded path listing counter lt = new_directory-Loads path listing counter lt
