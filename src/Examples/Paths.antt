-- ===== src/Examples/Paths.antt =====
-- shar/core/tree.rs and main.rs: the theorems on directories and paths, and on a join, at concrete ones.
use shario.Prelude.{
  ℕ, [], ◌∷◌, ◌++◌, ◌≡◌, ◌≢◌, refl, sym, ap, ◌∙◌, inr, arith, Identity, String, string_eq, true,
  false,
}
use shario.Types.{Crdt, PathBuf, Result, ok, err}
use shario.Tree.File.{SharFile}
use shario.Tree.Insert
use shario.Tree.Delete
use shario.Tree.Directory
use shario.Tree.Directory.{SharDirectory, directory, nil, cons, file_not_found, dir_name}
use shario.Tree.Directory.Load.{Listing, entries, done, sub_dir, sub_file, new_directory}
use shario.Tree.Directory.Loaded.Contents.{files_of, size}
use shario.Tree.Directory.Listed.{Edited, edits-listed}
use shario.Tree.Directory.Listed.Shape.{IsListed}
use shario.Tree.Directory.Listed.OnDisk.{IsOnDisk, new_directory-IsListed}
use shario.Tree.Directory.Repeated.{repeated, repeated_name-unreachable}
use shario.Examples.{page, note}

abbrev memo : SharFile
memo = record page { file_path = "/" ∷ "doc" ∷ "sub" ∷ "memo" ∷ [] }

-- "/doc" with a file beside its children "/doc/old", which is empty, and "/doc/sub", which holds two files.
abbrev site : SharDirectory
site =
    directory ("/" ∷ "doc" ∷ [])
      (cons (directory ("/" ∷ "doc" ∷ "old" ∷ []) nil [])
        (cons (directory ("/" ∷ "doc" ∷ "sub" ∷ []) nil (memo ∷ note ∷ [])) nil))
      (page ∷ [])

abbrev last_or : String → PathBuf → String
last_or s [] = s
last_or s (c ∷ cs) = last_or c cs

apart : (c d : String) → string_eq.beq c d ≡ false → c ≡ d → false ≡ true
apart c d other e = sym other ∙ (string_eq.beq_iff c d).1 e

note-memo : note.file_path ≢ memo.file_path
note-memo e = cc (apart "note" "memo" refl (ap (last_or "") e))

sub-old :
    dir_name (directory ("/" ∷ "doc" ∷ "sub" ∷ []) nil (memo ∷ note ∷ []))
    ≢ "/" ∷ "doc" ∷ "old" ∷ []
sub-old e = cc (apart "sub" "old" refl (ap (last_or "") e))

site-IsListed : IsListed site
unfolding IsListed
site-IsListed = (
  ("/" ∷ [], "doc", refl, (refl, tt), (refl, refl, refl)),
  (("page", refl), tt, tt),
  (
    ("old", refl),
    (sub-old, tt),
    (("/" ∷ "doc" ∷ [], "old", refl, (refl, (refl, tt)), (refl, refl, refl)), tt, tt),
    (
      ("sub", refl),
      tt,
      (
        ("/" ∷ "doc" ∷ [], "sub", refl, (refl, (refl, tt)), (refl, refl, refl)),
        (("memo", refl), (note-memo, tt), (("note", refl), tt, tt)),
        tt,
      ),
      tt,
    ),
  ),
)

site-edits :
    ((hint : ℕ) (crdt : Crdt)
      → Edited site
          (memo ∷ [])
          (page ∷ [])
          (Insert.add_crdt note hint crdt)
          (Directory.add_crdt site note.file_path hint crdt))
    × ((hint : ℕ) (k : Identity)
        → Edited site
            (memo ∷ [])
            (page ∷ [])
            (Delete.remove_crdt note hint k)
            (Directory.remove_crdt site note.file_path hint k))
unfolding files_of
site-edits = edits-listed site note (memo ∷ []) (page ∷ []) site-IsListed refl

-- "/app/src/app" with a file "main".
app-unreachable :
    ((hint : ℕ) (crdt : Crdt)
      → Directory.add_crdt
          (directory (repeated ("/" ∷ []) ("src" ∷ []) "app") nil (memo ∷ []))
          (repeated ("/" ∷ []) ("src" ∷ []) "app" ++ "main" ∷ [])
          hint
          crdt
        ≡ (directory (repeated ("/" ∷ []) ("src" ∷ []) "app") nil (memo ∷ []), err file_not_found))
    × ((hint : ℕ) (k : Identity)
        → Directory.remove_crdt
            (directory (repeated ("/" ∷ []) ("src" ∷ []) "app") nil (memo ∷ []))
            (repeated ("/" ∷ []) ("src" ∷ []) "app" ++ "main" ∷ [])
            hint
            k
          ≡ (
            directory (repeated ("/" ∷ []) ("src" ∷ []) "app") nil (memo ∷ []),
            err file_not_found,
          ))
app-unreachable =
    repeated_name-unreachable ("/" ∷ []) ("src" ∷ []) "app" "main" (memo ∷ []) (refl, tt)
      (refl, refl, refl)

-- "/doc" on disk, with a file beside a directory that holds another.
abbrev on_disk : Listing
on_disk = entries (
    sub_file ("/" ∷ "doc" ∷ "page" ∷ []) (inr (97 ∷ [])) (
      sub_dir ("/" ∷ "doc" ∷ "sub" ∷ [])
        (entries (sub_file ("/" ∷ "doc" ∷ "sub" ∷ "note" ∷ []) (inr (98 ∷ 10 ∷ [])) done)) done))

on_disk-IsOnDisk : IsOnDisk ("/" ∷ "doc" ∷ []) on_disk
unfolding IsOnDisk
on_disk-IsOnDisk = (
  ("/" ∷ [], "doc", refl, (refl, tt), (refl, refl, refl)),
  (
    ("page", refl),
    tt,
    (
      ("sub", refl),
      tt,
      (
        ("/" ∷ "doc" ∷ [], "sub", refl, (refl, (refl, tt)), (refl, refl, refl)),
        (("note", refl), tt, tt),
      ),
      tt,
    ),
  ),
)

abbrev loaded_or : SharDirectory × ℕ → Result (SharDirectory × ℕ) → SharDirectory × ℕ
loaded_or d (ok r) = r
loaded_or d _ = d

abbrev loaded : SharDirectory × ℕ
loaded = loaded_or (site, 0) (new_directory ("/" ∷ "doc" ∷ []) on_disk 0)

on_disk-loads : new_directory ("/" ∷ "doc" ∷ []) on_disk 0 ≡ ok loaded
unfolding new_directory shario.Tree.Load.add_file shario.Tree.Load.load_chars Insert.add_crdt
    shario.HashMap.get shario.Prelude.same shario.Tree.Search.find_crdt
    shario.Tree.File.is_line_break shario.HashMap.insert shario.HashMap.remove
    shario.Tree.Search.position
on_disk-loads = refl

loaded-IsListed : IsListed loaded.0 × (dir_name loaded.0 ≡ "/" ∷ "doc" ∷ [])
unfolding size
loaded-IsListed =
    new_directory-IsListed ("/" ∷ "doc" ∷ []) on_disk 0 loaded.0 loaded.1 on_disk-IsOnDisk
      (omega arith) on_disk-loads
