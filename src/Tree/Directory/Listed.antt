-- ===== src/Tree/Directory/Listed.antt =====
-- shar/core/tree.rs, `SharDirectory::add_crdt` and `remove_crdt`: the edit of a file of a directory, by its path.
pub mod OnDisk
pub mod Shape
mod Search
use shario.Prelude.{ℕ, List, ◌∷◌, ◌++◌, ◌≡◌, refl, Identity}
use shario.Types.{Crdt, Result}
use shario.Tree.File.{SharFile}
use shario.Tree.Insert
use shario.Tree.Delete
use shario.Tree.Directory
use shario.Tree.Directory.{SharDirectory, dir_name, find_file, at_file}
use shario.Tree.Directory.Loaded.Contents.{files_of}
use shario.Tree.Directory.Routed.{add_crdt-path, remove_crdt-path}
use shario.Tree.Directory.Listed.Shape.{IsListed, Replaces}
use shario.Tree.Directory.Listed.Search.{KeepsListed, listed-FoundFile}

-- The edit of one file: the answer is that of the file, which is replaced among the files of the directory,
-- and the paths are still in order.
abbrev pub Edited {ℓ} :
    {A : Type ℓ}
    → SharDirectory
    → List SharFile
    → List SharFile
    → SharFile × Result A
    → SharDirectory × Result A
    → Type ℓ
Edited d front rest (f, answer) (d', answer') =
    (files_of d' ≡ front ++ f ∷ rest)
    × (answer' ≡ answer)
    × (IsListed d' × (dir_name d' ≡ dir_name d))

at_file-Edited {ℓ} :
    {A : Type ℓ} (d : SharDirectory) (f : SharFile) (front rest : List SharFile)
    (method : SharFile → SharFile × Result A)
    → (method f).0.file_path ≡ f.file_path
    → Replaces files_of (KeepsListed (dir_name d)) (find_file d f.file_path) front f rest
    → Edited d front rest (method f) (at_file d f.file_path method)
unfolding at_file
at_file-Edited d f front rest method same_path (back, found, writes, keeps) =
    rw (at_file, found) (writes (method f).0, refl, keeps (method f).0 same_path)

-- In a directory where, at any depth, every file and directory stands under the path of its parent with a
-- name of its own, and each directory's name is a normal one that occurs once in its path: an insertion and
-- a removal under the path of a file of it answer as those of that file do, and put what those leave in
-- its place among the files, all others untouched and in their order. The directory keeps its path, and
-- its files and directories stand as before.
pub edits-listed :
    (d : SharDirectory) (f : SharFile) (front rest : List SharFile)
    → IsListed d
    → files_of d ≡ front ++ f ∷ rest
    → ((hint : ℕ) (crdt : Crdt)
        → Edited d front rest
            (Insert.add_crdt f hint crdt)
            (Directory.add_crdt d f.file_path hint crdt))
      × ((hint : ℕ) (k : Identity)
          → Edited d front rest
              (Delete.remove_crdt f hint k)
              (Directory.remove_crdt d f.file_path hint k))
unfolding Directory.add_crdt Directory.remove_crdt
edits-listed d f front rest listed e =
    let found = (listed-FoundFile d f front rest listed e).1 in
    (
      λ hint crdt.
          at_file-Edited d f front rest (λ g. Insert.add_crdt g hint crdt)
            (add_crdt-path f hint crdt) found,
      λ hint k.
          at_file-Edited d f front rest (λ g. Delete.remove_crdt g hint k)
            (remove_crdt-path f hint k) found,
    )
