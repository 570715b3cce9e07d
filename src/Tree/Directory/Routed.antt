-- ===== src/Tree/Directory/Routed.antt =====
-- shar/core/tree.rs, `SharDirectory::add_crdt` and `remove_crdt`: the file of the path.
use shario.Prelude.{ℕ, zero, suc, Bool, some, List, [], ◌∷◌, ◌≡◌, refl, arith, Identity}
use shario.Types.{PathBuf, Crdt, Result, ok, err, fault}
use shario.Tree.File.{SharFile, Projection}
use shario.Tree.Insert
use shario.Tree.Insert.{
  Added, add_at, place_crdt, with_character, parent_position, Slot, nowhere, at_end, element,
  add_row, fill_slot,
}
use shario.Tree.Delete
use shario.Tree.Delete.{remove_anchor, remove_cell, merge_row, with_tombstone, Removed}
use shario.Tree.Directory
use shario.Tree.Directory.{SharDirectory, Borrow, find_file, dir_name, at_file}
use shario.Tree.Directory.Borrowed.{find_file-written}

add_row-path :
    (f : SharFile) (row : ℕ) (r : Result Projection) → (add_row f row r).0.file_path ≡ f.file_path
unfolding add_row
add_row-path f row (ok proj) = refl
add_row-path f row (err e) = refl
add_row-path f row fault = refl

fill_slot-path :
    (f : SharFile) (row : ℕ) (line : List Identity) (k : Identity) (r : Result Slot)
    → (fill_slot f row line k r).0.file_path ≡ f.file_path
unfolding fill_slot
fill_slot-path f row line k (ok (element p)) = refl
fill_slot-path f row line k (ok (at_end p)) = refl
fill_slot-path f row line k (ok nowhere) = refl
fill_slot-path f row line k (err e) = refl
fill_slot-path f row line k fault = refl

place_crdt-path :
    (f : SharFile) (crdt : Crdt) (live : Bool) (pos : ℕ × ℕ)
    → (place_crdt f crdt live pos).0.file_path ≡ f.file_path
unfolding place_crdt
place_crdt-path f crdt live (row, col) = ground (arith, add_row-path f, fill_slot-path f)

add_at-path :
    (f : SharFile) (crdt : Crdt) (live : Bool) (r : Result (ℕ × ℕ))
    → (add_at f crdt live r).0.file_path ≡ f.file_path
unfolding add_at with_character
add_at-path f crdt live (ok pos) = place_crdt-path (with_character f crdt) crdt live pos
add_at-path f crdt live (err e) = refl
add_at-path f crdt live fault = refl

pub add_crdt-path :
    (f : SharFile) (hint : ℕ) (crdt : Crdt)
    → (Insert.add_crdt f hint crdt).0.file_path ≡ f.file_path
unfolding Insert.add_crdt
add_crdt-path f hint crdt = ground (arith, add_at-path f)

merge_row-path :
    (f : SharFile) (row : ℕ) (line : List Identity)
    → (merge_row f row line).0.file_path ≡ f.file_path
unfolding merge_row
merge_row-path f row [] = refl
merge_row-path f zero (x ∷ xs) = refl
merge_row-path f (suc row) (x ∷ xs) = ground arith

remove_anchor-path :
    (f : SharFile) (r : Result (ℕ × ℕ)) → (remove_anchor f r).0.file_path ≡ f.file_path
unfolding remove_anchor
remove_anchor-path f (err e) = refl
remove_anchor-path f fault = refl
remove_anchor-path f (ok (row, col)) = ground (arith, merge_row-path f)

remove_cell-path : (f : SharFile) (r : Result (ℕ × ℕ)) → (remove_cell f r).0.file_path ≡ f.file_path
unfolding remove_cell
remove_cell-path f (err e) = refl
remove_cell-path f fault = refl
remove_cell-path f (ok (row, col)) = ground arith

pub remove_crdt-path :
    (f : SharFile) (hint : ℕ) (k : Identity)
    → (Delete.remove_crdt f hint k).0.file_path ≡ f.file_path
unfolding Delete.remove_crdt with_tombstone
remove_crdt-path f hint k =
    ground (arith, remove_anchor-path (with_tombstone f k), remove_cell-path (with_tombstone f k))

module _ {ℓ} {A : Type ℓ} (d : SharDirectory) (path : PathBuf)
    (method : SharFile → SharFile × Result A) where
  at_file-routed :
      (f : SharFile) (back : SharFile → SharDirectory)
      → find_file d path ≡ some (f, back)
      → (method f).0.file_path ≡ f.file_path
      → (find_file (at_file d path method).0 path ≡ some ((method f).0, back))
        × ((at_file d path method).1 ≡ (method f).1)
  unfolding at_file
  at_file-routed f back e p =
      rw (at_file, e) ((find_file-written d path f (method f).0 back e p).0, refl)

-- An insertion keeps the directory's own path.
pub add_crdt-root :
    (d : SharDirectory) (path : PathBuf) (f : SharFile) (back : SharFile → SharDirectory)
    → find_file d path ≡ some (f, back)
    → (hint : ℕ) (crdt : Crdt) → dir_name (Directory.add_crdt d path hint crdt).0 ≡ dir_name d
unfolding Directory.add_crdt at_file
add_crdt-root d path f back e hint crdt =
    rw (at_file, e)
      (find_file-written d path f (Insert.add_crdt f hint crdt).0 back e
        (add_crdt-path f hint crdt)).1

-- So does a removal.
pub remove_crdt-root :
    (d : SharDirectory) (path : PathBuf) (f : SharFile) (back : SharFile → SharDirectory)
    → find_file d path ≡ some (f, back)
    → (hint : ℕ) (k : Identity) → dir_name (Directory.remove_crdt d path hint k).0 ≡ dir_name d
unfolding Directory.remove_crdt at_file
remove_crdt-root d path f back e hint k =
    rw (at_file, e)
      (find_file-written d path f (Delete.remove_crdt f hint k).0 back e
        (remove_crdt-path f hint k)).1

-- Where a path leads to a file, an insertion and a removal by the directory answer as those of the
-- file do, and leave a directory in which the path leads to the file that those leave.
pub edits-routed :
    (d : SharDirectory) (path : PathBuf) (f : SharFile) (back : SharFile → SharDirectory)
    → find_file d path ≡ some (f, back)
    → ((hint : ℕ) (crdt : Crdt)
        → (find_file (Directory.add_crdt d path hint crdt).0 path
            ≡ some ((Insert.add_crdt f hint crdt).0, back))
          × ((Directory.add_crdt d path hint crdt).1 ≡ (Insert.add_crdt f hint crdt).1))
      × ((hint : ℕ) (k : Identity)
          → (find_file (Directory.remove_crdt d path hint k).0 path
              ≡ some ((Delete.remove_crdt f hint k).0, back))
            × ((Directory.remove_crdt d path hint k).1 ≡ (Delete.remove_crdt f hint k).1))
unfolding Directory.add_crdt Directory.remove_crdt
edits-routed d path f back e = (
  λ hint crdt.
      at_file-routed d path (λ g. Insert.add_crdt g hint crdt) f back e (add_crdt-path f hint crdt),
  λ hint k.
      at_file-routed d path (λ g. Delete.remove_crdt g hint k) f back e (remove_crdt-path f hint k),
)
