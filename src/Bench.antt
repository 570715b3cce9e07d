-- ===== src/Bench.antt =====
-- bench.rs: a trace of edits replayed against a queue in the same process, beside a mirror of the
-- document's lines. `none` is a panic. Reading the trace, the clock and the report are not modelled.
pub mod Mirror
pub mod Places
pub mod Tracks
pub mod Edits
pub mod Patches
pub mod Replay
pub mod Start
pub mod Report
use mathlib.Core.Option
use shario.Prelude.{
  ℕ, zero, suc, ◌+◌, ◌-◌, ◌%◌, ◌^◌, Bool, true, false, ◌&&◌, Option, none, some, List, [], ◌∷◌,
  ◌++◌, ◌≡◌, ltb, leb, ◌==◌, if◌then◌else◌, Identity, length, get_elem?, take, drop, set, insert_at,
  remove_at, inr,
}
use shario.Types.{PathBuf, IdeAdd, Remove, Result, ok, err, fault}
use shario.Tree.Directory.Load.{Listing, entries, sub_file, done}
use shario.Queue.State.{
  SharQueue, Call, network_added, network_removed, ide_add_confirmed, ide_added, ide_removed, ◌>>=◌,
  open_queue,
}
use shario.Queue.Ide
use shario.Queue.Network

pub record Cell : Type 0 where
  pub id : ℕ
  pub peer : ℕ
  pub value : ℕ

pub record Line : Type 0 where
  pub anchor_id : ℕ
  pub anchor_peer : ℕ
  pub cells : List Cell

-- The loop of `locate`; where it comes to a row, `acc` is at most the offset.
unfoldable pub locate_from : List Line → ℕ → ℕ → ℕ → Option (ℕ × ℕ)
locate_from [] row acc offset = none
locate_from (line ∷ rest) row acc offset =
    if leb offset (acc + length line.cells)
    then some (row, offset - acc)
    else locate_from rest (suc row) (acc + length line.cells + 1) offset

unfoldable pub locate : List Line → ℕ → Option (ℕ × ℕ)
unfolding locate_from
locate lines offset = locate_from lines 0 0 offset

abbrev pub cell_values : List Cell → List ℕ
cell_values [] = []
cell_values (c ∷ cs) = c.value ∷ cell_values cs

unfoldable pub current_text : List Line → List ℕ
current_text [] = []
current_text (line ∷ []) = cell_values line.cells
current_text (line ∷ next ∷ rest) = cell_values line.cells ++ 10 ∷ current_text (next ∷ rest)

-- The queue, and the variables that `run` passes to the edits. The log of the queue's calls is
-- emptied before each operation: of its callbacks only the confirmation has an effect here.
pub record Bench : Type 0 where
  pub queue : SharQueue
  pub lines : List Line
  pub next_tag : ℕ
  pub confirmed : Option Identity

-- What the callbacks leave in `confirmed`.
unfoldable pub observed : Option Identity → List Call → Option Identity
observed confirmed [] = confirmed
observed confirmed (ide_add_confirmed op ∷ calls) = observed (some (op.id, op.peer)) calls
observed confirmed (network_added op ∷ calls) = observed confirmed calls
observed confirmed (network_removed op ∷ calls) = observed confirmed calls
observed confirmed (ide_added op op' ∷ calls) = observed confirmed calls
observed confirmed (ide_removed op ∷ calls) = observed confirmed calls

-- The node in front of a column.
unfoldable pub parent_at : Line → ℕ → Option Identity
parent_at line zero = some (line.anchor_id, line.anchor_peer)
parent_at line (suc col) = Option.map (λ (c : Cell). (c.id, c.peer)) (get_elem? line.cells col)

-- The new character in the mirror: a row of its own for '\n', else a cell.
unfoldable pub place_char : List Line → ℕ → Line → ℕ → Identity → ℕ → Option (List Line)
place_char lines row line col0 k value =
    if leb col0 (length line.cells)
    then some (
        if value == 10
        then insert_at (row + 1)
            (record { anchor_id = k.0; anchor_peer = k.1; cells = drop col0 line.cells })
            (set lines row (record line { cells = take col0 line.cells }))
        else set lines row (record line {
          cells = insert_at col0 (record { id = k.0; peer = k.1; value = value }) line.cells;
        }))
    else none

abbrev pub new_char : PathBuf → Identity → ℕ → ℕ → ℕ → IdeAdd
new_char path parent value tag row = record {
  file_path = path;
  parent_id = some parent.0;
  parent_peer = some parent.1;
  parent_tag = none;
  val = value;
  tag = tag;
  line_hint = row;
}

abbrev pub unlogged : SharQueue → SharQueue
unlogged q = record q { calls = [] }

-- From the place on.
unfoldable pub insert_at_place : PathBuf → ℕ → Bench → ℕ → ℕ → Line → Option Bench
unfolding parent_at place_char observed
insert_at_place path value b row col0 line = do
  parent ← parent_at line col0
  q ← Ide.add_ide_operation (unlogged b.queue) (new_char path parent value b.next_tag row)
  k ← observed b.confirmed q.calls
  lines ← place_char b.lines row line col0 k value
  some (record { queue = q; lines = lines; next_tag = (b.next_tag + 1) % 2 ^ 32; confirmed = none })

unfoldable pub insert_char : PathBuf → ℕ → ℕ → Bench → Option Bench
unfolding locate insert_at_place
insert_char path offset value b = do
  spot ← locate b.lines offset
  line ← get_elem? b.lines spot.0
  insert_at_place path value b spot.0 spot.1 line

-- The removal in the mirror, with the node that goes and the row that is the hint.
unfoldable pub unplace_char : List Line → ℕ → Line → ℕ → Option (List Line × Identity × ℕ)
unplace_char lines row line col0 =
    if ltb col0 (length line.cells)
    then (get_elem? line.cells col0 >>= λ cell. some (
      set lines row (record line { cells = remove_at col0 line.cells }),
      (cell.id, cell.peer),
      row,
    ))
    else (get_elem? lines (row + 1) >>= λ next. some (
      set (remove_at (row + 1) lines) row (record line { cells = line.cells ++ next.cells }),
      (next.anchor_id, next.anchor_peer),
      row + 1,
    ))

unfoldable pub remove_at_place : PathBuf → Bench → ℕ → ℕ → Line → Option Bench
unfolding unplace_char observed
remove_at_place path b row col0 line = do
  gone ← unplace_char b.lines row line col0
  q ←
      Network.remove_ide_operation (unlogged b.queue)
        (record { file_path = path; id = gone.1.0; peer = gone.1.1; row = gone.2 })
  some (record b { queue = q; lines = gone.0; confirmed = observed b.confirmed q.calls })

unfoldable pub remove_char : PathBuf → ℕ → Bench → Option Bench
unfolding locate remove_at_place
remove_char path offset b = do
  spot ← locate b.lines offset
  line ← get_elem? b.lines spot.0
  remove_at_place path b spot.0 spot.1 line

-- The loops of `run` over a patch, a transaction and a trace.
unfoldable pub remove_chars : PathBuf → ℕ → ℕ → Bench → Option Bench
unfolding remove_char
remove_chars path pos zero b = some b
remove_chars path pos (suc del_count) b =
    remove_char path pos b >>= λ b'. remove_chars path pos del_count b'

unfoldable pub insert_chars : PathBuf → ℕ → List ℕ → Bench → Option Bench
unfolding insert_char
insert_chars path pos [] b = some b
insert_chars path pos (ch ∷ chars) b =
    insert_char path pos ch b >>= λ b'. insert_chars path (pos + 1) chars b'

pub record Patch : Type 0 where
  pub pos : ℕ
  pub del_count : ℕ
  pub inserted : List ℕ

unfoldable pub apply_patch : PathBuf → Patch → Bench → Option Bench
unfolding remove_chars insert_chars
apply_patch path p b =
    remove_chars path p.pos p.del_count b >>= λ b'. insert_chars path p.pos p.inserted b'

unfoldable pub apply_patches : PathBuf → List Patch → Bench → Option Bench
unfolding apply_patch
apply_patches path [] b = some b
apply_patches path (p ∷ patches) b = apply_patch path p b >>= λ b'. apply_patches path patches b'

-- The characters that patches insert, and those that they delete.
unfoldable pub total_inserts : List Patch → ℕ
total_inserts [] = 0
total_inserts (p ∷ patches) = length p.inserted + total_inserts patches

unfoldable pub total_deletes : List Patch → ℕ
total_deletes [] = 0
total_deletes (p ∷ patches) = p.del_count + total_deletes patches

-- A trace is a list of transactions, each a list of patches.
unfoldable pub play : PathBuf → List (List Patch) → Bench → Option Bench
unfolding apply_patches
play path [] b = some b
play path (txn ∷ txns) b = apply_patches path txn b >>= λ b'. play path txns b'

-- The scratch directory with its one empty file.
abbrev pub scratch_listing : PathBuf → Listing
scratch_listing file_path = entries (sub_file file_path (inr []) done)

abbrev pub with_mirror : Result SharQueue → Result Bench
with_mirror (ok q) = ok (record {
  queue = q;
  lines = record { anchor_id = 0; anchor_peer = 0; cells = [] } ∷ [];
  next_tag = 0;
  confirmed = none;
})
with_mirror (err e) = err e
with_mirror fault = fault

unfoldable pub start : PathBuf → Result Bench
unfolding open_queue
start scratch_dir =
    with_mirror (open_queue scratch_dir (scratch_listing (scratch_dir ++ "doc.txt" ∷ [])) 0)

unfoldable pub same_text : List ℕ → List ℕ → Bool
same_text [] [] = true
same_text (c ∷ cs) (d ∷ ds) = c == d && same_text cs ds
same_text [] (d ∷ ds) = false
same_text (c ∷ cs) [] = false

-- `matches`: whether `run` reports a pass.
unfoldable pub passes : Bench → List ℕ → Bool
unfolding current_text same_text
passes b end_content = same_text (current_text b.lines) end_content
