-- ===== src/Examples/Runs.antt =====
-- bench.rs, setup.rs and network_callbacks.rs: the theorems at concrete runs.
use shario.Prelude.{
  ℕ, ◌+◌, ◌≤◌, ◌<◌, ◌^◌, Bool, true, false, Option, some, List, [], ◌∷◌, ◌++◌, ◌≡◌, leb, string_eq,
  refl, inr, arith, String, concat, All,
}
use shario.Types.{ok}
use shario.Tree.Directory.{file_name, after_name}
use shario.Queue.State.{new_queue}
use shario.Bench.{Bench, Patch, play, start, current_text, total_inserts}
use shario.Bench.Tracks.{Tracks}
use shario.Bench.Edits.{Edited}
use shario.Bench.Patches.{replayed, Applies}
use shario.Bench.Replay.{play-edits}
use shario.Bench.Start.{started, started-Tracks, start-replays, Replayed}
use shario.Bench.Report.{percentile, Ranked, percentile-Ranked}
use shario.Callbacks.{emit_until, emit_until-first, attempts}
use shario.Tree.Directory.Load.{Listing, entries, sub_dir, sub_file, done, new_directory}
use shario.Tree.Directory.Loaded.{new_directory-loaded}
use shario.Tree.Directory.Loaded.Contents.{Loads, first_error, size, entries_size}

abbrev scratch : List String
scratch = "/" ∷ "tmp" ∷ "scratch" ∷ []

-- "a", a line break and "b" are typed; then "c" and a line break take the place of the line break.
abbrev trace : List (List Patch)
trace =
    (record { pos = 0; del_count = 0; inserted = 97 ∷ 10 ∷ 98 ∷ [] } ∷ [])
    ∷ (record { pos = 1; del_count = 1; inserted = 99 ∷ 10 ∷ [] } ∷ [])
    ∷ []

trace-Applies : Applies (concat trace) []
trace-Applies = (omega arith, (omega arith, tt))

trace-inserts : total_inserts (concat trace) < 2 ^ 32
unfolding total_inserts
trace-inserts = omega arith

scratch-replays :
    (b : Bench) × (b' : Bench) × (start scratch ≡ ok b)
    × (play (scratch ++ "doc.txt" ∷ []) trace b ≡ some b')
    × Replayed (scratch ++ "doc.txt" ∷ []) (concat trace) b'
unfolding file_name after_name
scratch-replays = start-replays scratch "scratch" trace refl refl trace-Applies trace-inserts

scratch-Tracks : Tracks (scratch ++ "doc.txt" ∷ []) (started scratch)
unfolding file_name after_name
scratch-Tracks = started-Tracks scratch "scratch" refl refl

scratch-edits :
    Edited
      (scratch ++ "doc.txt" ∷ [])
      (play (scratch ++ "doc.txt" ∷ []) trace (started scratch))
      (replayed (concat trace) [])
      (0 + total_inserts (concat trace))
unfolding started new_queue current_text total_inserts
scratch-edits =
    play-edits (scratch ++ "doc.txt" ∷ []) trace (started scratch) scratch-Tracks trace-Applies
      trace-inserts

latencies-Ranked :
    (o : Option ℕ) × (percentile (3 ∷ 5 ∷ 8 ∷ []) 2 ≡ some o) × Ranked (3 ∷ 5 ∷ 8 ∷ []) o
latencies-Ranked = percentile-Ranked (3 ∷ 5 ∷ 8 ∷ []) 2

abbrev from_third : ℕ → Bool
from_third attempt = leb 2 attempt

from_third-first :
    (k : ℕ) × (emit_until from_third 4 0 ≡ some (0 + k))
    × (k ≤ 3)
    × (from_third (0 + k) ≡ true)
    × All (λ i. from_third i ≡ false) (attempts 0 k)
from_third-first = emit_until-first from_third 3 0 refl

-- A file below a sub-directory, and one beside it.
abbrev notes : Listing
notes = entries (
    sub_dir ("p" ∷ "sub" ∷ [])
      (entries (sub_file ("p" ∷ "sub" ∷ "note" ∷ []) (inr (104 ∷ 10 ∷ [])) done))
      (sub_file ("p" ∷ "top" ∷ []) (inr (105 ∷ [])) done))

notes-loaded : Loads notes 4 (first_error notes) (new_directory ("p" ∷ []) notes 4)
unfolding size entries_size
notes-loaded = new_directory-loaded ("p" ∷ []) notes 4 (omega arith)
