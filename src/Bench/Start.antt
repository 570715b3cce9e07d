-- ===== src/Bench/Start.antt =====
-- bench.rs, `run`: from the empty file in the scratch directory to the check of the text.
use shario.Prelude.{
  ℕ, ◌+◌, ◌^◌, ◌<◌, true, none, some, List, [], ◌∷◌, ◌++◌, ◌≡◌, String, length, refl, sym, ap, ◌∙◌,
  arith, subst, string_eq, ◌↔◌, concat, same_iff, same,
}
use shario.Types.{PathBuf, ok}
use shario.Tree.File.{SharFile, root as file_root}
use shario.HashMap
use shario.Tree.Document.{IsWellFormed}
use shario.Tree.Load.{seeded, new_file, add_file, load_chars}
use shario.Tree.Load.RoundTrip.{seeded-IsWellFormed, text}
use shario.Tree.Directory.{
  SharDirectory, directory, nil, find_file, find_in, route, find_sub_file, file_name, after_name,
  ends_with,
}
use shario.Tree.Directory.Load.{new_directory, load_entries}
use shario.Queue.State.{new_queue, open_queue}
use shario.Bench.{
  Bench, Patch, current_text, play, start, same_text, passes, total_inserts, total_deletes,
}
use shario.Bench.Tracks.{Tracks}
use shario.Bench.Patches.{replayed, Applies, length-replayed, same_text_iff}
use shario.Bench.Replay.{play-edits}

-- The loaded scratch directory.
after_name-append :
    (name : String) (path rest more : PathBuf)
    → after_name name path ≡ some rest
    → after_name name (path ++ more) ≡ some (rest ++ more)
unfolding after_name
after_name-append name [] rest more e = cc
after_name-append name (c ∷ cs) rest more e = ground (arith, after_name-append name cs rest more)

ends_with-last : (path : PathBuf) (c : String) → ends_with (path ++ c ∷ []) c ≡ true
unfolding ends_with
ends_with-last [] c = (string_eq.beq_iff c c).1 refl
ends_with-last (x ∷ []) c = (string_eq.beq_iff c c).1 refl
ends_with-last (x ∷ y ∷ path) c = ends_with-last (y ∷ path) c

abbrev pub doc_path : PathBuf → PathBuf
doc_path scratch_dir = scratch_dir ++ "doc.txt" ∷ []

unfoldable pub started : PathBuf → Bench
started scratch_dir = record {
  queue = new_queue (directory scratch_dir nil (seeded (doc_path scratch_dir) ∷ [])) 0 0;
  lines = record { anchor_id = 0; anchor_peer = 0; cells = [] } ∷ [];
  next_tag = 0;
  confirmed = none;
}

start-ok : (scratch_dir : PathBuf) → start scratch_dir ≡ ok (started scratch_dir)
unfolding start started open_queue new_directory load_entries new_file add_file load_chars
start-ok scratch_dir = refl

pub find-doc :
    (scratch_dir : PathBuf) (name : String)
    → file_name scratch_dir ≡ some name
    → after_name name scratch_dir ≡ some []
    → find_file
        (directory scratch_dir nil (seeded (doc_path scratch_dir) ∷ []))
        (doc_path scratch_dir)
      ≡ some (seeded (doc_path scratch_dir), λ g. directory scratch_dir nil (g ∷ []))
unfolding find_file find_in route find_sub_file
find-doc scratch_dir name named last =
    rw
      (
        named,
        after_name-append name scratch_dir [] ("doc.txt" ∷ []) last,
        ends_with-last scratch_dir "doc.txt",
      )
      refl

pub started-Tracks :
    (scratch_dir : PathBuf) (name : String)
    → file_name scratch_dir ≡ some name
    → after_name name scratch_dir ≡ some []
    → Tracks (doc_path scratch_dir) (started scratch_dir)
unfolding started new_queue current_text HashMap.get same
started-Tracks scratch_dir name named last = record {
  file = seeded (doc_path scratch_dir);
  back = λ g. directory scratch_dir nil (g ∷ []);
  at_rest = refl;
  found = find-doc scratch_dir name named last;
  well_formed = seeded-IsWellFormed (doc_path scratch_dir);
  mirrors = refl;
  shown = refl;
  fresh = λ k lt. ground (arith, same_iff file_root k);
}

-- What a run leaves: the file under the path is well-formed and has the text that the patches describe, as
-- long as inserts and deletes say, and `run` reports a pass for that text and no other.
pub record Replayed (path : PathBuf) (patches : List Patch) (b : Bench) : Type 0 where
  pub file : SharFile
  pub back : SharFile → SharDirectory
  pub found : find_file b.queue.tree path ≡ some (file, back)
  pub well_formed : IsWellFormed file
  pub shown : text file ≡ 0 ∷ replayed patches []
  pub size : length (current_text b.lines) + total_deletes patches ≡ total_inserts patches
  pub reports :
      (end_content : List ℕ) → (passes b end_content ≡ true) ↔ (replayed patches [] ≡ end_content)

replayed_lem :
    (path : PathBuf) (patches : List Patch) (b : Bench)
    → Applies patches []
    → Tracks path b
    → current_text b.lines ≡ replayed patches []
    → Replayed path patches b
unfolding passes
replayed_lem path patches b fits t reads = record {
  file = t.file;
  back = t.back;
  found = t.found;
  well_formed = t.well_formed;
  shown = t.shown ∙ ap (◌∷◌ 0) reads;
  size = omega (arith, ap length reads, length-replayed patches [] fits);
  reports = λ end_content.
      subst (λ d. (same_text d end_content ≡ true) ↔ (replayed patches [] ≡ end_content))
        (sym reads) (same_text_iff (replayed patches []) end_content);
}

-- `run` from the scratch directory, whose name is its last component and no earlier one: the queue
-- opens, and a trace whose patches each lie in the text that they meet and that inserts fewer than 2^32
-- characters plays to its end without a panic. The file under the path is then well formed and has the
-- text that the patches describe, as long as the insertions less the deletions, and the check of the
-- text passes for that text only.
pub start-replays :
    (scratch_dir : PathBuf) (name : String) (trace : List (List Patch))
    → file_name scratch_dir ≡ some name
    → after_name name scratch_dir ≡ some []
    → Applies (concat trace) []
    → total_inserts (concat trace) < 2 ^ 32
    → (b : Bench) × (b' : Bench) × (start scratch_dir ≡ ok b)
      × (play (scratch_dir ++ "doc.txt" ∷ []) trace b ≡ some b')
      × Replayed (scratch_dir ++ "doc.txt" ∷ []) (concat trace) b'
unfolding started new_queue current_text
start-replays scratch_dir name trace named last fits small =
    let e =
      play-edits (doc_path scratch_dir) trace (started scratch_dir)
        (started-Tracks scratch_dir name named last) fits (omega (arith, small)) in
    (
      started scratch_dir,
      e.bench,
      start-ok scratch_dir,
      e.ends,
      replayed_lem (doc_path scratch_dir) (concat trace) e.bench fits e.tracks e.reads,
    )
