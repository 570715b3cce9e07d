-- ===== src/Bench/Replay.antt =====
-- bench.rs, the loops of `run`: each patch edits the file and the mirror as it describes.
use shario.Prelude.{
  take-of_append, drop-of_append, ℕ, zero, suc, ◌+◌, ◌^◌, ◌≤◌, ◌<◌, Option, some, List, [], ◌∷◌,
  ◌++◌, ◌≡◌, length, insert_at, take, drop, refl, sym, ap, ◌∙◌, arith, subst, length-append,
  string_eq, concat, take-append-drop,
}
use shario.Types.{PathBuf}
use shario.Queue.State.{◌>>=◌, bind_ext, bind_assoc}
use shario.Bench.{
  Bench, Patch, current_text, remove_chars, insert_chars, apply_patch, apply_patches, play,
  same_text, total_inserts,
}
use shario.Bench.Tracks.{Tracks}
use shario.Bench.Edits.{Edited}
use shario.Bench.Edits.Insertion.{insert_char-edits}
use shario.Bench.Edits.Removal.{remove_char-edits}
use shario.Bench.Patches.{
  patched, replayed, Applies, length-take, length-insert_at, length-remove_at, take-drop-insert_at,
  take-drop-remove_at,
}

-- A step behind an edit.
Edited-then :
    {path : PathBuf} {out : Option Bench} {next : Bench → Option Bench} {text' text'' : List ℕ}
    {counter' counter'' : ℕ}
    → Edited path out text' counter'
    → ((b : Bench)
        → Tracks path b
        → current_text b.lines ≡ text'
        → b.queue.counter ≡ counter'
        → Edited path (next b) text'' counter'')
    → Edited path (out >>= next) text'' counter''
Edited-then {path} {out} {next} {text''} {counter''} e continues =
    subst (λ o. Edited path (o >>= next) text'' counter'') (sym e.ends)
      (continues e.bench e.tracks e.reads e.counts)

unchanged :
    {path : PathBuf} (b : Bench)
    → Tracks path b
    → Edited path (some b) (current_text b.lines) b.queue.counter
unchanged b t = record { bench = b; ends = refl; tracks = t; reads = refl; counts = refl }

as-Edited :
    {path : PathBuf} {out : Option Bench} {text' text'' : List ℕ} {counter' counter'' : ℕ}
    → text' ≡ text''
    → counter' ≡ counter''
    → Edited path out text' counter'
    → Edited path out text'' counter''
as-Edited same_text same_counter e = record {
  bench = e.bench;
  ends = e.ends;
  tracks = e.tracks;
  reads = e.reads ∙ same_text;
  counts = e.counts ∙ same_counter;
}

add_zero : (n : ℕ) → n + 0 ≡ n
add_zero n = omega arith

module _ (path : PathBuf) where
  insert_chars-edits :
      (pos : ℕ) (chars : List ℕ) (b : Bench)
      → Tracks path b
      → pos ≤ length (current_text b.lines)
      → b.queue.counter + length chars < 2 ^ 32
      → Edited path
          (insert_chars path pos chars b)
          (take pos (current_text b.lines) ++ (chars ++ drop pos (current_text b.lines)))
          (b.queue.counter + length chars)
  unfolding insert_chars
  insert_chars-edits pos [] b t le small =
      as-Edited (sym (take-append-drop pos (current_text b.lines))) (sym (add_zero b.queue.counter))
        (unchanged b t)
  insert_chars-edits pos (c ∷ cs) b t le small =
      Edited-then (insert_char-edits path b t pos c le (omega (arith, small))) λ b' t' reads counts.
        let size : length (current_text b'.lines) ≡ suc (length (current_text b.lines)) =
          ap length reads ∙ length-insert_at pos c (current_text b.lines) in
        let next : pos + 1 ≡ suc pos = omega arith in
        as-Edited
          (ap (λ d. take (pos + 1) d ++ (cs ++ drop (pos + 1) d)) reads
            ∙ ap
                (λ m.
                  take m (insert_at pos c (current_text b.lines))
                  ++ (cs ++ drop m (insert_at pos c (current_text b.lines))))
                next
            ∙ take-drop-insert_at pos c cs (current_text b.lines) le)
          (omega (arith, counts))
          (insert_chars-edits (pos + 1) cs b' t' (omega (arith, size, le))
            (omega (arith, counts, small)))

  remove_chars-edits :
      (pos del_count : ℕ) (b : Bench)
      → Tracks path b
      → pos + del_count ≤ length (current_text b.lines)
      → Edited path
          (remove_chars path pos del_count b)
          (take pos (current_text b.lines) ++ drop (pos + del_count) (current_text b.lines))
          b.queue.counter
  unfolding remove_chars
  remove_chars-edits pos zero b t le =
      as-Edited
        (sym (take-append-drop pos (current_text b.lines))
          ∙ ap (λ m. take pos (current_text b.lines) ++ drop m (current_text b.lines))
              (sym (add_zero pos)))
        refl (unchanged b t)
  remove_chars-edits pos (suc n) b t le =
      Edited-then (remove_char-edits path b t pos (omega (arith, le))) λ b' t' reads counts.
        let size : suc (length (current_text b'.lines)) ≡ length (current_text b.lines) =
          ap (λ d. suc (length d)) reads
          ∙ length-remove_at pos (current_text b.lines) (omega (arith, le)) in
        as-Edited
          (ap (λ d. take pos d ++ drop (pos + n) d) reads
            ∙ take-drop-remove_at pos n (current_text b.lines) (omega (arith, le)))
          counts (remove_chars-edits pos n b' t' (omega (arith, size, le)))

  apply_patch-edits :
      (p : Patch) (b : Bench)
      → Tracks path b
      → p.pos + p.del_count ≤ length (current_text b.lines)
      → b.queue.counter + length p.inserted < 2 ^ 32
      → Edited path
          (apply_patch path p b)
          (patched p (current_text b.lines))
          (b.queue.counter + length p.inserted)
  unfolding apply_patch
  apply_patch-edits p b t le small =
      Edited-then (remove_chars-edits p.pos p.del_count b t le) λ b' t' reads counts.
        let kept : List ℕ = take p.pos (current_text b.lines) in
        let rest : List ℕ = drop (p.pos + p.del_count) (current_text b.lines) in
        let at : length kept ≡ p.pos =
          length-take p.pos (current_text b.lines) (omega (arith, le)) in
        let size : length (current_text b'.lines) ≡ length kept + length rest =
          ap length reads ∙ length-append kept rest in
        as-Edited
          (ap (λ d. take p.pos d ++ (p.inserted ++ drop p.pos d)) reads
            ∙ ap (λ m. take m (kept ++ rest) ++ (p.inserted ++ drop m (kept ++ rest))) (sym at)
            ∙ ap (λ d. d ++ (p.inserted ++ drop (length kept) (kept ++ rest)))
                (take-of_append kept rest)
            ∙ ap (λ d. kept ++ (p.inserted ++ d)) (drop-of_append kept rest))
          (ap (λ n. n + length p.inserted) counts)
          (insert_chars-edits p.pos p.inserted b' t' (omega (arith, at, size))
            (omega (arith, counts, small)))

  apply_patches-edits :
      (patches : List Patch) (b : Bench)
      → Tracks path b
      → Applies patches (current_text b.lines)
      → b.queue.counter + total_inserts patches < 2 ^ 32
      → Edited path
          (apply_patches path patches b)
          (replayed patches (current_text b.lines))
          (b.queue.counter + total_inserts patches)
  unfolding apply_patches total_inserts
  apply_patches-edits [] b t fits small =
      as-Edited refl (sym (add_zero b.queue.counter)) (unchanged b t)
  apply_patches-edits (p ∷ patches) b t (le, fits) small =
      Edited-then (apply_patch-edits p b t le (omega (arith, small))) λ b' t' reads counts.
        as-Edited (ap (replayed patches) reads) (omega (arith, counts)) (
          apply_patches-edits patches b' t' (subst (Applies patches) (sym reads) fits)
            (omega (arith, counts, small)))

  apply_patches-append :
      (xs ys : List Patch) (b : Bench)
      → apply_patches path (xs ++ ys) b
        ≡ (apply_patches path xs b >>= λ b'. apply_patches path ys b')
  unfolding apply_patches
  apply_patches-append [] ys b = refl
  apply_patches-append (p ∷ xs) ys b =
      bind_ext (apply_patch path p b) _ _ (λ b'. apply_patches-append xs ys b')
      ∙ bind_assoc (apply_patch path p b) _ _

  play-concat :
      (trace : List (List Patch)) (b : Bench)
      → play path trace b ≡ apply_patches path (concat trace) b
  unfolding play apply_patches
  play-concat [] b = refl
  play-concat (txn ∷ txns) b =
      bind_ext (apply_patches path txn b) _ _ (λ b'. play-concat txns b')
      ∙ sym (apply_patches-append txn (concat txns) b)

  -- From a queue at rest, a mirror and a file that are in step, as `Tracks` says, a trace whose patches
  -- each lie in the text that they meet plays to its end, with no panic, while the counter stays in a
  -- u32. The mirror then reads what the patches describe, the counter has grown by the number of
  -- insertions, and `Tracks` holds again: the file in the queue's tree is well formed, has the mirror's
  -- identities in its order, its text is the mirror's, and no id above the counter is taken.
  pub play-edits :
      (trace : List (List Patch)) (b : Bench)
      → Tracks path b
      → Applies (concat trace) (current_text b.lines)
      → b.queue.counter + total_inserts (concat trace) < 2 ^ 32
      → Edited path
          (play path trace b)
          (replayed (concat trace) (current_text b.lines))
          (b.queue.counter + total_inserts (concat trace))
  play-edits trace b t fits small =
      subst
        (λ o.
          Edited path o (replayed (concat trace) (current_text b.lines))
            (b.queue.counter + total_inserts (concat trace)))
        (sym (play-concat trace b)) (apply_patches-edits (concat trace) b t fits small)
