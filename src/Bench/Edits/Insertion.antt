-- ===== src/Bench/Edits/Insertion.antt =====
-- bench.rs, `insert_char`: one character through the queue, and the same in the mirror.
use shario.Prelude.{
  ℕ, suc, ◌+◌, ◌%◌, ◌^◌, ◌≤◌, ◌<◌, none, some, List, [], ◌∷◌, ◌++◌, ◌≡◌, Identity, length,
  insert_at, refl, sym, ap, ◌∙◌, arith, subst,
}
use shario.Types.{PathBuf, Crdt, ok}
use shario.Tree.Insert
use shario.Tree.Load.RoundTrip.{text}
use shario.Tree.Youngest.{Fresh, Grown, add_crdt-Grown}
use shario.Tree.Directory
use shario.Tree.Directory.{SharDirectory, find_file}
use shario.Tree.Directory.Routed.{edits-routed}
use shario.Queue.State.{SharQueue, ide_added}
use shario.Queue.Ide
use shario.Queue.Quiet.{quiet, next_crdt, registered, add_ide_operation-quiet}
use shario.Bench.{
  Bench, Line, current_text, place_char, observed, new_char, unlogged, insert_at_place, insert_char,
}
use shario.Bench.Mirror.{nodes, ids, locate-Spot, Spot}
use shario.Bench.Places.{Around, Spot-Around, Spot-row}
use shario.Bench.Tracks.{Tracks, ids-append, length-ids}
use shario.Bench.Edits.{Edited, tail, values-grown, text-nodes, document_around, in_text}

module _ (path : PathBuf) (b : Bench) (t : Tracks path b) where
  module _ (offset value : ℕ) {row col : ℕ} (s : Spot b.lines offset row col)
      (small : b.queue.counter + 1 < 2 ^ 32) where
    around : Around b.lines offset s.line row col
    around = Spot-Around s

    q : SharQueue
    q = unlogged b.queue

    crdt : Crdt
    unfolding q around
    crdt = next_crdt q value around.parent.0

    next_id : (b.queue.counter + 1) % 2 ^ 32 ≡ b.queue.counter + 1
    next_id = omega arith

    grown :
        Grown t.file crdt (ids around.before) (ids around.after) (Insert.add_crdt t.file row crdt)
    unfolding crdt around q
    grown =
        add_crdt-Grown t.file row crdt (ids around.before) (ids around.after) b.queue.counter
          t.well_formed
          (document_around path b t around.before around.parent around.after around.parts) t.fresh
          next_id refl

    tree : SharDirectory
    unfolding crdt q
    tree = (Directory.add_crdt q.tree path row crdt).0

    runs : Directory.add_crdt q.tree path row crdt ≡ (tree, ok (some grown.pos))
    unfolding crdt q tree
    runs =
        ap (λ r. (tree, r))
          (((edits-routed b.queue.tree path t.file t.back t.found).0 row crdt).1 ∙ grown.result)

    id' : Identity
    unfolding crdt q
    id' = ((b.queue.counter + 1) % 2 ^ 32, b.queue.peer)

    queues :
        (after : SharQueue) × (Ide.add_ide_operation q
            (new_char path around.parent.0 value b.next_tag row)
          ≡ some after)
        × (observed b.confirmed after.calls ≡ some id')
        × (quiet after ≡ after)
        × (after.tree ≡ tree)
        × (after.counter ≡ (b.queue.counter + 1) % 2 ^ 32)
    unfolding q tree id' crdt observed
    queues =
        let (c, c', ran, made) =
          add_ide_operation-quiet (unlogged b.queue) path around.parent.0 value b.next_tag row tree
            grown.pos runs in
        (
          quiet (record (registered (unlogged b.queue) b.next_tag) {
            tree = tree;
            calls = (registered (unlogged b.queue) b.next_tag).calls ++ ide_added c c' ∷ [];
          }),
          ap
                (λ p.
                  Ide.add_ide_operation (unlogged p)
                    (new_char path around.parent.0 value b.next_tag row))
                (sym t.at_rest)
              ∙ ran,
          refl,
          refl,
          refl,
          refl,
        )

    mirror :
        (lines' : List Line) × (place_char b.lines row s.line col id' value ≡ some lines')
        × (nodes lines' ≡ around.before ++ around.parent ∷ (id', value) ∷ around.after)
    mirror = around.placed id' value

    at_offset : length around.before ≡ offset
    at_offset = around.at

    inserted_bench : Bench
    inserted_bench = record {
      queue = queues.0;
      lines = mirror.0;
      next_tag = (b.next_tag + 1) % 2 ^ 32;
      confirmed = none;
    }

    inserted_place : insert_at_place path value b row col s.line ≡ some inserted_bench
    unfolding insert_at_place inserted_bench q
    inserted_place = rw (around.parent_is, queues.1, queues.2, mirror.1) refl

    inserted_reads : current_text mirror.0 ≡ insert_at offset value (current_text b.lines)
    inserted_reads =
        ap tail (
          text-nodes mirror.0 around.before around.parent ((id', value) ∷ around.after) mirror.2
          ∙ values-grown around.before around.parent (id', value) around.after
          ∙ ap (insert_at (suc (length around.before)) value)
              (sym (text-nodes b.lines around.before around.parent around.after around.parts)))
        ∙ ap (λ n. insert_at n value (current_text b.lines)) at_offset

    inserted_shown : text (Insert.add_crdt t.file row crdt).0 ≡ 0 ∷ current_text mirror.0
    unfolding crdt
    inserted_shown =
        let at : length (ids around.before) + 1 ≡ suc offset =
          omega (arith, length-ids around.before, at_offset) in
        grown.shown
        ∙ ap (λ n. insert_at n value (text t.file)) at
        ∙ ap (insert_at (suc offset) value) t.shown
        ∙ ap (◌∷◌ 0) (sym inserted_reads)

    inserted-Tracks : Tracks path inserted_bench
    unfolding inserted_bench crdt tree id' q
    inserted-Tracks = record {
      file = (Insert.add_crdt t.file row crdt).0;
      back = t.back;
      at_rest = queues.3;
      found =
          ap (λ d. find_file d path) queues.4
          ∙ ((edits-routed b.queue.tree path t.file t.back t.found).0 row crdt).0;
      well_formed = grown.well_formed;
      mirrors =
          ap ids mirror.2
          ∙ ids-append around.before (around.parent ∷ (id', value) ∷ around.after)
          ∙ sym grown.grown;
      shown = inserted_shown;
      fresh = subst (Fresh (Insert.add_crdt t.file row crdt).0) (sym queues.5) grown.fresh;
    }

  -- A character is typed at an offset up to the end of the text.
  pub insert_char-edits :
      (offset value : ℕ)
      → offset ≤ length (current_text b.lines)
      → b.queue.counter + 1 < 2 ^ 32
      → Edited path
          (insert_char path offset value b)
          (insert_at offset value (current_text b.lines))
          (b.queue.counter + 1)
  unfolding insert_char inserted_bench
  insert_char-edits offset value le small =
      let (row, col, found, s) = locate-Spot b.lines offset (in_text path b t offset le) in
      record {
        bench = inserted_bench offset value s small;
        ends = rw (found, Spot-row s) (inserted_place offset value s small);
        tracks = inserted-Tracks offset value s small;
        reads = inserted_reads offset value s small;
        counts = (queues offset value s small).5 ∙ next_id offset value s small;
      }
