-- ===== src/Bench/Edits/Removal.antt =====
-- bench.rs, `remove_char`: one removal through the queue, and the same in the mirror.
use shario.Prelude.{
  ℕ, suc, ◌<◌, false, some, List, [], ◌∷◌, ◌++◌, ◌≡◌, Identity, length, remove_at, refl, sym, ap,
  ◌∙◌, arith, subst, length-append, append_assoc, same, same_iff, Bool-cases, inl, inr,
  if◌then◌else◌,
}
use shario.Types.{PathBuf, Remove, ok}
use shario.Tree.File.{root}
use shario.Tree.Document.{document, count, count-append, live_count}
use shario.Tree.Delete
use shario.Tree.Load.RoundTrip.{text}
use shario.Tree.Youngest.{Fresh, Shrunk, remove_crdt-Shrunk}
use shario.Tree.Directory
use shario.Tree.Directory.{SharDirectory, find_file}
use shario.Tree.Directory.Routed.{edits-routed}
use shario.Queue.State.{SharQueue, ide_removed}
use shario.Queue.Network
use shario.Queue.Network.{target, sentinel}
use shario.Queue.Quiet.{quiet, remove_ide_operation-quiet}
use shario.Bench.{
  Bench, Line, current_text, unplace_char, observed, unlogged, remove_at_place, remove_char,
}
use shario.Bench.Mirror.{Node, nodes, ids, values, locate-Spot, Spot}
use shario.Bench.Places.{Around, Spot-Around, Spot-row}
use shario.Bench.Tracks.{Tracks, ids-append, length-ids, starts, length-nodes}
use shario.Bench.Edits.{Edited, tail, values-shrunk, text-nodes, document_around, in_text}

counted_first : (k y : Identity) (ys : List Identity) → y ≡ k → 0 < count k (y ∷ ys)
counted_first k y ys e = omega (arith, ap {B = ℕ} (λ c. if c then 1 else 0) ((same_iff y k).1 e))

headed :
    (front : List Identity) (x : Identity) (back rest : List Identity)
    → (front ++ x ∷ []) ++ back ≡ root ∷ rest
    → 0 < count root (front ++ x ∷ [])
headed [] x back rest e = counted_first root x [] cc
headed (y ∷ ys) x back rest e = counted_first root y (ys ++ x ∷ []) cc

module _ (path : PathBuf) (b : Bench) (t : Tracks path b) where
  -- The sentinel stands first, and no second time.
  not_root :
      (front : List Identity) (x k : Identity) (back : List Identity)
      → document t.file ≡ (front ++ x ∷ []) ++ k ∷ back
      → same k root ≡ false
  not_root front x k back whole = elim (Bool-cases (same k root)) [
    | inr other ↦ other
    | inl is_root ↦ absurd (
        omega (
          arith,
          headed front x (k ∷ back) _ (sym whole ∙ (starts path b t).1),
          ap (count root) whole,
          count-append root (front ++ x ∷ []) (k ∷ back),
          once,
          ap {B = ℕ} (λ c. if c then 1 else 0) is_root,
        ))
  ]
    where
      once : count root (document t.file) ≡ 1
      once = t.well_formed.counts root ∙ ap live_count t.well_formed.sentinel

  module _ (offset : ℕ) {row col : ℕ} (s : Spot b.lines offset row col) (n : Node)
      (rest : List Node) (behind : (Spot-Around s).after ≡ n ∷ rest) where
    ar : Around b.lines offset s.line row col
    ar = Spot-Around s

    gone :
        (lines' : List Line) × (hint : ℕ) × (unplace_char b.lines row s.line col
          ≡ some (lines', n.0, hint))
        × (nodes lines' ≡ (ar.before ++ ar.parent ∷ []) ++ rest)
    unfolding ar
    gone = ar.unplaced n rest behind

    parted : nodes b.lines ≡ ar.before ++ ar.parent ∷ n ∷ rest
    unfolding ar
    parted = ar.parts ∙ ap (λ xs. ar.before ++ ar.parent ∷ xs) behind

    whole : document t.file ≡ (ids ar.before ++ ar.parent.0 ∷ []) ++ n.0 ∷ ids rest
    whole =
        document_around path b t ar.before ar.parent (n ∷ rest) parted
        ∙ sym (append_assoc (ids ar.before) (ar.parent.0 ∷ []) (n.0 ∷ ids rest))

    other : same n.0 root ≡ false
    other = not_root (ids ar.before) ar.parent.0 n.0 (ids rest) whole

    shrunk :
        Shrunk t.file b.queue.counter
          (ids ar.before ++ ar.parent.0 ∷ [])
          (ids rest)
          (Delete.remove_crdt t.file gone.1 n.0)
    shrunk =
        remove_crdt-Shrunk t.file gone.1 n.0 (ids ar.before ++ ar.parent.0 ∷ []) (ids rest)
          b.queue.counter t.well_formed (λ e. cc (other, (same_iff n.0 root).1 e)) whole t.fresh

    op : Remove
    op = record { file_path = path; id = n.0.0; peer = n.0.1; row = gone.1 }

    tree' : SharDirectory
    tree' = (Directory.remove_crdt b.queue.tree path gone.1 n.0).0

    removes : Directory.remove_crdt b.queue.tree path gone.1 n.0 ≡ (tree', ok (some shrunk.pos))
    unfolding tree'
    removes =
        ap (λ r. (tree', r))
          (((edits-routed b.queue.tree path t.file t.back t.found).1 gone.1 n.0).1 ∙ shrunk.result)

    queue' :
        (after : SharQueue) × (Network.remove_ide_operation (unlogged b.queue) op ≡ some after)
        × (quiet after ≡ after)
        × (after.tree ≡ tree')
        × (after.counter ≡ b.queue.counter)
    unfolding op
    queue' =
        let (c, ran, made) =
          remove_ide_operation-quiet (unlogged b.queue) op tree' shrunk.pos other removes in
        (
          quiet (record (unlogged b.queue) {
            tree = tree';
            calls = (unlogged b.queue).calls ++ ide_removed c ∷ [];
          }),
          ap (λ p. Network.remove_ide_operation (unlogged p) op) (sym t.at_rest) ∙ ran,
          refl,
          refl,
          refl,
        )

    removed_bench : Bench
    removed_bench = record b {
      queue = queue'.0;
      lines = gone.0;
      confirmed = observed b.confirmed queue'.0.calls;
    }

    removed_place : remove_at_place path b row col s.line ≡ some removed_bench
    unfolding remove_at_place removed_bench op
    removed_place = rw (gone.2, queue'.1) refl

    removed_reads : current_text gone.0 ≡ remove_at offset (current_text b.lines)
    unfolding ar
    removed_reads =
        let drops = text-nodes b.lines ar.before ar.parent (n ∷ rest) parted in
        ap tail (
          text-nodes gone.0 ar.before ar.parent rest
            (gone.3 ∙ append_assoc ar.before (ar.parent ∷ []) rest)
          ∙ ap values (sym (append_assoc ar.before (ar.parent ∷ []) rest))
          ∙ values-shrunk ar.before ar.parent n rest
          ∙ ap (remove_at (suc (length ar.before))) (sym drops))
        ∙ ap (λ i. remove_at i (current_text b.lines)) ar.at

    removed_shown : text (Delete.remove_crdt t.file gone.1 n.0).0 ≡ 0 ∷ current_text gone.0
    unfolding ar
    removed_shown =
        let at : length (ids ar.before ++ ar.parent.0 ∷ []) ≡ suc offset =
          omega (
            arith,
            length-append (ids ar.before) (ar.parent.0 ∷ []),
            length-ids ar.before,
            ar.at,
          ) in
        shrunk.shown
        ∙ ap (λ i. remove_at i (text t.file)) at
        ∙ ap (remove_at (suc offset)) t.shown
        ∙ ap (◌∷◌ 0) (sym removed_reads)

    removed-Tracks : Tracks path removed_bench
    unfolding removed_bench tree'
    removed-Tracks = record {
      file = (Delete.remove_crdt t.file gone.1 n.0).0;
      back = t.back;
      at_rest = queue'.2;
      found =
          ap (λ d. find_file d path) queue'.3
          ∙ ((edits-routed b.queue.tree path t.file t.back t.found).1 gone.1 n.0).0;
      well_formed = shrunk.well_formed;
      mirrors =
          ap ids gone.3
          ∙ ids-append (ar.before ++ ar.parent ∷ []) rest
          ∙ ap (λ xs. xs ++ ids rest) (ids-append ar.before (ar.parent ∷ []))
          ∙ sym shrunk.shrunk;
      shown = removed_shown;
      fresh = subst (Fresh (Delete.remove_crdt t.file gone.1 n.0).0) (sym queue'.4) shrunk.fresh;
    }

  followed :
      {offset row col : ℕ} (s : Spot b.lines offset row col)
      → offset < length (current_text b.lines)
      → (n : Node) × (rest : List Node) × ((Spot-Around s).after ≡ n ∷ rest)
  followed {offset} s lt = by_after (Spot-Around s).after refl
    where
      by_after :
          (xs : List Node)
          → (Spot-Around s).after ≡ xs
          → (n : Node) × (rest : List Node) × ((Spot-Around s).after ≡ n ∷ rest)
      by_after [] e = absurd (
          omega (
            arith,
            lt,
            length-nodes path b t,
            ap length (Spot-Around s).parts,
            length-append (Spot-Around s).before ((Spot-Around s).parent ∷ (Spot-Around s).after),
            ap length e,
            (Spot-Around s).at,
          ))
      by_after (n ∷ rest) e = (n, rest, e)

  -- A character of the text is removed.
  pub remove_char-edits :
      (offset : ℕ)
      → offset < length (current_text b.lines)
      → Edited path
          (remove_char path offset b)
          (remove_at offset (current_text b.lines))
          b.queue.counter
  unfolding remove_char removed_bench
  remove_char-edits offset lt =
      let (row, col, found, s) =
        locate-Spot b.lines offset (in_text path b t offset (omega (arith, lt))) in
      let (n, rest, behind) = followed s lt in
      record {
        bench = removed_bench offset s n rest behind;
        ends = rw (found, Spot-row s) (removed_place offset s n rest behind);
        tracks = removed-Tracks offset s n rest behind;
        reads = removed_reads offset s n rest behind;
        counts = (queue' offset s n rest behind).4;
      }
