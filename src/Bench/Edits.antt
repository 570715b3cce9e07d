-- ===== src/Bench/Edits.antt =====
-- bench.rs, `insert_char` and `remove_char`: what an edit leaves, and what both edits need.
pub mod Insertion
pub mod Removal
use shario.Prelude.{
  ℕ, suc, ◌+◌, ◌%◌, ◌^◌, ◌≤◌, ◌<◌, false, Option, none, some, List, [], ◌∷◌, ◌++◌, ◌≡◌, Identity,
  length, insert_at, remove_at, refl, sym, ap, ◌∙◌, arith, subst, length-append, append_assoc, same,
  same_iff, Bool-cases, inl, inr, if◌then◌else◌,
}
use shario.Types.{PathBuf, Crdt, Remove, ok}
use shario.Tree.File.{root}
use shario.Tree.Document.{document, count, count-append, live_count}
use shario.Tree.Insert
use shario.Tree.Delete
use shario.Tree.Load.RoundTrip.{text}
use shario.Tree.Youngest.{Fresh, Grown, add_crdt-Grown, Shrunk, remove_crdt-Shrunk}
use shario.Tree.Directory
use shario.Tree.Directory.{SharDirectory, find_file}
use shario.Tree.Directory.Routed.{edits-routed}
use shario.Queue.State.{SharQueue, ide_added, ide_removed}
use shario.Queue.Ide
use shario.Queue.Network
use shario.Queue.Network.{target, sentinel}
use shario.Queue.Quiet.{
  quiet, next_crdt, registered, add_ide_operation-quiet, remove_ide_operation-quiet,
}
use shario.Bench.{
  Bench, Line, current_text, place_char, unplace_char, observed, new_char, unlogged,
  insert_at_place, insert_char, remove_at_place, remove_char,
}
use shario.Bench.Mirror.{Node, nodes, ids, values, locate-Spot, Spot}
use shario.Bench.Places.{Around, Spot-Around, Spot-row}
use shario.Bench.Tracks.{Tracks, ids-append, length-ids, values-text, starts, length-nodes}

-- An edit that ends, with the text and the counter that it leaves.
pub record Edited (path : PathBuf) (out : Option Bench) (text' : List ℕ) (counter' : ℕ)
    : Type 0 where
  pub bench : Bench
  pub ends : out ≡ some bench
  pub tracks : Tracks path bench
  pub reads : current_text bench.lines ≡ text'
  pub counts : bench.queue.counter ≡ counter'

abbrev pub tail : List ℕ → List ℕ
tail [] = []
tail (x ∷ xs) = xs

pub values-grown :
    (before : List Node) (p n : Node) (after : List Node)
    → values (before ++ p ∷ n ∷ after)
      ≡ insert_at (suc (length before)) n.1 (values (before ++ p ∷ after))
values-grown [] p n after = refl
values-grown (x ∷ xs) p n after = ap (◌∷◌ x.1) (values-grown xs p n after)

pub values-shrunk :
    (before : List Node) (p n : Node) (after : List Node)
    → values ((before ++ p ∷ []) ++ after)
      ≡ remove_at (suc (length before)) (values (before ++ p ∷ n ∷ after))
values-shrunk [] p n after = refl
values-shrunk (x ∷ xs) p n after = ap (◌∷◌ x.1) (values-shrunk xs p n after)

-- A mirror whose nodes stand around a place.
inhabited :
    {A : Type 0} (xs : List A) (y : A) (ys : List A)
    → (n : A) × (ns : List A) × (xs ++ y ∷ ys ≡ n ∷ ns)
inhabited [] y ys = (y, ys, refl)
inhabited (x ∷ xs) y ys = (x, xs ++ y ∷ ys, refl)

pub text-nodes :
    (lines : List Line) (before : List Node) (p : Node) (after : List Node)
    → nodes lines ≡ before ++ p ∷ after
    → 10 ∷ current_text lines ≡ values (before ++ p ∷ after)
text-nodes lines before p after e =
    let (n, ns, starts) = inhabited before p after in
    values-text lines n ns (e ∙ starts) ∙ ap values e

module _ (path : PathBuf) (b : Bench) (t : Tracks path b) where
  pub document_around :
      (before : List Node) (p : Node) (after : List Node)
      → nodes b.lines ≡ before ++ p ∷ after
      → document t.file ≡ ids before ++ p.0 ∷ ids after
  document_around before p after e = sym t.mirrors ∙ ap ids e ∙ ids-append before (p ∷ after)

  pub in_text :
      (offset : ℕ) → offset ≤ length (current_text b.lines) → offset < length (nodes b.lines)
  in_text offset le = omega (arith, length-nodes path b t)
