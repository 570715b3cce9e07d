-- ===== src/Bench/Tracks.antt =====
-- bench.rs: the mirror, the queue and the file in the queue's tree, before and after one edit.
use mathlib.Core.List.{map-append}
use shario.Prelude.{
  suc, some, List, [], ◌∷◌, ◌++◌, ◌≡◌, Identity, length, concat, refl, sym, ap, ◌∙◌, identity_eq,
}
use shario.Types.{PathBuf}
use shario.Tree.File.{SharFile, root, Projection}
use shario.Tree.Document.{document, IsWellFormed, Shape, breaks_line}
use shario.Tree.Load.RoundTrip.{text}
use shario.Tree.Youngest.{Fresh}
use shario.Tree.Directory.{SharDirectory, find_file}
use shario.Queue.Quiet.{quiet}
use shario.Bench.{Bench, Line, current_text}
use shario.Bench.Mirror.{Node, nodes, ids, values, current_text-nodes}

-- The queue is at rest, the path leads to a well-formed file, the mirror has the file's identities in
-- the file's order and shows its text, and no id above the counter is taken.
pub record Tracks (path : PathBuf) (b : Bench) : Type 0 where
  pub file : SharFile
  pub back : SharFile → SharDirectory
  pub at_rest : quiet b.queue ≡ b.queue
  pub found : find_file b.queue.tree path ≡ some (file, back)
  pub well_formed : IsWellFormed file
  pub mirrors : ids (nodes b.lines) ≡ document file
  pub shown : text file ≡ 0 ∷ current_text b.lines
  pub fresh : Fresh file b.queue.counter

pub ids-append : (xs ys : List Node) → ids (xs ++ ys) ≡ ids xs ++ ids ys
ids-append xs ys = map-append (λ n. n.0) xs ys

pub length-ids : (xs : List Node) → length (ids xs) ≡ length xs
length-ids [] = refl
length-ids (x ∷ xs) = ap suc (length-ids xs)

length-values : (xs : List Node) → length (values xs) ≡ length xs
length-values [] = refl
length-values (x ∷ xs) = ap suc (length-values xs)

-- A mirror with nodes shows the text behind the first of them.
pub values-text :
    (lines : List Line) (n : Node) (ns : List Node)
    → nodes lines ≡ n ∷ ns
    → 10 ∷ current_text lines ≡ values (nodes lines)
values-text [] n ns e = cc
values-text (l ∷ ls) n ns e = current_text-nodes l ls

module _ (path : PathBuf) (b : Bench) (t : Tracks path b) where
  pub starts : (rest : List Identity) × (document t.file ≡ root ∷ rest)
  starts = by_rows t.file.projection t.well_formed.shape
    where
      by_rows :
          (rows : Projection)
          → Shape (breaks_line t.file.characters) rows
          → (rest : List Identity) × (concat rows ≡ root ∷ rest)
      by_rows [] s = absurd s
      by_rows ([] ∷ rows) s = absurd s.0
      by_rows ((x ∷ xs) ∷ rows) s = (xs ++ concat rows, ap (λ y. y ∷ (xs ++ concat rows)) s.0.0)

  mirror_starts : (n : Node) × (ns : List Node) × (nodes b.lines ≡ n ∷ ns)
  mirror_starts = by_nodes (nodes b.lines) refl
    where
      by_nodes :
          (ns : List Node)
          → nodes b.lines ≡ ns
          → (n : Node) × (rest : List Node) × (nodes b.lines ≡ n ∷ rest)
      by_nodes [] e = cc (starts.1, t.mirrors, ap ids e)
      by_nodes (n ∷ ns) e = (n, ns, e)

  pub text_values : 10 ∷ current_text b.lines ≡ values (nodes b.lines)
  text_values = values-text b.lines mirror_starts.0 mirror_starts.1 mirror_starts.2

  pub length-nodes : length (nodes b.lines) ≡ suc (length (current_text b.lines))
  length-nodes = sym (length-values (nodes b.lines)) ∙ sym (ap length text_values)
