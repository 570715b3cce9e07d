-- ===== src/Examples/Replicas.antt =====
-- shar/core/queue.rs: the theorems at two concrete replicas.
use shario.Prelude.{
  ℕ, List, [], ◌∷◌, ◌++◌, ◌≡◌, refl, arith, String, same, same_iff, identity_eq, inl, inr,
}
use shario.Types.{new_relation}
use shario.Tree.Document.{IsWellFormed, breaks_line}
use shario.Queue.Removals.{Withdrawn, removal-Withdrawn}
use shario.HashMap
use shario.Tree.File.{root, SharFile, is_line_break}
use shario.Tree.Load.{seeded}
use shario.Tree.Load.RoundTrip.{seeded-IsWellFormed}
use shario.Tree.Directory
use shario.Tree.Directory.{
  SharDirectory, directory, nil, find_file, find_in, route, find_sub_file, ends_with, file_name,
  after_name,
}
use shario.Queue.State.{SharQueue, new_queue, to_local_path, to_relative_path}
use shario.Queue.Paths.{to_relative_path-to_local_path}
use shario.Queue.Replicas.{Holds, Delivered, keystroke-Delivered}
use shario.Bench.Start.{doc_path, find-doc}

abbrev scratch : List String
scratch = "/" ∷ "tmp" ∷ "scratch" ∷ []

-- A replica with one empty file.
abbrev fresh_queue : ℕ → SharQueue
unfolding new_queue
fresh_queue peer = new_queue (directory scratch nil (seeded (doc_path scratch) ∷ [])) peer 0

fresh-Holds : (peer : ℕ) → Holds (fresh_queue peer) ("doc.txt" ∷ []) 0
unfolding fresh_queue new_queue file_name after_name HashMap.get same to_local_path
fresh-Holds peer = record {
  file = seeded (doc_path scratch);
  back = λ g. directory scratch nil (g ∷ []);
  found = find-doc scratch "scratch" refl refl;
  well_formed = seeded-IsWellFormed (doc_path scratch);
  fresh = λ k lt. ground (arith, same_iff root k);
}

first_letter-Delivered :
    Delivered (fresh_queue 2) (fresh_queue 3) ("doc.txt" ∷ []) root 97 0 0 [] [] (0 ∷ [])
unfolding fresh_queue new_queue fresh-Holds HashMap.get same
first_letter-Delivered =
    keystroke-Delivered (fresh_queue 2) (fresh_queue 3) ("doc.txt" ∷ []) root 97 0 0 [] [] (0 ∷ [])
      refl (refl, refl) (omega arith) (fresh-Holds 2) (fresh-Holds 3) refl refl refl refl refl refl

doc-paths :
    (to_relative_path (fresh_queue 2) (to_local_path (fresh_queue 2) ("doc.txt" ∷ []))
      ≡ "doc.txt" ∷ [])
    × (to_local_path
          (fresh_queue 2)
          (to_relative_path (fresh_queue 2) (Directory.root (fresh_queue 2).tree ++ "doc.txt" ∷ []))
        ≡ Directory.root (fresh_queue 2).tree ++ "doc.txt" ∷ [])
doc-paths = to_relative_path-to_local_path (fresh_queue 2) ("doc.txt" ∷ []) (refl, refl)

-- The same file with the letter "a".
abbrev letter : SharFile
letter = record {
  file_path = doc_path scratch;
  characters = ((1, 2), new_relation 97 0 0) ∷ (root, new_relation 0 0 0) ∷ [];
  projection = (root ∷ (1, 2) ∷ []) ∷ [];
}

letter-IsWellFormed : IsWellFormed letter
unfolding HashMap.get breaks_line same is_line_break
letter-IsWellFormed = record {
  shape = ((refl, (refl, tt)), tt);
  counts = λ k. ground (arith, same_iff root k, same_iff (1, 2) k);
  rooted = (refl, inr (_, refl), (refl, inl refl, tt));
  sentinel = refl;
}

abbrev letter_queue : ℕ → SharQueue
unfolding new_queue
letter_queue peer = new_queue (directory scratch nil (letter ∷ [])) peer 1

letter-Holds : (peer : ℕ) → Holds (letter_queue peer) ("doc.txt" ∷ []) 1
unfolding letter_queue new_queue file_name after_name HashMap.get same to_local_path find_file
    find_in route find_sub_file ends_with
letter-Holds peer = record {
  file = letter;
  back = λ g. directory scratch nil (g ∷ []);
  found = refl;
  well_formed = letter-IsWellFormed;
  fresh = λ k lt. ground (arith, same_iff root k, same_iff (1, 2) k);
}

letter-Withdrawn :
    Withdrawn
      (letter_queue 2)
      (letter_queue 3)
      ("doc.txt" ∷ [])
      (1, 2)
      0
      1
      (root ∷ [])
      []
      (0 ∷ 97 ∷ [])
unfolding letter_queue new_queue letter-Holds HashMap.get same
letter-Withdrawn =
    removal-Withdrawn (letter_queue 2) (letter_queue 3) ("doc.txt" ∷ []) (1, 2) 0 1 (root ∷ []) []
      (0 ∷ 97 ∷ []) refl (refl, refl) refl (letter-Holds 2) (letter-Holds 3) refl refl refl refl
      refl
