-- ===== src/Queue/Removals.antt =====
-- shar/core/queue.rs: a character that is removed at one replica, and then at another.
use shario.Prelude.{
  ℕ, true, false, some, List, [], ◌∷◌, ◌++◌, ◌≡◌, ◌≢◌, refl, sym, ap, ◌∙◌, arith, Identity,
  identity_eq, same, same_iff, length, remove_at,
}
use shario.Types.{PathBuf, Remove, ok}
use shario.Tree.File.{root}
use shario.Tree.Document.{document}
use shario.Tree.Delete
use shario.Tree.Load.RoundTrip.{text}
use shario.Tree.Youngest.{Shrunk, remove_crdt-Shrunk}
use shario.Tree.Directory
use shario.Tree.Directory.{SharDirectory, find_file}
use shario.Tree.Directory.Routed.{edits-routed, remove_crdt-root}
use shario.Queue.State.{
  SharQueue, ide_removed, network_removed, call, to_relative_path, to_local_path, IsPlain, join,
}
use shario.Queue.Network
use shario.Queue.Network.{remove_operation, settle_remove, sentinel, target}
use shario.Queue.Paths.{to_relative_path-to_local_path}
use shario.Queue.Quiet.{quiet, remove_ide_operation-quiet}
use shario.Queue.Replicas.{Holds, found_after}

-- A removal of a node of a file that the queue has.
heard :
    (b : SharQueue) (op : Remove) (tree : SharDirectory) (pos : ℕ × ℕ)
    → same (target op) sentinel ≡ false
    → b.network_remove_callback ≡ true
    → Directory.remove_crdt b.tree (to_local_path b op.file_path) op.row (target op)
      ≡ (tree, ok (some pos))
    → (b' : SharQueue) × (Network.remove_network_operation b op ≡ some b') × (b'.tree ≡ tree)
unfolding Network.remove_network_operation remove_operation settle_remove call
heard b op tree pos other set run =
    let message = network_removed (record op { file_path = to_local_path b op.file_path }) in
    (record b { tree = tree; calls = b.calls ++ message ∷ [] }, ground arith, refl)

-- A removal at a replica, and what another one makes of it.
pub record Withdrawn (a b : SharQueue) (path : PathBuf) (k : Identity) (hint bound : ℕ)
    (front back : List Identity) (shown : List ℕ) : Type 0 where
  pub a' : SharQueue
  pub b' : SharQueue
  pub sent : Remove
  pub removed :
      Network.remove_ide_operation a
        (record { file_path = to_local_path a path; id = k.0; peer = k.1; row = hint })
      ≡ some a'
  pub announced : a'.calls ≡ a.calls ++ ide_removed sent ∷ []
  pub received : Network.remove_network_operation b sent ≡ some b'
  pub at_a : Holds a' path bound
  pub at_b : Holds b' path bound
  pub document_a : document at_a.file ≡ front ++ back
  pub document_b : document at_b.file ≡ front ++ back
  pub text_a : text at_a.file ≡ remove_at (length front) shown
  pub text_b : text at_b.file ≡ remove_at (length front) shown

module _ (a b : SharQueue) (path : PathBuf) (k : Identity) (hint bound : ℕ)
    (front back : List Identity) (shown : List ℕ) (at_rest : quiet a ≡ a) (relative : IsPlain path)
    (other : same k sentinel ≡ false) (ha : Holds a path bound) (hb : Holds b path bound)
    (set : b.network_remove_callback ≡ true) (doc_a : document ha.file ≡ front ++ k ∷ back)
    (doc_b : document hb.file ≡ front ++ k ∷ back) (shown_a : text ha.file ≡ shown)
    (shown_b : text hb.file ≡ shown) where
  not_root : k ≢ root
  not_root e = cc (other, (same_iff k root).1 e)

  shrunk_a : Shrunk ha.file bound front back (Delete.remove_crdt ha.file hint k)
  shrunk_a =
      remove_crdt-Shrunk ha.file hint k front back bound ha.well_formed not_root doc_a ha.fresh

  shrunk_b : Shrunk hb.file bound front back (Delete.remove_crdt hb.file hint k)
  shrunk_b =
      remove_crdt-Shrunk hb.file hint k front back bound hb.well_formed not_root doc_b hb.fresh

  tree_a : SharDirectory
  tree_a = (Directory.remove_crdt a.tree (to_local_path a path) hint k).0

  tree_b : SharDirectory
  tree_b = (Directory.remove_crdt b.tree (to_local_path b path) hint k).0

  runs_a :
      Directory.remove_crdt a.tree (to_local_path a path) hint k ≡ (tree_a, ok (some shrunk_a.pos))
  unfolding tree_a
  runs_a =
      ap (λ r. (tree_a, r))
        (((edits-routed a.tree (to_local_path a path) ha.file ha.back ha.found).1 hint k).1
          ∙ shrunk_a.result)

  runs_b :
      Directory.remove_crdt b.tree (to_local_path b path) hint k ≡ (tree_b, ok (some shrunk_b.pos))
  unfolding tree_b
  runs_b =
      ap (λ r. (tree_b, r))
        (((edits-routed b.tree (to_local_path b path) hb.file hb.back hb.found).1 hint k).1
          ∙ shrunk_b.result)

  found_a :
      find_file tree_a (to_local_path a path)
      ≡ some ((Delete.remove_crdt ha.file hint k).0, ha.back)
  unfolding tree_a
  found_a = ((edits-routed a.tree (to_local_path a path) ha.file ha.back ha.found).1 hint k).0

  found_b :
      find_file tree_b (to_local_path b path)
      ≡ some ((Delete.remove_crdt hb.file hint k).0, hb.back)
  unfolding tree_b
  found_b = ((edits-routed b.tree (to_local_path b path) hb.file hb.back hb.found).1 hint k).0

  root_a : Directory.root tree_a ≡ Directory.root a.tree
  unfolding tree_a
  root_a = remove_crdt-root a.tree (to_local_path a path) ha.file ha.back ha.found hint k

  root_b : Directory.root tree_b ≡ Directory.root b.tree
  unfolding tree_b
  root_b = remove_crdt-root b.tree (to_local_path b path) hb.file hb.back hb.found hint k

  sent : Remove
  sent = record {
    file_path = to_relative_path (quiet (record a { tree = tree_a })) (to_local_path a path);
    id = k.0;
    peer = k.1;
    row = hint;
  }

  sent_path : sent.file_path ≡ path
  unfolding sent to_local_path
  sent_path =
      let after = quiet (record a { tree = tree_a }) in
      ap (to_relative_path after) (sym (ap (λ r. join r path) root_a))
      ∙ (to_relative_path-to_local_path after path relative).0

  hears :
      (b' : SharQueue) × (Network.remove_network_operation b sent ≡ some b') × (b'.tree ≡ tree_b)
  unfolding sent
  hears =
      heard b sent tree_b shrunk_b.pos other set
        (ap (λ p. Directory.remove_crdt b.tree (to_local_path b p) hint k) sent_path ∙ runs_b)

  removes :
      (a' : SharQueue) × (Network.remove_ide_operation a
          (record { file_path = to_local_path a path; id = k.0; peer = k.1; row = hint })
        ≡ some a')
      × (a'.calls ≡ a.calls ++ ide_removed sent ∷ [])
      × (a'.tree ≡ tree_a)
  unfolding sent
  removes =
      let op : Remove = record {
        file_path = to_local_path a path;
        id = k.0;
        peer = k.1;
        row = hint;
      } in
      let (c, ran, made) = remove_ide_operation-quiet a op tree_a shrunk_a.pos other runs_a in
      (
        _,
        ap (λ q. Network.remove_ide_operation q op) (sym at_rest) ∙ ran,
        ap (λ x. a.calls ++ ide_removed x ∷ []) made,
        refl,
      )

  -- A character that is removed at a replica where nothing of the IDE waits, from a file, its path below the
  -- root beginning neither with the root nor with `.`, that another replica holds with the same document and text: the first replica announces one removal, the second one takes it, and
  -- both files are then well formed, with the same document and text, without the character; the sentinel is no
  -- such character.
  pub removal-Withdrawn : Withdrawn a b path k hint bound front back shown
  removal-Withdrawn = record {
    a' = removes.0;
    b' = hears.0;
    sent = sent;
    removed = removes.1;
    announced = removes.2;
    received = hears.1;
    at_a = record {
      file = (Delete.remove_crdt ha.file hint k).0;
      back = ha.back;
      found = found_after path a removes.0 _ ha.back tree_a removes.3 root_a found_a;
      well_formed = shrunk_a.well_formed;
      fresh = shrunk_a.fresh;
    };
    at_b = record {
      file = (Delete.remove_crdt hb.file hint k).0;
      back = hb.back;
      found = found_after path b hears.0 _ hb.back tree_b hears.2 root_b found_b;
      well_formed = shrunk_b.well_formed;
      fresh = shrunk_b.fresh;
    };
    document_a = shrunk_a.shrunk;
    document_b = shrunk_b.shrunk;
    text_a = shrunk_a.shown ∙ ap (remove_at (length front)) shown_a;
    text_b = shrunk_b.shown ∙ ap (remove_at (length front)) shown_b;
  }
