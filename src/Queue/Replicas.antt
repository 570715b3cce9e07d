-- ===== src/Queue/Replicas.antt =====
-- shar/core/queue.rs: a character that is typed at one replica and heard at another.
use shario.Prelude.{
  ℕ, ◌+◌, ◌%◌, ◌^◌, ◌<◌, max, true, false, none, some, List, [], ◌∷◌, ◌++◌, ◌≡◌, refl, sym, ap, ◌∙◌,
  arith, subst, Identity, identity_eq, same, length, insert_at,
}
use shario.Types.{PathBuf, Crdt, NetworkAdd, ok, identity_of}
use shario.HashMap
use shario.Tree.File.{SharFile}
use shario.Tree.Document.{document, IsWellFormed}
use shario.Tree.Insert
use shario.Tree.Load.RoundTrip.{text}
use shario.Tree.Youngest.{Fresh, Grown, add_crdt-Grown}
use shario.Tree.Directory
use shario.Tree.Directory.{SharDirectory, find_file}
use shario.Tree.Directory.Routed.{edits-routed, add_crdt-root}
use shario.Queue.State.{
  SharQueue, ide_added, network_added, ◌>>=◌, call, to_relative_path, to_local_path, IsPlain, join,
}
use shario.Queue.Ide
use shario.Queue.Ide.{with_predecessor}
use shario.Queue.Network
use shario.Queue.Network.{
  settle_network, add_network_operation_inner, clear_network_backlog, sentinel, localized,
}
use shario.Queue.Paths.{to_relative_path-to_local_path}
use shario.Queue.Quiet.{
  quiet, next_crdt, known_parent, registered, broadcast, add_ide_operation-quiet,
}

-- A queue's file under a path of the network, well formed and with no id above a bound.
pub record Holds (q : SharQueue) (path : PathBuf) (bound : ℕ) : Type 0 where
  pub file : SharFile
  pub back : SharFile → SharDirectory
  pub found : find_file q.tree (to_local_path q path) ≡ some (file, back)
  pub well_formed : IsWellFormed file
  pub fresh : Fresh file bound

-- A node that a queue hears, the file of which takes it, while nothing waits for it.
heard :
    (b : SharQueue) (op : NetworkAdd) (tree : SharDirectory) (pos : ℕ × ℕ)
    → same (identity_of op.crdt) sentinel ≡ false
    → b.network_add_callback ≡ true
    → HashMap.get (identity_of op.crdt) b.network_backlog ≡ none
    → Directory.add_crdt b.tree (to_local_path b op.file_path) op.row op.crdt
      ≡ (tree, ok (some pos))
    → (b' : SharQueue) × (Network.add_network_operation b op ≡ some b') × (b'.tree ≡ tree)
unfolding Network.add_network_operation add_network_operation_inner settle_network
    clear_network_backlog call
heard b op tree pos other set nothing run =
    let q₁ : SharQueue = record b { counter = max b.counter op.crdt.id } in
    let message = network_added (
      with_predecessor (localized b op)
        (Directory.predecessor_identity tree (to_local_path b op.file_path) pos).1) in
    let b' : SharQueue = record q₁ { tree = tree; calls = b.calls ++ message ∷ [] } in
    let routed : Network.add_network_operation b op
        ≡ settle_network clear_network_backlog q₁ (localized b op)
            (Directory.add_crdt b.tree (to_local_path b op.file_path) op.row op.crdt) =
      rw other refl in
    let released : clear_network_backlog b' (identity_of op.crdt) ≡ some b' =
      rw (nothing, clear_network_backlog) refl in
    let told : settle_network clear_network_backlog q₁ (localized b op) (tree, ok (some pos))
        ≡ clear_network_backlog b' (identity_of op.crdt) =
      ap
        (λ c. call c message (record q₁ { tree = tree }) >>= λ q'.
          clear_network_backlog q' (identity_of op.crdt))
        set in
    (
      b',
      routed ∙ ap (settle_network clear_network_backlog q₁ (localized b op)) run ∙ told ∙ released,
      refl,
    )

-- A typed character, and what another replica makes of it.
pub record Delivered (a b : SharQueue) (path : PathBuf) (parent : Identity) (value tag hint : ℕ)
    (front back : List Identity) (shown : List ℕ) : Type 0 where
  pub a' : SharQueue
  pub b' : SharQueue
  pub sent : NetworkAdd
  pub local : NetworkAdd
  pub typed :
      Ide.add_ide_operation a (known_parent (to_local_path a path) parent value tag hint) ≡ some a'
  pub announced : a'.calls ≡ ((registered a tag).calls ++ ide_added sent local ∷ [])
  pub received : Network.add_network_operation b sent ≡ some b'
  pub at_a : Holds a' path (a.counter + 1)
  pub at_b : Holds b' path (a.counter + 1)
  pub document_a : document at_a.file ≡ front ++ parent ∷ (a.counter + 1, a.peer) ∷ back
  pub document_b : document at_b.file ≡ front ++ parent ∷ (a.counter + 1, a.peer) ∷ back
  pub text_a : text at_a.file ≡ insert_at (length front + 1) value shown
  pub text_b : text at_b.file ≡ insert_at (length front + 1) value shown

-- The file that an edit leaves, where the queue finds it.
pub found_after :
    (path : PathBuf) (q q' : SharQueue) (f : SharFile) (put : SharFile → SharDirectory)
    (tree : SharDirectory)
    → q'.tree ≡ tree
    → Directory.root tree ≡ Directory.root q.tree
    → find_file tree (to_local_path q path) ≡ some (f, put)
    → find_file q'.tree (to_local_path q' path) ≡ some (f, put)
unfolding to_local_path
found_after path q q' f put tree same_tree same_root found =
    ap (λ d. find_file d (join (Directory.root d) path)) same_tree
    ∙ ap (λ r. find_file tree (join r path)) same_root
    ∙ found

module _ (a b : SharQueue) (path : PathBuf) (parent : Identity) (value tag hint : ℕ)
    (front back : List Identity) (shown : List ℕ) (at_rest : quiet a ≡ a) (relative : IsPlain path)
    (small : a.counter + 1 < 2 ^ 32) (ha : Holds a path a.counter) (hb : Holds b path a.counter)
    (set : b.network_add_callback ≡ true)
    (nothing : HashMap.get (a.counter + 1, a.peer) b.network_backlog ≡ none)
    (doc_a : document ha.file ≡ front ++ parent ∷ back)
    (doc_b : document hb.file ≡ front ++ parent ∷ back) (shown_a : text ha.file ≡ shown)
    (shown_b : text hb.file ≡ shown) where
  crdt : Crdt
  crdt = next_crdt a value parent

  next_id : (a.counter + 1) % 2 ^ 32 ≡ a.counter + 1
  next_id = omega arith

  grown_a : Grown ha.file crdt front back (Insert.add_crdt ha.file hint crdt)
  unfolding crdt
  grown_a =
      add_crdt-Grown ha.file hint crdt front back a.counter ha.well_formed doc_a ha.fresh next_id
        refl

  tree_a : SharDirectory
  tree_a = (Directory.add_crdt a.tree (to_local_path a path) hint crdt).0

  runs_a :
      Directory.add_crdt a.tree (to_local_path a path) hint crdt ≡ (tree_a, ok (some grown_a.pos))
  unfolding tree_a
  runs_a =
      ap (λ r. (tree_a, r))
        (((edits-routed a.tree (to_local_path a path) ha.file ha.back ha.found).0 hint crdt).1
          ∙ grown_a.result)

  found_a :
      find_file tree_a (to_local_path a path)
      ≡ some ((Insert.add_crdt ha.file hint crdt).0, ha.back)
  unfolding tree_a
  found_a = ((edits-routed a.tree (to_local_path a path) ha.file ha.back ha.found).0 hint crdt).0

  sent : NetworkAdd
  sent =
      broadcast (quiet (record (registered a tag) { tree = tree_a })) (to_local_path a path) crdt
        grown_a.pos

  root_kept : Directory.root tree_a ≡ Directory.root a.tree
  unfolding tree_a
  root_kept = add_crdt-root a.tree (to_local_path a path) ha.file ha.back ha.found hint crdt

  sent_path : sent.file_path ≡ path
  unfolding sent to_local_path
  sent_path =
      let after = quiet (record (registered a tag) { tree = tree_a }) in
      ap (to_relative_path after) (sym (ap (λ r. join r path) root_kept))
      ∙ (to_relative_path-to_local_path after path relative).0

  grown_b : Grown hb.file crdt front back (Insert.add_crdt hb.file sent.row crdt)
  unfolding crdt
  grown_b =
      add_crdt-Grown hb.file sent.row crdt front back a.counter hb.well_formed doc_b hb.fresh
        next_id refl

  tree_b : SharDirectory
  tree_b = (Directory.add_crdt b.tree (to_local_path b path) sent.row crdt).0

  found_b :
      find_file tree_b (to_local_path b path)
      ≡ some ((Insert.add_crdt hb.file sent.row crdt).0, hb.back)
  unfolding tree_b
  found_b =
      ((edits-routed b.tree (to_local_path b path) hb.file hb.back hb.found).0 sent.row crdt).0

  root_kept_b : Directory.root tree_b ≡ Directory.root b.tree
  unfolding tree_b
  root_kept_b = add_crdt-root b.tree (to_local_path b path) hb.file hb.back hb.found sent.row crdt

  runs_b :
      Directory.add_crdt b.tree (to_local_path b sent.file_path) sent.row sent.crdt
      ≡ (tree_b, ok (some grown_b.pos))
  unfolding tree_b sent
  runs_b =
      ap (λ p. Directory.add_crdt b.tree (to_local_path b p) sent.row crdt) sent_path
      ∙ ap (λ r. (tree_b, r))
          (((edits-routed b.tree (to_local_path b path) hb.file hb.back hb.found).0 sent.row crdt).1
            ∙ grown_b.result)

  not_sentinel : same (identity_of sent.crdt) sentinel ≡ false
  unfolding sent crdt same
  not_sentinel = ground (arith, next_id)

  hears : (b' : SharQueue) × (Network.add_network_operation b sent ≡ some b') × (b'.tree ≡ tree_b)
  unfolding sent crdt
  hears =
      heard b sent tree_b grown_b.pos not_sentinel set
        (ap (λ i. HashMap.get (i, a.peer) b.network_backlog) next_id ∙ nothing) runs_b

  types :
      (a' : SharQueue) × (local : NetworkAdd) × (Ide.add_ide_operation a
          (known_parent (to_local_path a path) parent value tag hint)
        ≡ some a')
      × (a'.calls ≡ (registered a tag).calls ++ ide_added sent local ∷ [])
      × (a'.tree ≡ tree_a)
  unfolding sent crdt
  types =
      let (c, c', ran, made) =
        add_ide_operation-quiet a (to_local_path a path) parent value tag hint tree_a grown_a.pos
          runs_a in
      (
        _,
        c',
        ap
              (λ q.
                Ide.add_ide_operation q (known_parent (to_local_path a path) parent value tag hint))
              (sym at_rest)
            ∙ ran,
        ap (λ x. (registered a tag).calls ++ ide_added x c' ∷ []) made,
        refl,
      )

  -- A character that is typed at a replica where nothing of the IDE waits, under a known parent in a file, its path
  -- below the root beginning neither with the root nor with `.`, that another replica holds with the same document and text, and with no id above the first one's counter: the first
  -- replica announces one addition; the second one, when nothing waits there for the new identity, takes it,
  -- whatever the hint; and both files are then well formed, with the same document and text, the new
  -- character right behind its parent.
  pub keystroke-Delivered : Delivered a b path parent value tag hint front back shown
  unfolding crdt
  keystroke-Delivered = record {
    a' = types.0;
    b' = hears.0;
    sent = sent;
    local = types.1;
    typed = types.2;
    announced = types.3;
    received = hears.1;
    at_a = record {
      file = (Insert.add_crdt ha.file hint crdt).0;
      back = ha.back;
      found = found_after path a types.0 _ ha.back tree_a types.4 root_kept found_a;
      well_formed = grown_a.well_formed;
      fresh = subst (Fresh (Insert.add_crdt ha.file hint crdt).0) next_id grown_a.fresh;
    };
    at_b = record {
      file = (Insert.add_crdt hb.file sent.row crdt).0;
      back = hb.back;
      found = found_after path b hears.0 _ hb.back tree_b hears.2 root_kept_b found_b;
      well_formed = grown_b.well_formed;
      fresh = subst (Fresh (Insert.add_crdt hb.file sent.row crdt).0) next_id grown_b.fresh;
    };
    document_a = grown_a.grown ∙ ap (λ i. front ++ parent ∷ (i, a.peer) ∷ back) next_id;
    document_b = grown_b.grown ∙ ap (λ i. front ++ parent ∷ (i, a.peer) ∷ back) next_id;
    text_a = grown_a.shown ∙ ap (insert_at (length front + 1) value) shown_a;
    text_b = grown_b.shown ∙ ap (insert_at (length front + 1) value) shown_b;
  }
