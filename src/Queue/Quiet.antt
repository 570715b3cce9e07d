-- ===== src/Queue/Quiet.antt =====
-- shar/core/queue.rs: a queue with nothing of the IDE's waiting, and its callbacks set.
use shario.Prelude.{
  ℕ, ◌+◌, ◌%◌, ◌^◌, true, false, none, some, [], ◌∷◌, ◌++◌, ◌≡◌, refl, ap, ◌∙◌, arith, Identity,
  nat_eq, identity_eq, same,
}
use shario.Types.{PathBuf, Crdt, NetworkAdd, IdeAdd, Remove, ok, new_relation}
use shario.HashMap
use shario.HashMap.{HashMap, get-insert}
use shario.Tree.Directory
use shario.Tree.Directory.{SharDirectory}
use shario.Queue.State.{
  SharQueue, Call, ide_add_confirmed, ide_added, ide_removed, ◌>>=◌, call, to_relative_path,
  waiting, backlog_size,
}
use shario.Queue.Ide.{
  add_ide_operation, register_ide, queue_tag_dependants, add_ide_operation_inner, settle_ide,
  announce_ide, parent_identity, clear_ide_backlog, drain_ide_worklist, drain_ide, ide_fuel,
  crdt_of, with_predecessor,
}
use shario.Queue.Network.{remove_operation, settle_remove, remove_ide_operation, target, sentinel}

-- `q` with its backlogs of the IDE's operations empty, and every callback set.
abbrev pub quiet : SharQueue → SharQueue
quiet q = record q {
  ide_backlog = [];
  ide_tag_backlog = [];
  ide_worklist = [];
  ide_add_confirm_callback = true;
  ide_add_callback = true;
  ide_remove_callback = true;
}

-- The node of the next character under a known parent.
abbrev pub next_crdt : SharQueue → ℕ → Identity → Crdt
next_crdt q value parent = record {
  id = (q.counter + 1) % 2 ^ 32;
  peer = q.peer;
  relation = new_relation value parent.0 parent.1;
}

abbrev pub known_parent : PathBuf → Identity → ℕ → ℕ → ℕ → IdeAdd
known_parent path parent value tag hint = record {
  file_path = path;
  parent_id = some parent.0;
  parent_peer = some parent.1;
  parent_tag = none;
  val = value;
  tag = tag;
  line_hint = hint;
}

-- What is announced of a node at `pos`.
abbrev pub broadcast : SharQueue → PathBuf → Crdt → ℕ × ℕ → NetworkAdd
broadcast q path crdt pos = record { file_path = to_relative_path q path; crdt = crdt; row = pos.0 }

abbrev pub announced : SharQueue → PathBuf → Crdt → ℕ × ℕ → Call
announced q path crdt pos = ide_added (broadcast q path crdt pos) (
    with_predecessor (broadcast q path crdt pos) (Directory.predecessor_identity q.tree path pos).1)

settle_ide-quiet :
    (q : SharQueue) (op : IdeAdd) (parent : Identity) (crdt : Crdt) (tree : SharDirectory)
    (pos : ℕ × ℕ)
    → settle_ide clear_ide_backlog (quiet q) op parent crdt (tree, ok (some pos))
      ≡ some (
          quiet (record q {
            tree = tree;
            calls =
                q.calls ++ announced (quiet (record q { tree = tree })) op.file_path crdt pos ∷ [];
          }))
unfolding settle_ide announce_ide clear_ide_backlog call HashMap.get
settle_ide-quiet q op parent crdt tree pos = refl

inner-quiet :
    (q : SharQueue) (path : PathBuf) (parent : Identity) (value tag hint : ℕ) (k : Identity)
    (tree : SharDirectory) (pos : ℕ × ℕ)
    → HashMap.get tag q.tag_identities ≡ some k
    → Directory.add_crdt q.tree path hint
        (crdt_of (known_parent path parent value tag hint) k parent)
      ≡ (tree, ok (some pos))
    → add_ide_operation_inner clear_ide_backlog (quiet q) (known_parent path parent value tag hint)
      ≡ some (
          quiet (record q {
            tree = tree;
            calls =
                q.calls
                ++ announced
                    (quiet (record q { tree = tree }))
                    path
                    (crdt_of (known_parent path parent value tag hint) k parent)
                    pos
                  ∷ [];
          }))
unfolding add_ide_operation_inner parent_identity
inner-quiet q path parent value tag hint k tree pos known run =
    let op : IdeAdd = known_parent path parent value tag hint in
    let settles : add_ide_operation_inner clear_ide_backlog (quiet q) op
        ≡ settle_ide clear_ide_backlog (quiet q) op parent (crdt_of op k parent)
            (tree, ok (some pos)) =
      ground arith in
    settles ∙ settle_ide-quiet q op parent (crdt_of op k parent) tree pos

drain-quiet : (q : SharQueue) → drain_ide_worklist (quiet q) ≡ some (quiet q)
unfolding drain_ide_worklist drain_ide ide_fuel backlog_size
drain-quiet q = refl

-- After the confirmation.
abbrev pub registered : SharQueue → ℕ → SharQueue
registered q tag = record q {
  counter = (q.counter + 1) % 2 ^ 32;
  tag_identities = HashMap.insert tag ((q.counter + 1) % 2 ^ 32, q.peer) q.tag_identities;
  calls =
      q.calls
      ++ ide_add_confirmed (record { tag = tag; id = (q.counter + 1) % 2 ^ 32; peer = q.peer })
        ∷ [];
}

start-quiet :
    (q : SharQueue) (op : IdeAdd)
    → add_ide_operation (quiet q) op ≡ (
        add_ide_operation_inner clear_ide_backlog (quiet (registered q op.tag)) op >>= λ r.
        drain_ide_worklist r)
unfolding add_ide_operation register_ide queue_tag_dependants call waiting HashMap.get
    HashMap.remove
start-quiet q op = refl

-- A character that is typed where nothing waits, under a known parent, in a file that takes it.
pub add_ide_operation-quiet :
    (q : SharQueue) (path : PathBuf) (parent : Identity) (value tag hint : ℕ) (tree : SharDirectory)
    (pos : ℕ × ℕ)
    → Directory.add_crdt q.tree path hint (next_crdt q value parent) ≡ (tree, ok (some pos))
    → (c : NetworkAdd) × (c' : NetworkAdd) × (add_ide_operation
          (quiet q)
          (known_parent path parent value tag hint)
        ≡ some (
            quiet (record (registered q tag) {
              tree = tree;
              calls = (registered q tag).calls ++ ide_added c c' ∷ [];
            })))
      × (c
          ≡ broadcast
              (quiet (record (registered q tag) { tree = tree }))
              path
              (next_crdt q value parent)
              pos)
add_ide_operation-quiet q path parent value tag hint tree pos run =
    let self : HashMap.get tag (registered q tag).tag_identities
        ≡ some ((q.counter + 1) % 2 ^ 32, q.peer) =
      get-insert tag tag ((q.counter + 1) % 2 ^ 32, q.peer) q.tag_identities ∙ ground arith in
    let crdt = next_crdt q value parent in
    let c = broadcast (quiet (record (registered q tag) { tree = tree })) path crdt pos in
    let c' = with_predecessor c (Directory.predecessor_identity tree path pos).1 in
    (
      c,
      c',
      start-quiet q (known_parent path parent value tag hint)
          ∙ ap (λ o. o >>= λ r. drain_ide_worklist r)
              (inner-quiet (registered q tag) path parent value tag hint
                ((q.counter + 1) % 2 ^ 32, q.peer) tree pos self run)
          ∙ drain-quiet (record (registered q tag) {
            tree = tree;
            calls = (registered q tag).calls ++ ide_added c c' ∷ [];
          }),
      refl,
    )

-- A removal of a node other than the sentinel, from a file that has it.
pub remove_ide_operation-quiet :
    (q : SharQueue) (op : Remove) (tree : SharDirectory) (pos : ℕ × ℕ)
    → same (target op) sentinel ≡ false
    → Directory.remove_crdt q.tree op.file_path op.row (target op) ≡ (tree, ok (some pos))
    → (gone : Remove) × (remove_ide_operation (quiet q) op
        ≡ some (quiet (record q { tree = tree; calls = q.calls ++ ide_removed gone ∷ [] })))
      × (gone ≡ record op {
        file_path = to_relative_path (quiet (record q { tree = tree })) op.file_path;
      })
unfolding remove_ide_operation remove_operation settle_remove call
remove_ide_operation-quiet q op tree pos other run = (
  record op { file_path = to_relative_path (quiet (record q { tree = tree })) op.file_path },
  ground arith,
  refl,
)
