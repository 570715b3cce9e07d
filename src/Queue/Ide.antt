-- ===== src/Queue/Ide.antt =====
-- shar/core/queue.rs: what the local IDE types, `add_ide_operation` and all that it calls.
pub mod Frame
pub mod Drain
pub mod Register
use shario.Prelude.{
  ℕ, zero, suc, ◌+◌, ◌*◌, ◌%◌, ◌^◌, Option, none, some, List, [], ◌∷◌, ◌++◌, Identity, length,
  nat_eq, identity_eq,
}
use shario.Types.{
  Result, ok, err, fault, PathBuf, CrdtRelation, new_relation, Crdt, NetworkAdd, IdeAdd,
  IdeAddConfirmed,
}
use shario.HashMap
use shario.Tree.Directory
use shario.Tree.Directory.{SharDirectory}
use shario.Queue.State.{
  SharQueue, ide_add_confirmed, ide_added, ◌>>=◌, call, to_relative_path, waiting, push_waiting,
  backlog_size,
}

-- The parent, by identity or by tag.
abbrev pub parent_by_tag : SharQueue → Option ℕ → Option Identity
parent_by_tag q none = none
parent_by_tag q (some tag) = HashMap.get tag q.tag_identities

abbrev pub parent_from : SharQueue → Option ℕ → Option ℕ → Option ℕ → Option Identity
parent_from q (some id) (some peer) tag = some (id, peer)
parent_from q none peer tag = parent_by_tag q tag
parent_from q (some id) none tag = parent_by_tag q tag

unfoldable pub parent_identity : SharQueue → IdeAdd → Option Identity
parent_identity q op = parent_from q op.parent_id op.parent_peer op.parent_tag

-- The copy for the local IDE, with the predecessor for its parent.
abbrev pub with_predecessor : NetworkAdd → Result (Option Identity) → NetworkAdd
with_predecessor op (ok (some (id, peer))) = record op {
  crdt = record op.crdt {
    relation = record op.crdt.relation { parent_id = id; parent_peer = peer };
  };
}
with_predecessor op (ok none) = op
with_predecessor op (err e) = op
with_predecessor op fault = op

-- After a successful insertion at `pos`: the broadcast and the local copy.
unfoldable pub announce_ide : IdeAdd → Crdt → ℕ × ℕ → SharQueue → Option SharQueue
unfolding call
announce_ide op crdt pos q =
    let network_op : NetworkAdd = record {
      file_path = to_relative_path q op.file_path;
      crdt = crdt;
      row = pos.0;
    } in
    call q.ide_add_callback
      (ide_added network_op
        (with_predecessor network_op (Directory.predecessor_identity q.tree op.file_path pos).1))
      q

-- The branches on the tree's answer; `release` frees what waits for the new identity.
unfoldable pub settle_ide :
    (SharQueue → Identity → Option SharQueue)
    → SharQueue
    → IdeAdd
    → Identity
    → Crdt
    → SharDirectory × Result (Option (ℕ × ℕ))
    → Option SharQueue
unfolding announce_ide
settle_ide release q op parent crdt (tree, ok (some pos)) = do
  q' ← release (record q { tree = tree }) (crdt.id, crdt.peer)
  announce_ide op crdt pos q'
settle_ide release q op parent crdt (tree, ok none) = some (record q { tree = tree })
settle_ide release q op parent crdt (tree, err e) =
    some (record q { tree = tree; ide_backlog = push_waiting parent op q.ide_backlog })
settle_ide release q op parent crdt (tree, fault) = none

abbrev pub crdt_of : IdeAdd → Identity → Identity → Crdt
crdt_of op k parent = record {
  id = k.0;
  peer = k.1;
  relation = new_relation op.val parent.0 parent.1;
}

-- `add_ide_operation_inner`; what its flag decides is `release`.
unfoldable pub add_ide_operation_inner :
    (SharQueue → Identity → Option SharQueue) → SharQueue → IdeAdd → Option SharQueue
unfolding settle_ide parent_identity
add_ide_operation_inner release q op = elim (parent_identity q op) [
  | none ↦ elim op.parent_tag [
    | none ↦ none
    | some tag ↦ some (record q { ide_tag_backlog = push_waiting tag op q.ide_tag_backlog })
  ]
  | some parent ↦ elim (HashMap.get op.tag q.tag_identities) [
    | none ↦ none
    | some k ↦
        settle_ide release q op parent (crdt_of op k parent)
          (Directory.add_crdt q.tree op.file_path op.line_hint (crdt_of op k parent))
  ]
]

-- The branch for `clearing_worklist`: dependants go onto the worklist.
unfoldable pub queue_ide_dependants : SharQueue → Identity → Option SharQueue
unfolding waiting
queue_ide_dependants q k = some (record q {
  ide_backlog = HashMap.remove k q.ide_backlog;
  ide_worklist = q.ide_worklist ++ waiting k q.ide_backlog;
})

-- `drain_ide_worklist`, on fuel.
unfoldable pub drain_ide : ℕ → SharQueue → Option SharQueue
unfolding add_ide_operation_inner queue_ide_dependants
drain_ide zero q = none
drain_ide (suc fuel) q = elim q.ide_worklist [
  | [] ↦ some q
  | op ∷ rest ↦
      add_ide_operation_inner queue_ide_dependants (record q { ide_worklist = rest }) op >>= λ q'.
      drain_ide fuel q'
]

-- Each round takes an operation off the worklist; a success may bring back all that wait.
unfoldable pub ide_fuel : SharQueue → ℕ
ide_fuel q =
    let pending = backlog_size q.ide_backlog + length q.ide_worklist in
    suc (pending * (pending + 2))

unfoldable pub drain_ide_worklist : SharQueue → Option SharQueue
unfolding drain_ide
drain_ide_worklist q = drain_ide (ide_fuel q) q

unfoldable pub clear_ide_backlog : SharQueue → Identity → Option SharQueue
unfolding drain_ide_worklist
clear_ide_backlog q k = elim (HashMap.get k q.ide_backlog) [
  | none ↦ some q
  | some ops ↦ queue_ide_dependants q k >>= drain_ide_worklist
]

-- The identity, the tag and the confirmation of a new operation.
unfoldable pub register_ide : SharQueue → IdeAdd → Option SharQueue
register_ide q op =
    let id = (q.counter + 1) % 2 ^ 32 in
    call q.ide_add_confirm_callback
      (ide_add_confirmed (record { tag = op.tag; id = id; peer = q.peer }))
      (record q {
        counter = id;
        tag_identities = HashMap.insert op.tag (id, q.peer) q.tag_identities;
      })

-- What waited for the tag goes onto the worklist.
unfoldable pub queue_tag_dependants : SharQueue → ℕ → SharQueue
queue_tag_dependants q tag = record q {
  ide_tag_backlog = HashMap.remove tag q.ide_tag_backlog;
  ide_worklist = q.ide_worklist ++ waiting tag q.ide_tag_backlog;
}

unfoldable pub add_ide_operation : SharQueue → IdeAdd → Option SharQueue
unfolding register_ide queue_tag_dependants clear_ide_backlog
add_ide_operation q op = do
  q₁ ← register_ide q op
  q₂ ← add_ide_operation_inner clear_ide_backlog (queue_tag_dependants q₁ op.tag) op
  drain_ide_worklist q₂
