-- ===== src/Queue/Network.antt =====
-- shar/core/queue.rs: what arrives from other peers, and removals from either side.
pub mod Drain
pub mod Frame
pub mod Counter
use shario.Prelude.{
  ℕ, zero, suc, ◌+◌, ◌*◌, Option, none, some, List, [], ◌∷◌, ◌++◌, if◌then◌else◌, Identity, same,
  identity_eq, length, max,
}
use shario.Types.{
  Result, ok, err, fault, Crdt, parent_of, identity_of, NetworkAdd, Remove, NetworkOp, add, remove,
}
use shario.HashMap
use shario.Tree.Directory
use shario.Tree.Directory.{SharDirectory}
use shario.Queue.State.{
  SharQueue, network_added, network_removed, ide_removed, ◌>>=◌, call, to_relative_path,
  to_local_path, waiting, push_waiting, backlog_size,
}
use shario.Queue.Ide.{with_predecessor}

abbrev pub sentinel : Identity
sentinel = (0, 0)

-- The branches on the tree's answer to an addition; `release` frees what waits for it.
unfoldable pub settle_network :
    (SharQueue → Identity → Option SharQueue)
    → SharQueue
    → NetworkAdd
    → SharDirectory × Result (Option (ℕ × ℕ))
    → Option SharQueue
unfolding call
settle_network release q op (tree, ok (some pos)) =
    call q.network_add_callback
      (network_added (with_predecessor op (Directory.predecessor_identity tree op.file_path pos).1))
      (record q { tree = tree })
    >>= λ q'. release q' (identity_of op.crdt)
settle_network release q op (tree, ok none) = some (record q { tree = tree })
settle_network release q op (tree, err e) = some (record q {
  tree = tree;
  network_backlog = push_waiting (parent_of op.crdt.relation) (add op) q.network_backlog;
})
settle_network release q op (tree, fault) = none

-- `op.file_path = self.to_local_path(&op.file_path)`
abbrev pub localized : SharQueue → NetworkAdd → NetworkAdd
localized q op = record op { file_path = to_local_path q op.file_path }

-- `add_network_operation_inner`; what its flag decides is `release`.
unfoldable pub add_network_operation_inner :
    (SharQueue → Identity → Option SharQueue) → SharQueue → NetworkAdd → Option SharQueue
unfolding settle_network
add_network_operation_inner release q op =
    if same (identity_of op.crdt) sentinel
    then some (record q { counter = max q.counter op.crdt.id })
    else settle_network release (record q { counter = max q.counter op.crdt.id }) (localized q op)
        (Directory.add_crdt q.tree (to_local_path q op.file_path) op.row op.crdt)

abbrev pub target : Remove → Identity
target op = (op.id, op.peer)

-- What `remove_operation` makes of the tree's answer.
unfoldable pub settle_remove :
    SharQueue
    → Remove
    → SharDirectory × Result (Option (ℕ × ℕ))
    → Option (SharQueue × Option (ℕ × ℕ))
settle_remove q op (tree, ok pos) = some (record q { tree = tree }, pos)
settle_remove q op (tree, err e) = some (
  record q {
    tree = tree;
    network_backlog = push_waiting (target op) (remove op) q.network_backlog;
  },
  none,
)
settle_remove q op (tree, fault) = none

unfoldable pub remove_operation : SharQueue → Remove → Option (SharQueue × Option (ℕ × ℕ))
unfolding settle_remove
remove_operation q op =
    if same (target op) sentinel
    then some (q, none)
    else settle_remove q op (Directory.remove_crdt q.tree op.file_path op.row (target op))

unfoldable pub remove_network_operation : SharQueue → Remove → Option SharQueue
unfolding remove_operation call
remove_network_operation q op =
    let local : Remove = record op { file_path = to_local_path q op.file_path } in
    remove_operation q local >>= λ r. elim r.1 [
      | none ↦ some r.0
      | some pos ↦ call r.0.network_remove_callback (network_removed local) r.0
    ]

unfoldable pub remove_ide_operation : SharQueue → Remove → Option SharQueue
unfolding remove_operation call
remove_ide_operation q op = remove_operation q op >>= λ r. elim r.1 [
  | none ↦ some r.0
  | some pos ↦
      call r.0.ide_remove_callback
        (ide_removed (record op { file_path = to_relative_path r.0 op.file_path })) r.0
]

unfoldable pub queue_network_dependants : SharQueue → Identity → Option SharQueue
unfolding waiting
queue_network_dependants q k = some (record q {
  network_backlog = HashMap.remove k q.network_backlog;
  network_worklist = q.network_worklist ++ waiting k q.network_backlog;
})

-- One round of `drain_network_worklist`.
unfoldable pub apply_network : SharQueue → NetworkOp → Option SharQueue
unfolding add_network_operation_inner queue_network_dependants remove_network_operation
apply_network q (add op) = add_network_operation_inner queue_network_dependants q op
apply_network q (remove op) = remove_network_operation q op

-- `drain_network_worklist`, on fuel.
unfoldable pub drain_network : ℕ → SharQueue → Option SharQueue
unfolding apply_network
drain_network zero q = none
drain_network (suc fuel) q = elim q.network_worklist [
  | [] ↦ some q
  | op ∷ rest ↦
      apply_network (record q { network_worklist = rest }) op >>= λ q'. drain_network fuel q'
]

unfoldable pub network_fuel : SharQueue → ℕ
network_fuel q =
    let pending = backlog_size q.network_backlog + length q.network_worklist in
    suc (pending * (pending + 2))

unfoldable pub drain_network_worklist : SharQueue → Option SharQueue
unfolding drain_network
drain_network_worklist q = drain_network (network_fuel q) q

unfoldable pub clear_network_backlog : SharQueue → Identity → Option SharQueue
unfolding drain_network_worklist
clear_network_backlog q k = elim (HashMap.get k q.network_backlog) [
  | none ↦ some q
  | some ops ↦ queue_network_dependants q k >>= drain_network_worklist
]

unfoldable pub add_network_operation : SharQueue → NetworkAdd → Option SharQueue
unfolding clear_network_backlog
add_network_operation q op = add_network_operation_inner clear_network_backlog q op
