-- ===== src/StateRequest.antt =====
-- state_request.rs: a replica's whole state as operations for a peer that joins.
pub mod Bytes
pub mod Transfer
pub mod Exchange
use shario.Prelude.{List, [], ◌∷◌, ◌++◌, false, if◌then◌else◌, Identity, Option}
use shario.Types.{PathBuf, CrdtRelation, NetworkOp, add, remove, Result}
use shario.Tree.File.{Characters}
use shario.Tree.Directory
use shario.Tree.Directory.Load
use shario.Queue.State.{SharQueue, to_relative_path}
use shario.Queue.Wrap.{QueueWrap, receive_all}

abbrev relative_state : SharQueue → List (PathBuf × Characters) → List (PathBuf × Characters)
relative_state q [] = []
relative_state q ((path, chars) ∷ rest) = (to_relative_path q path, chars) ∷ relative_state q rest

-- `SharQueue::full_state`
unfoldable pub queue_state : SharQueue → List (PathBuf × Characters)
queue_state q = relative_state q (Directory.full_state q.tree)

-- `SharQueue::identities`
abbrev pub queue_identities : SharQueue → Result Load.Shown
queue_identities q = Load.identities q.tree

abbrev pub added : PathBuf → Identity → CrdtRelation → NetworkOp
added path k relation = add (record {
  file_path = path;
  crdt = record { id = k.0; peer = k.1; relation = record relation { deleted = false } };
  row = 0;
})

abbrev pub removed : PathBuf → Identity → NetworkOp
removed path k = remove (record { file_path = path; id = k.0; peer = k.1; row = 0 })

-- The operations of a file's characters, in the order of the map.
unfoldable pub file_ops : PathBuf → Characters → List NetworkOp
file_ops path [] = []
file_ops path ((k, relation) ∷ chars) =
    let rest = file_ops path chars in
    added path k relation ∷ (if relation.deleted then removed path k ∷ rest else rest)

unfoldable pub to_network_ops : List (PathBuf × Characters) → List NetworkOp
unfolding file_ops
to_network_ops [] = []
to_network_ops ((path, chars) ∷ state) = file_ops path chars ++ to_network_ops state

-- The loop of `request_state` over the decoded operations.
abbrev pub apply_state : QueueWrap → List NetworkOp → Option QueueWrap
apply_state w state = receive_all w state
