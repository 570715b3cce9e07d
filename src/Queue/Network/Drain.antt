-- ===== src/Queue/Network/Drain.antt =====
-- shar/core/queue.rs, `drain_network_worklist`: the end of its loop.
use shario.Prelude.{
  ℕ, zero, suc, ◌+◌, ◌*◌, ◌≤◌, ◌<◌, Option, none, some, List, [], ◌∷◌, ◌≡◌, ◌⊎◌, refl, ap, ◌∙◌,
  arith, Option-cases, inl, inr, Identity, length, identity_eq, nat_eq, length-append, Bool-cases,
  same, true, false, Bool, max,
}
use shario.Types.{
  Result, ok, err, fault, NetworkAdd, NetworkOp, Remove, add, remove, parent_of, identity_of,
}
use shario.Tree.Directory
use shario.Tree.Directory.{SharDirectory}
use shario.Queue.State.{
  Call, network_removed, SharQueue, ◌>>=◌, >>=-eq-some, call, to_local_path, waiting, backlog_size,
  backlog_size-remove, backlog_size-push,
}
use shario.Queue.Ide.Drain.{weight_lower, fuel_enough}
use shario.Queue.Network.{
  add_network_operation_inner, settle_network, settle_remove, remove_operation,
  remove_network_operation, apply_network, queue_network_dependants, drain_network,
  drain_network_worklist, network_fuel, target, localized, sentinel,
}

abbrev pending : SharQueue → ℕ
pending q = backlog_size q.network_backlog + length q.network_worklist

-- After a round: fewer operations are pending, or as many, and fewer of them on the worklist.
abbrev Lower : SharQueue → SharQueue → Type 0
Lower q q' =
    (pending q' < pending q + 1)
    ⊎ ((pending q' ≤ pending q + 1) × (length q'.network_worklist < length q.network_worklist + 1))

call-Pending :
    (b : Bool) (c : Call) (q q' : SharQueue)
    → call b c q ≡ some q'
    → (q'.network_backlog ≡ q.network_backlog) × (q'.network_worklist ≡ q.network_worklist)
unfolding call
call-Pending true c q q' e = ground arith
call-Pending false c q q' e = ground arith

queue-Lower :
    (q q₁ q' : SharQueue) (k : Identity)
    → q₁.network_backlog ≡ q.network_backlog
    → q₁.network_worklist ≡ q.network_worklist
    → queue_network_dependants q₁ k ≡ some q'
    → Lower q q'
unfolding queue_network_dependants
queue-Lower q q₁ q' k b w e = ground (
  arith,
  backlog_size-remove k q₁.network_backlog,
  length-append q₁.network_worklist (waiting k q₁.network_backlog),
  ap (backlog_size) b,
  ap length w,
)

-- `q` is the queue without the operation that the round took off the worklist.
settle_network-Lower :
    (q : SharQueue) (op : NetworkAdd) (r : SharDirectory × Result (Option (ℕ × ℕ))) (q' : SharQueue)
    → settle_network queue_network_dependants q op r ≡ some q'
    → Lower q q'
unfolding settle_network queue_network_dependants
settle_network-Lower q op (tree, ok (some pos)) q' e =
    let (q₁, told, freed) =
      >>=-eq-some (call q.network_add_callback _ (record q { tree = tree }))
        (λ s. queue_network_dependants s (identity_of op.crdt)) e in
    let (same_backlog, same_worklist) =
      call-Pending q.network_add_callback _ (record q { tree = tree }) q₁ told in
    queue-Lower q q₁ q' (identity_of op.crdt) same_backlog same_worklist freed
settle_network-Lower q op (tree, ok none) q' e = ground arith
settle_network-Lower q op (tree, err x) q' e =
    ground (arith, backlog_size-push (parent_of op.crdt.relation) (add op) q.network_backlog)
settle_network-Lower q op (tree, fault) q' e = cc

add-Lower :
    (q : SharQueue) (op : NetworkAdd) (q' : SharQueue)
    → add_network_operation_inner queue_network_dependants q op ≡ some q'
    → Lower q q'
unfolding add_network_operation_inner
add-Lower q op q' e = elim (Bool-cases (same (identity_of op.crdt) sentinel)) [
  | inl at_root ↦ ground arith
  | inr elsewhere ↦
      settle_network-Lower (record q { counter = max q.counter op.crdt.id }) (localized q op)
        (Directory.add_crdt q.tree (to_local_path q op.file_path) op.row op.crdt) q' (ground arith)
]

settle_remove-Lower :
    (q : SharQueue) (op : Remove) (r : SharDirectory × Result (Option (ℕ × ℕ)))
    (s : SharQueue × Option (ℕ × ℕ))
    → settle_remove q op r ≡ some s
    → Lower q s.0
unfolding settle_remove
settle_remove-Lower q op (tree, ok pos) s e = ground arith
settle_remove-Lower q op (tree, err x) s e =
    ground (arith, backlog_size-push (target op) (remove op) q.network_backlog)
settle_remove-Lower q op (tree, fault) s e = cc

remove_operation-Lower :
    (q : SharQueue) (op : Remove) (s : SharQueue × Option (ℕ × ℕ))
    → remove_operation q op ≡ some s
    → Lower q s.0
unfolding remove_operation
remove_operation-Lower q op s e = elim (Bool-cases (same (target op) sentinel)) [
  | inl at_root ↦ ground arith
  | inr elsewhere ↦
      settle_remove-Lower q op (Directory.remove_crdt q.tree op.file_path op.row (target op)) s
        (ground arith)
]

told-Lower :
    (q : SharQueue) (op : Remove) (s : SharQueue × Option (ℕ × ℕ)) (q' : SharQueue)
    → Lower q s.0
    → elim s.1 [
      | none ↦ some s.0
      | some pos ↦ call s.0.network_remove_callback (network_removed op) s.0
    ]
      ≡ some q'
    → Lower q q'
told-Lower q op (r, none) q' low e = ground arith
told-Lower q op (r, some pos) q' low e =
    let (b, w) = call-Pending r.network_remove_callback (network_removed op) r q' e in
    ground (arith, ap (backlog_size) b, ap length w)

round-Lower :
    (q : SharQueue) (op : NetworkOp) (q' : SharQueue) → apply_network q op ≡ some q' → Lower q q'
unfolding apply_network remove_network_operation
round-Lower q (add op) q' e = add-Lower q op q' e
round-Lower q (remove op) q' e =
    let (s, removed, told) =
      >>=-eq-some (remove_operation q (record op { file_path = to_local_path q op.file_path })) _
        e in
    told-Lower q (record op { file_path = to_local_path q op.file_path }) s q'
      (remove_operation-Lower q _ s removed) told

drain_network-step :
    (fuel : ℕ) (q : SharQueue) (op : NetworkOp) (rest : List NetworkOp)
    → q.network_worklist ≡ op ∷ rest
    → drain_network (suc fuel) q
      ≡ (apply_network (record q { network_worklist = rest }) op >>= drain_network fuel)
unfolding drain_network
drain_network-step fuel q op rest w = rw (w, drain_network)

-- Some round of the loop panics.
pub data Panics : SharQueue → Type 0 where
  now :
      {q : SharQueue} (op : NetworkOp) (rest : List NetworkOp)
      → q.network_worklist ≡ op ∷ rest
      → apply_network (record q { network_worklist = rest }) op ≡ none
      → Panics q
  later :
      {q : SharQueue} (q' : SharQueue) (op : NetworkOp) (rest : List NetworkOp)
      → q.network_worklist ≡ op ∷ rest
      → apply_network (record q { network_worklist = rest }) op ≡ some q'
      → Panics q'
      → Panics q

abbrev Ends : ℕ → SharQueue → Type 0
Ends fuel q =
    ((q' : SharQueue) × (drain_network fuel q ≡ some q') × (q'.network_worklist ≡ [])) ⊎ Panics q

round-fits :
    (fuel t : ℕ) (q q₁ : SharQueue) (rest : List NetworkOp)
    → length q.network_worklist ≡ suc (length rest)
    → pending q ≤ t
    → pending q * (t + 1) + length q.network_worklist < suc fuel
    → Lower (record q { network_worklist = rest }) q₁
    → (pending q₁ ≤ t) × (pending q₁ * (t + 1) + length q₁.network_worklist < fuel)
round-fits fuel t q q₁ rest size bound lt low =
    let part : (pending q₁ < pending q)
        ⊎ ((pending q₁ ≤ pending q) × (length q₁.network_worklist < length q.network_worklist)) =
      ground arith in
    let fits : pending q₁ ≤ pending q = ground arith in
    (
      omega arith,
      omega (
        arith,
        weight_lower t (pending q) (pending q₁) (length q.network_worklist)
            (length q₁.network_worklist) bound (omega arith) part,
      ),
    )

drain_network-Ends :
    (fuel t : ℕ) (q : SharQueue)
    → pending q ≤ t
    → pending q * (t + 1) + length q.network_worklist < fuel
    → Ends fuel q
unfolding drain_network
drain_network-Ends zero t q bound lt = absurd (omega arith)
drain_network-Ends (suc fuel) t q bound lt =
    by_list q.network_worklist refl (drain_network-Ends fuel t)
  where
    by_rest :
        (q₁ : SharQueue) (op : NetworkOp) (rest : List NetworkOp)
        (w : q.network_worklist ≡ op ∷ rest)
        → (good : apply_network (record q { network_worklist = rest }) op ≡ some q₁) → Ends fuel q₁
        → Ends (suc fuel) q
    by_rest q₁ op rest w good (inl (q', run, empty)) = inl (
      q',
      drain_network-step fuel q op rest w ∙ ap (λ m. m >>= drain_network fuel) good ∙ run,
      empty,
    )
    by_rest q₁ op rest w good (inr p) = inr (later q₁ op rest w good p)

    by_list :
        (l : List NetworkOp)
        → q.network_worklist ≡ l
        → ((r : SharQueue)
            → pending r ≤ t
            → pending r * (t + 1) + length r.network_worklist < fuel
            → Ends fuel r)
        → Ends (suc fuel) q
    by_list [] w ih = inl (q, ground arith, w)
    by_list (op ∷ rest) w ih =
        elim (Option-cases (apply_network (record q { network_worklist = rest }) op)) [
          | inl bad ↦ inr (now op rest w bad)
          | inr (q₁, good) ↦
              let size : length q.network_worklist ≡ suc (length rest) = rw (w, length) in
              let (fits, less) =
                round-fits fuel t q q₁ rest size bound lt
                  (round-Lower (record q { network_worklist = rest }) op q₁ good) in
              by_rest q₁ op rest w good (ih q₁ fits less)
        ]

-- Draining the network's worklist ends: unless some round panics, it gives a queue whose worklist is
-- empty. In particular, the fuel is enough for every queue.
pub drain_network_worklist-Ends :
    (q : SharQueue)
    → ((q' : SharQueue) × (drain_network_worklist q ≡ some q') × (q'.network_worklist ≡ []))
      ⊎ Panics q
unfolding drain_network_worklist network_fuel
drain_network_worklist-Ends q =
    drain_network-Ends (network_fuel q) (pending q) q (omega arith)
      (fuel_enough (backlog_size q.network_backlog) (length q.network_worklist))
