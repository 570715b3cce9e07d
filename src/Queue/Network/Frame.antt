-- ===== src/Queue/Network/Frame.antt =====
-- shar/core/queue.rs: what the network's path leaves alone, and how the counter follows it.
use mathlib.Core.Option
use shario.Prelude.{
  ℕ, zero, suc, ◌≤◌, max, Option, none, some, List, [], ◌∷◌, ◌++◌, ◌≡◌, refl, ap, ◌∙◌, arith, subst,
  Identity, same, identity_eq, Bool, true, false, Bool-cases, inl, inr,
}
use shario.Types.{Result, ok, err, fault, NetworkAdd, NetworkOp, add, remove, Remove, identity_of}
use shario.HashMap
use shario.HashMap.{HashMap}
use shario.Tree.Directory.{SharDirectory}
use shario.Callbacks.{broadcasts, broadcasts-quiet, sent_by}
use shario.Queue.State.{SharQueue, Call, network_removed, >>=-eq-some, call, to_local_path}
use shario.Queue.Network.{
  add_network_operation, add_network_operation_inner, settle_network, localized, sentinel, target,
  settle_remove, remove_operation, remove_network_operation, queue_network_dependants,
  apply_network, drain_network, drain_network_worklist, network_fuel, clear_network_backlog,
}

pub record Follows (q q' : SharQueue) : Type 0 where
  pub tags : q'.tag_identities ≡ q.tag_identities
  pub peer : q'.peer ≡ q.peer
  pub ide_backlog : q'.ide_backlog ≡ q.ide_backlog
  pub ide_tag_backlog : q'.ide_tag_backlog ≡ q.ide_tag_backlog
  pub ide_worklist : q'.ide_worklist ≡ q.ide_worklist
  pub silent : broadcasts q'.calls ≡ broadcasts q.calls
  pub counter : q.counter ≤ q'.counter

pub Follows-refl : (q : SharQueue) → Follows q q
Follows-refl q = record {
  tags = refl;
  peer = refl;
  ide_backlog = refl;
  ide_tag_backlog = refl;
  ide_worklist = refl;
  silent = refl;
  counter = omega arith;
}

pub Follows-trans : {q r s : SharQueue} → Follows q r → Follows r s → Follows q s
Follows-trans a b = record {
  tags = b.tags ∙ a.tags;
  peer = b.peer ∙ a.peer;
  ide_backlog = b.ide_backlog ∙ a.ide_backlog;
  ide_tag_backlog = b.ide_tag_backlog ∙ a.ide_tag_backlog;
  ide_worklist = b.ide_worklist ∙ a.ide_worklist;
  silent = b.silent ∙ a.silent;
  counter = omega (arith, a.counter, b.counter);
}

-- A change of the tree, of the counter and of what belongs to the network.
settled :
    (q : SharQueue) (tree : SharDirectory) (counter : ℕ)
    (backlog : HashMap Identity (List NetworkOp)) (worklist : List NetworkOp)
    → q.counter ≤ counter
    → Follows q (record q {
      tree = tree;
      counter = counter;
      network_backlog = backlog;
      network_worklist = worklist;
    })
settled q tree counter backlog worklist le = record {
  tags = refl;
  peer = refl;
  ide_backlog = refl;
  ide_tag_backlog = refl;
  ide_worklist = refl;
  silent = refl;
  counter = le;
}

le_refl : (n : ℕ) → n ≤ n
le_refl n = omega arith

landed : {q r q' : SharQueue} → Follows q r → some r ≡ some q' → Follows q q'
landed {q} {r} {q'} f e = subst (Follows q) same_queue f
  where
    same_queue : r ≡ q'
    same_queue = cc e

abbrev IsSilent : (SharQueue → Identity → Option SharQueue) → Type 0
IsSilent release =
    (q : SharQueue) (k : Identity) (q' : SharQueue) → release q k ≡ some q' → Follows q q'

called :
    (set : Bool) (c : Call) (q q' : SharQueue)
    → sent_by c ≡ []
    → call set c q ≡ some q'
    → Follows q q'
unfolding call
called true c q q' quiet e =
    landed
      (record {
        tags = refl;
        peer = refl;
        ide_backlog = refl;
        ide_tag_backlog = refl;
        ide_worklist = refl;
        silent = broadcasts-quiet q.calls c quiet;
        counter = le_refl q.counter;
      })
      e
called false c q q' quiet e = cc

settle-Follows :
    (release : SharQueue → Identity → Option SharQueue)
    → IsSilent release
    → (q : SharQueue) (op : NetworkAdd) (r : SharDirectory × Result (Option (ℕ × ℕ)))
      (q' : SharQueue)
    → settle_network release q op r ≡ some q'
    → Follows q q'
unfolding settle_network sent_by
settle-Follows release silent q op (tree, ok (some pos)) q' e =
    let (q₁, told, freed) = >>=-eq-some _ (λ r. release r (identity_of op.crdt)) e in
    Follows-trans
      (settled q tree q.counter q.network_backlog q.network_worklist (le_refl q.counter))
      (Follows-trans (called _ _ (record q { tree = tree }) q₁ refl told)
        (silent q₁ (identity_of op.crdt) q' freed))
settle-Follows release silent q op (tree, ok none) q' e =
    landed (settled q tree q.counter q.network_backlog q.network_worklist (le_refl q.counter)) e
settle-Follows release silent q op (tree, err x) q' e =
    landed (settled q tree q.counter _ q.network_worklist (le_refl q.counter)) e
settle-Follows release silent q op (tree, fault) q' e = cc

inner-Follows :
    (release : SharQueue → Identity → Option SharQueue)
    → IsSilent release
    → (q : SharQueue) (op : NetworkAdd) (q' : SharQueue)
    → add_network_operation_inner release q op ≡ some q'
    → Follows q q' × (op.crdt.id ≤ q'.counter)
unfolding add_network_operation_inner
inner-Follows release silent q op q' e =
    let raised = max q.counter op.crdt.id in
    let f : Follows (record q { counter = raised }) q' =
      elim (Bool-cases (same (identity_of op.crdt) sentinel)) [
        | inl root ↦ landed (Follows-refl _) (rw root at e)
        | inr other ↦
            settle-Follows release silent (record q { counter = raised }) (localized q op) _ q'
              (rw other at e)
      ] in
    let above : q.counter ≤ raised = omega arith in
    (
      Follows-trans (settled q q.tree raised q.network_backlog q.network_worklist above) f,
      omega (arith, f.counter),
    )

queued-Follows : IsSilent queue_network_dependants
unfolding queue_network_dependants
queued-Follows q k q' e = landed (settled q q.tree q.counter _ _ (le_refl q.counter)) e

-- What a removal leaves alone besides: it raises no counter, and releases nothing.
pub record Withdraws (q q' : SharQueue) : Type 0 where
  pub follows : Follows q q'
  pub same_counter : q'.counter ≡ q.counter
  pub network_worklist : q'.network_worklist ≡ q.network_worklist

Withdraws-refl : (q : SharQueue) → Withdraws q q
Withdraws-refl q = record { follows = Follows-refl q; same_counter = refl; network_worklist = refl }

Withdraws-trans : {q r s : SharQueue} → Withdraws q r → Withdraws r s → Withdraws q s
Withdraws-trans a b = record {
  follows = Follows-trans a.follows b.follows;
  same_counter = b.same_counter ∙ a.same_counter;
  network_worklist = b.network_worklist ∙ a.network_worklist;
}

ended : {q r q' : SharQueue} → Withdraws q r → some r ≡ some q' → Withdraws q q'
ended {q} {r} {q'} f e = subst (Withdraws q) same_queue f
  where
    same_queue : r ≡ q'
    same_queue = cc e

-- A change of the tree and of the network's backlog.
withdrawn :
    (q : SharQueue) (tree : SharDirectory) (backlog : HashMap Identity (List NetworkOp))
    → Withdraws q (record q { tree = tree; network_backlog = backlog })
withdrawn q tree backlog = record {
  follows = settled q tree q.counter backlog q.network_worklist (le_refl q.counter);
  same_counter = refl;
  network_worklist = refl;
}

removed-Withdraws :
    (q : SharQueue) (op : Remove) (r : SharDirectory × Result (Option (ℕ × ℕ)))
    (out : SharQueue × Option (ℕ × ℕ))
    → settle_remove q op r ≡ some out
    → Withdraws q out.0
unfolding settle_remove
removed-Withdraws q op (tree, ok pos) out e =
    ended (withdrawn q tree q.network_backlog) (ap (Option.map (λ o. o.0)) e)
removed-Withdraws q op (tree, err x) out e =
    ended (withdrawn q tree _) (ap (Option.map (λ o. o.0)) e)
removed-Withdraws q op (tree, fault) out e = cc

remove_operation-Withdraws :
    (q : SharQueue) (op : Remove) (out : SharQueue × Option (ℕ × ℕ))
    → remove_operation q op ≡ some out
    → Withdraws q out.0
unfolding remove_operation
remove_operation-Withdraws q op out e = elim (Bool-cases (same (target op) sentinel)) [
  | inl root ↦ ended (Withdraws-refl q) (ap (Option.map (λ o. o.0)) (rw root at e))
  | inr other ↦ removed-Withdraws q op _ out (rw other at e)
]

told-Withdraws :
    (set : Bool) (c : Call) (q q' : SharQueue)
    → sent_by c ≡ []
    → call set c q ≡ some q'
    → Withdraws q q'
unfolding call
told-Withdraws true c q q' quiet e =
    ended
      (record {
        follows = called true c q (record q { calls = q.calls ++ c ∷ [] }) quiet refl;
        same_counter = refl;
        network_worklist = refl;
      })
      e
told-Withdraws false c q q' quiet e = cc

announced-Withdraws :
    (op : Remove) (out : SharQueue × Option (ℕ × ℕ)) (q' : SharQueue)
    → (elim out.1 as (λ o. Option SharQueue) [
      | none ↦ some out.0
      | some pos ↦ call out.0.network_remove_callback (network_removed op) out.0
    ])
      ≡ some q'
    → Withdraws out.0 q'
unfolding sent_by
announced-Withdraws op (q, none) q' e = ended (Withdraws-refl q) e
announced-Withdraws op (q, some pos) q' e = told-Withdraws _ (network_removed op) q q' refl e

pub remove_network_operation-Withdraws :
    (q : SharQueue) (op : Remove) (q' : SharQueue)
    → remove_network_operation q op ≡ some q'
    → Withdraws q q'
unfolding remove_network_operation
remove_network_operation-Withdraws q op q' e =
    let local : Remove = record op { file_path = to_local_path q op.file_path } in
    let (out, gone, told) = >>=-eq-some (remove_operation q local) _ e in
    Withdraws-trans (remove_operation-Withdraws q local out gone)
      (announced-Withdraws local out q' told)

apply_network-Follows :
    (q : SharQueue) (op : NetworkOp) (q' : SharQueue) → apply_network q op ≡ some q' → Follows q q'
unfolding apply_network
apply_network-Follows q (add op) q' e =
    (inner-Follows queue_network_dependants queued-Follows q op q' e).0
apply_network-Follows q (remove op) q' e = (remove_network_operation-Withdraws q op q' e).follows

drain_network-Follows :
    (fuel : ℕ) (q q' : SharQueue) → drain_network fuel q ≡ some q' → Follows q q'
unfolding drain_network
drain_network-Follows zero q q' e = cc
drain_network-Follows (suc fuel) q q' e =
    by_list (drain_network-Follows fuel) q.network_worklist refl
  where
    by_list :
        ((r : SharQueue) (r' : SharQueue) → drain_network fuel r ≡ some r' → Follows r r')
        → (l : List NetworkOp) → q.network_worklist ≡ l
        → Follows q q'
    by_list later [] w =
        landed (settled q q.tree q.counter q.network_backlog [] (le_refl q.counter)) (rw w at e)
    by_list later (op ∷ rest) w =
        let (q₁, round, more) =
          >>=-eq-some (apply_network (record q { network_worklist = rest }) op) (drain_network fuel)
            (rw w at e) in
        Follows-trans (settled q q.tree q.counter q.network_backlog rest (le_refl q.counter))
          (Follows-trans (apply_network-Follows _ op q₁ round) (later q₁ q' more))

cleared-Follows : IsSilent clear_network_backlog
unfolding clear_network_backlog drain_network_worklist
cleared-Follows q k q' e = by_entry (HashMap.get k q.network_backlog) refl
  where
    by_entry : (o : Option (List NetworkOp)) → HashMap.get k q.network_backlog ≡ o → Follows q q'
    by_entry none g = landed (Follows-refl q) (rw (g, clear_network_backlog) at e)
    by_entry (some ops) g =
        let (q₁, queued, drained) =
          >>=-eq-some (queue_network_dependants q k) drain_network_worklist
            (rw (g, clear_network_backlog) at e) in
        Follows-trans (queued-Follows q k q₁ queued)
          (drain_network-Follows (network_fuel q₁) q₁ q' drained)

-- An addition, with all that it releases.
pub add_network_operation-Follows :
    (q : SharQueue) (op : NetworkAdd) (q' : SharQueue)
    → add_network_operation q op ≡ some q'
    → Follows q q' × (op.crdt.id ≤ q'.counter)
unfolding add_network_operation
add_network_operation-Follows q op q' e =
    inner-Follows clear_network_backlog cleared-Follows q op q' e
