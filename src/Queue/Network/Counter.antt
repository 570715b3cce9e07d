-- ===== src/Queue/Network/Counter.antt =====
-- shar/core/queue.rs: what the network's path makes of the counter, exactly.
use mathlib.Core.Option
use shario.Prelude.{
  ℕ, zero, suc, ◌≤◌, max, Option, none, some, List, [], ◌∷◌, All, ◌≡◌, refl, ap, ◌∙◌, arith, subst,
  Identity, same, identity_eq, Bool, true, false, Bool-cases, Option-cases, inl, inr, sym,
  if◌then◌else◌,
}
use shario.Types.{
  Result, ok, err, fault, NetworkAdd, NetworkOp, add, remove, Remove, identity_of, parent_of,
}
use shario.HashMap
use shario.HashMap.{HashMap}
use shario.Tree.Document.{All-append}
use shario.Tree.Directory.{SharDirectory}
use shario.Queue.State.{
  SharQueue, Call, network_removed, >>=-eq-some, call, to_local_path, waiting, push_waiting,
}
use shario.Queue.Network.{
  add_network_operation, add_network_operation_inner, settle_network, localized, sentinel, target,
  settle_remove, remove_operation, remove_network_operation, queue_network_dependants,
  apply_network, drain_network, drain_network_worklist, network_fuel, clear_network_backlog,
}

-- The id of an addition is at most the counter.
abbrev pub IsCovered : ℕ → NetworkOp → Type 0
IsCovered counter (add op) = op.crdt.id ≤ counter
IsCovered counter (remove op) = Unit

abbrev pub BacklogCovered : ℕ → HashMap Identity (List NetworkOp) → Type 0
BacklogCovered counter [] = Unit
BacklogCovered counter ((k, ops) ∷ m) = All (IsCovered counter) ops × BacklogCovered counter m

-- No addition of the network that waits has an id above the counter.
pub record WaitsCovered (q : SharQueue) : Type 0 where
  pub backlog : BacklogCovered q.counter q.network_backlog
  pub worklist : All (IsCovered q.counter) q.network_worklist

pub IsCovered-later : (n m : ℕ) (op : NetworkOp) → n ≤ m → IsCovered n op → IsCovered m op
IsCovered-later n m (add op) le h = omega (arith, le, h)
IsCovered-later n m (remove op) le h = tt

All-later : (n m : ℕ) (ops : List NetworkOp) → n ≤ m → All (IsCovered n) ops → All (IsCovered m) ops
All-later n m [] le h = tt
All-later n m (op ∷ ops) le h = (IsCovered-later n m op le h.0, All-later n m ops le h.1)

BacklogCovered-later :
    (n m : ℕ) (b : HashMap Identity (List NetworkOp))
    → n ≤ m
    → BacklogCovered n b
    → BacklogCovered m b
BacklogCovered-later n m [] le h = tt
BacklogCovered-later n m ((k, ops) ∷ b) le h =
    (All-later n m ops le h.0, BacklogCovered-later n m b le h.1)

remove-BacklogCovered :
    (n : ℕ) (k : Identity) (b : HashMap Identity (List NetworkOp))
    → BacklogCovered n b
    → BacklogCovered n (HashMap.remove k b)
unfolding HashMap.remove
remove-BacklogCovered n k [] h = tt
remove-BacklogCovered n k ((j, ops) ∷ b) h = elim (Bool-cases (same j k)) [
  | inl e ↦ rw e (remove-BacklogCovered n k b h.1)
  | inr e ↦ rw e (h.0, remove-BacklogCovered n k b h.1)
]

waiting-Covered :
    (n : ℕ) (k : Identity) (b : HashMap Identity (List NetworkOp))
    → BacklogCovered n b
    → All (IsCovered n) (waiting k b)
unfolding waiting HashMap.get
waiting-Covered n k [] h = tt
waiting-Covered n k ((j, ops) ∷ b) h = elim (Bool-cases (same j k)) [
  | inl e ↦ subst found (sym e) h.0
  | inr e ↦ subst found (sym e) (waiting-Covered n k b h.1)
]
  where
    found : Bool → Type 0
    found c =
        All (IsCovered n) (elim (if c then some ops else HashMap.get k b) as (λ o. List NetworkOp) [
          | some ops ↦ ops
          | none ↦ []
        ])

push-BacklogCovered :
    (n : ℕ) (k : Identity) (op : NetworkOp) (b : HashMap Identity (List NetworkOp))
    → IsCovered n op
    → BacklogCovered n b
    → BacklogCovered n (push_waiting k op b)
unfolding push_waiting HashMap.insert
push-BacklogCovered n k op b covered h = (
  (All-append (IsCovered n) (waiting k b) (op ∷ [])).1 (waiting-Covered n k b h, (covered, tt)),
  remove-BacklogCovered n k b h,
)

-- The counter is as it was, and still covers what waits.
pub record Settles (q q' : SharQueue) : Type 0 where
  pub same_counter : q'.counter ≡ q.counter
  pub covered : WaitsCovered q'

Settles-trans : {q r s : SharQueue} → Settles q r → Settles r s → Settles q s
Settles-trans a b = record { same_counter = b.same_counter ∙ a.same_counter; covered = b.covered }

rested : {q r q' : SharQueue} → Settles q r → some r ≡ some q' → Settles q q'
rested {q} {r} {q'} f e = subst (Settles q) same_queue f
  where
    same_queue : r ≡ q'
    same_queue = cc e

Settles-refl : {q : SharQueue} → WaitsCovered q → Settles q q
Settles-refl h = record { same_counter = refl; covered = h }

-- A change of the tree and of the backlog.
with_backlog :
    (q : SharQueue) (tree : SharDirectory) (backlog : HashMap Identity (List NetworkOp))
    → WaitsCovered q
    → BacklogCovered q.counter backlog
    → Settles q (record q { tree = tree; network_backlog = backlog })
with_backlog q tree backlog h b = record {
  same_counter = refl;
  covered = record { backlog = b; worklist = h.worklist };
}

abbrev IsSettling : (SharQueue → Identity → Option SharQueue) → Type 0
IsSettling release =
    (q : SharQueue) (k : Identity) (q' : SharQueue)
    → WaitsCovered q
    → release q k ≡ some q'
    → Settles q q'

call-Settles :
    (set : Bool) (c : Call) (q q' : SharQueue)
    → WaitsCovered q
    → call set c q ≡ some q'
    → Settles q q'
unfolding call
call-Settles true c q q' h e =
    rested
      (record {
        same_counter = refl;
        covered = record { backlog = h.backlog; worklist = h.worklist };
      })
      e
call-Settles false c q q' h e = cc

settle-Settles :
    (release : SharQueue → Identity → Option SharQueue)
    → IsSettling release
    → (q : SharQueue) (op : NetworkAdd) (r : SharDirectory × Result (Option (ℕ × ℕ)))
      (q' : SharQueue)
    → WaitsCovered q
    → op.crdt.id ≤ q.counter
    → settle_network release q op r ≡ some q'
    → Settles q q'
unfolding settle_network
settle-Settles release settling q op (tree, ok (some pos)) q' h le e =
    let (q₁, told, freed) = >>=-eq-some _ (λ r. release r (identity_of op.crdt)) e in
    let grown = with_backlog q tree q.network_backlog h h.backlog in
    let calls = call-Settles _ _ (record q { tree = tree }) q₁ grown.covered told in
    Settles-trans grown
      (Settles-trans calls (settling q₁ (identity_of op.crdt) q' calls.covered freed))
settle-Settles release settling q op (tree, ok none) q' h le e =
    rested (with_backlog q tree q.network_backlog h h.backlog) e
settle-Settles release settling q op (tree, err x) q' h le e =
    rested
      (with_backlog q tree _ h (
        push-BacklogCovered q.counter (parent_of op.crdt.relation) (add op) q.network_backlog le
          h.backlog))
      e
settle-Settles release settling q op (tree, fault) q' h le e = cc

-- An addition raises the counter to its id, and nothing that it releases raises it further.
abbrev pub Raised : SharQueue → ℕ → SharQueue → Type 0
Raised q id q' = (q'.counter ≡ max q.counter id) × WaitsCovered q'

inner-Raised :
    (release : SharQueue → Identity → Option SharQueue)
    → IsSettling release
    → (q : SharQueue) (op : NetworkAdd) (q' : SharQueue) → WaitsCovered q
    → add_network_operation_inner release q op ≡ some q'
    → Raised q op.crdt.id q'
unfolding add_network_operation_inner
inner-Raised release settling q op q' h e =
    let raised = max q.counter op.crdt.id in
    let above : q.counter ≤ raised = omega arith in
    let q₀ : SharQueue = record q { counter = raised } in
    let h₀ : WaitsCovered q₀ = record {
      backlog = BacklogCovered-later q.counter raised q.network_backlog above h.backlog;
      worklist = All-later q.counter raised q.network_worklist above h.worklist;
    } in
    let f : Settles q₀ q' = elim (Bool-cases (same (identity_of op.crdt) sentinel)) [
      | inl root ↦ rested (Settles-refl h₀) (rw root at e)
      | inr other ↦
          settle-Settles release settling q₀ (localized q op) _ q' h₀ (omega arith) (rw other at e)
    ] in
    (f.same_counter, f.covered)

queued-Settles : IsSettling queue_network_dependants
unfolding queue_network_dependants
queued-Settles q k q' h e =
    rested
      (record {
        same_counter = refl;
        covered = record {
          backlog = remove-BacklogCovered q.counter k q.network_backlog h.backlog;
          worklist =
              (All-append (IsCovered q.counter) q.network_worklist (waiting k q.network_backlog)).1
                (h.worklist, waiting-Covered q.counter k q.network_backlog h.backlog);
        };
      })
      e

removed-Settles :
    (q : SharQueue) (op : Remove) (r : SharDirectory × Result (Option (ℕ × ℕ)))
    (out : SharQueue × Option (ℕ × ℕ))
    → WaitsCovered q
    → settle_remove q op r ≡ some out
    → Settles q out.0
unfolding settle_remove
removed-Settles q op (tree, ok pos) out h e =
    rested (with_backlog q tree q.network_backlog h h.backlog) (ap (Option.map (λ o. o.0)) e)
removed-Settles q op (tree, err x) out h e =
    rested
      (with_backlog q tree _ h
        (push-BacklogCovered q.counter (target op) (remove op) q.network_backlog tt h.backlog))
      (ap (Option.map (λ o. o.0)) e)
removed-Settles q op (tree, fault) out h e = cc

remove_operation-Settles :
    (q : SharQueue) (op : Remove) (out : SharQueue × Option (ℕ × ℕ))
    → WaitsCovered q
    → remove_operation q op ≡ some out
    → Settles q out.0
unfolding remove_operation
remove_operation-Settles q op out h e = elim (Bool-cases (same (target op) sentinel)) [
  | inl root ↦ rested (Settles-refl h) (ap (Option.map (λ o. o.0)) (rw root at e))
  | inr other ↦ removed-Settles q op _ out h (rw other at e)
]

announced-Settles :
    (op : Remove) (out : SharQueue × Option (ℕ × ℕ)) (q' : SharQueue)
    → WaitsCovered out.0
    → (elim out.1 as (λ o. Option SharQueue) [
      | none ↦ some out.0
      | some pos ↦ call out.0.network_remove_callback (network_removed op) out.0
    ])
      ≡ some q'
    → Settles out.0 q'
announced-Settles op (q, none) q' h e = rested (Settles-refl h) e
announced-Settles op (q, some pos) q' h e = call-Settles _ (network_removed op) q q' h e

pub remove_network_operation-Settles :
    (q : SharQueue) (op : Remove) (q' : SharQueue)
    → WaitsCovered q
    → remove_network_operation q op ≡ some q'
    → Settles q q'
unfolding remove_network_operation
remove_network_operation-Settles q op q' h e =
    let local : Remove = record op { file_path = to_local_path q op.file_path } in
    let (out, gone, told) = >>=-eq-some (remove_operation q local) _ e in
    let first = remove_operation-Settles q local out h gone in
    Settles-trans first (announced-Settles local out q' first.covered told)

-- An addition that waited has raised the counter already.
apply_network-Settles :
    (q : SharQueue) (op : NetworkOp) (q' : SharQueue)
    → WaitsCovered q
    → IsCovered q.counter op
    → apply_network q op ≡ some q'
    → Settles q q'
unfolding apply_network
apply_network-Settles q (add op) q' h le e =
    let (total, covered) = inner-Raised queue_network_dependants queued-Settles q op q' h e in
    record { same_counter = omega (arith, total, le); covered = covered }
apply_network-Settles q (remove op) q' h le e = remove_network_operation-Settles q op q' h e

drain_network-Settles :
    (fuel : ℕ) (q q' : SharQueue) → WaitsCovered q → drain_network fuel q ≡ some q' → Settles q q'
unfolding drain_network
drain_network-Settles zero q q' h e = cc
drain_network-Settles (suc fuel) q q' h e =
    by_list (drain_network-Settles fuel) q.network_worklist refl
  where
    by_list :
        ((r : SharQueue) (r' : SharQueue)
          → WaitsCovered r
          → drain_network fuel r ≡ some r'
          → Settles r r')
        → (l : List NetworkOp) → q.network_worklist ≡ l
        → Settles q q'
    by_list later [] w =
        rested
          (record { same_counter = refl; covered = record { backlog = h.backlog; worklist = tt } })
          (rw w at e)
    by_list later (op ∷ rest) w =
        let (q₁, round, more) =
          >>=-eq-some (apply_network (record q { network_worklist = rest }) op) (drain_network fuel)
            (rw w at e) in
        let (first, left) = subst (All (IsCovered q.counter)) w h.worklist in
        let popped : WaitsCovered (record q { network_worklist = rest }) = record {
          backlog = h.backlog;
          worklist = left;
        } in
        let applied = apply_network-Settles _ op q₁ popped first round in
        let drained = later q₁ q' applied.covered more in
        record {
          same_counter = drained.same_counter ∙ applied.same_counter;
          covered = drained.covered;
        }

cleared-Settles : IsSettling clear_network_backlog
unfolding clear_network_backlog drain_network_worklist
cleared-Settles q k q' h e = elim (Option-cases (HashMap.get k q.network_backlog)) [
  | inl g ↦ rested (Settles-refl h) (rw (g, clear_network_backlog) at e)
  | inr (ops, g) ↦
      let (q₁, queued, drained) =
        >>=-eq-some (queue_network_dependants q k) drain_network_worklist
          (rw (g, clear_network_backlog) at e) in
      let first = queued-Settles q k q₁ h queued in
      Settles-trans first (drain_network-Settles (network_fuel q₁) q₁ q' first.covered drained)
]

pub add_network_operation-Raised :
    (q : SharQueue) (op : NetworkAdd) (q' : SharQueue)
    → WaitsCovered q
    → add_network_operation q op ≡ some q'
    → Raised q op.crdt.id q'
unfolding add_network_operation
add_network_operation-Raised q op q' h e =
    inner-Raised clear_network_backlog cleared-Settles q op q' h e
