-- ===== src/Queue/Ide/Drain.antt =====
-- shar/core/queue.rs, `drain_ide_worklist`: the end of its loop.
use native.Mathlib.Nat.{mul-le-mul_right, mul-add}
use shario.Prelude.{
  ℕ, zero, suc, ◌+◌, ◌*◌, ◌≤◌, ◌<◌, Option, none, some, List, [], ◌∷◌, ◌≡◌, ◌⊎◌, refl, ap, ◌∙◌,
  arith, Option-cases, inl, inr, Identity, length, identity_eq, nat_eq, length-append,
}
use shario.Types.{Result, ok, err, fault, Crdt, IdeAdd}
use shario.HashMap
use shario.Tree.Directory
use shario.Tree.Directory.{SharDirectory}
use shario.Queue.State.{
  SharQueue, ◌>>=◌, waiting, backlog_size, backlog_size-remove, backlog_size-push,
}
use shario.Queue.Ide.{
  add_ide_operation_inner, settle_ide, announce_ide, parent_identity, queue_ide_dependants,
  drain_ide, drain_ide_worklist, ide_fuel, crdt_of,
}
use shario.Queue.Ide.Frame.{drain_ide-step}

abbrev pub pending : SharQueue → ℕ
pending q = backlog_size q.ide_backlog + length q.ide_worklist

-- After a round: fewer operations are pending, or as many, and fewer of them on the worklist.
abbrev Lower : SharQueue → SharQueue → Type 0
Lower q q' =
    (pending q' < pending q + 1)
    ⊎ ((pending q' ≤ pending q + 1) × (length q'.ide_worklist < length q.ide_worklist + 1))

announce_ide-Pending :
    (op : IdeAdd) (crdt : Crdt) (pos : ℕ × ℕ) (q q' : SharQueue)
    → announce_ide op crdt pos q ≡ some q'
    → pending q' ≡ pending q
unfolding announce_ide
announce_ide-Pending op crdt pos q q' e = ground arith

-- `q` is the queue without the operation that the round took off the worklist.
settle_ide-Lower :
    (q : SharQueue) (op : IdeAdd) (parent : Identity) (crdt : Crdt)
    (r : SharDirectory × Result (Option (ℕ × ℕ))) (q' : SharQueue)
    → settle_ide queue_ide_dependants q op parent crdt r ≡ some q'
    → Lower q q'
unfolding settle_ide queue_ide_dependants
settle_ide-Lower q op parent crdt (tree, ok (some pos)) q' e = omega (
  arith,
  announce_ide-Pending op crdt pos _ q' e,
  backlog_size-remove (crdt.id, crdt.peer) q.ide_backlog,
  length-append q.ide_worklist (waiting (crdt.id, crdt.peer) q.ide_backlog),
)
settle_ide-Lower q op parent crdt (tree, ok none) q' e = ground arith
settle_ide-Lower q op parent crdt (tree, err x) q' e =
    ground (arith, backlog_size-push parent op q.ide_backlog)
settle_ide-Lower q op parent crdt (tree, fault) q' e = cc

round-Lower :
    (q : SharQueue) (op : IdeAdd) (q' : SharQueue)
    → add_ide_operation_inner queue_ide_dependants q op ≡ some q'
    → Lower q q'
unfolding add_ide_operation_inner
round-Lower q op q' e = by_parent (parent_identity q op) refl
  where
    by_tag : (o : Option ℕ) → op.parent_tag ≡ o → parent_identity q op ≡ none → Lower q q'
    by_tag none t p = ground arith
    by_tag (some tag) t p = ground arith

    by_identity :
        (parent : Identity) (o : Option Identity)
        → parent_identity q op ≡ some parent
        → HashMap.get op.tag q.tag_identities ≡ o
        → Lower q q'
    by_identity parent none p t = ground arith
    by_identity parent (some k) p t =
        settle_ide-Lower q op parent (crdt_of op k parent)
          (Directory.add_crdt q.tree op.file_path op.line_hint (crdt_of op k parent)) q'
          (ground arith)

    by_parent : (o : Option Identity) → parent_identity q op ≡ o → Lower q q'
    by_parent none p = by_tag op.parent_tag refl p
    by_parent (some parent) p = by_identity parent (HashMap.get op.tag q.tag_identities) p refl

-- Some round of the loop panics.
pub data Panics : SharQueue → Type 0 where
  now :
      {q : SharQueue} (op : IdeAdd) (rest : List IdeAdd)
      → q.ide_worklist ≡ op ∷ rest
      → add_ide_operation_inner queue_ide_dependants (record q { ide_worklist = rest }) op ≡ none
      → Panics q
  later :
      {q : SharQueue} (q' : SharQueue) (op : IdeAdd) (rest : List IdeAdd)
      → q.ide_worklist ≡ op ∷ rest
      → add_ide_operation_inner queue_ide_dependants (record q { ide_worklist = rest }) op ≡ some q'
      → Panics q'
      → Panics q

abbrev Ends : ℕ → SharQueue → Type 0
Ends fuel q = ((q' : SharQueue) × (drain_ide fuel q ≡ some q') × (q'.ide_worklist ≡ [])) ⊎ Panics q

pub weight_lower :
    (t p p' w w' : ℕ)
    → p ≤ t
    → w' ≤ p'
    → (p' < p) ⊎ ((p' ≤ p) × (w' < w))
    → p' * (t + 1) + w' < p * (t + 1) + w
weight_lower t p p' w w' bound part (inl fewer) = omega (arith, mul-le-mul_right (t + 1) fewer)
weight_lower t p p' w w' bound part (inr (most, less)) =
    omega (arith, mul-le-mul_right (t + 1) most)

round-fits :
    (fuel t : ℕ) (q q₁ : SharQueue) (rest : List IdeAdd)
    → length q.ide_worklist ≡ suc (length rest)
    → pending q ≤ t
    → pending q * (t + 1) + length q.ide_worklist < suc fuel
    → Lower (record q { ide_worklist = rest }) q₁
    → (pending q₁ ≤ t) × (pending q₁ * (t + 1) + length q₁.ide_worklist < fuel)
round-fits fuel t q q₁ rest size bound lt low =
    let part : (pending q₁ < pending q)
        ⊎ ((pending q₁ ≤ pending q) × (length q₁.ide_worklist < length q.ide_worklist)) =
      ground arith in
    let fits : pending q₁ ≤ pending q = ground arith in
    (
      omega arith,
      omega (
        arith,
        weight_lower t (pending q) (pending q₁) (length q.ide_worklist) (length q₁.ide_worklist)
            bound (omega arith) part,
      ),
    )

pub fuel_enough : (b w : ℕ) → (b + w) * ((b + w) + 1) + w < suc ((b + w) * ((b + w) + 2))
fuel_enough b w = omega (arith, mul-add (b + w) ((b + w) + 1) 1)

drain_ide-Ends :
    (fuel t : ℕ) (q : SharQueue)
    → pending q ≤ t
    → pending q * (t + 1) + length q.ide_worklist < fuel
    → Ends fuel q
unfolding drain_ide
drain_ide-Ends zero t q bound lt = absurd (omega arith)
drain_ide-Ends (suc fuel) t q bound lt = by_list q.ide_worklist refl (drain_ide-Ends fuel t)
  where
    by_rest :
        (q₁ : SharQueue) (op : IdeAdd) (rest : List IdeAdd) (w : q.ide_worklist ≡ op ∷ rest)
        → (good : add_ide_operation_inner queue_ide_dependants (record q { ide_worklist = rest }) op
            ≡ some q₁)
        → Ends fuel q₁
        → Ends (suc fuel) q
    by_rest q₁ op rest w good (inl (q', run, empty)) =
        inl (q', drain_ide-step fuel q op rest w ∙ ap (λ m. m >>= drain_ide fuel) good ∙ run, empty)
    by_rest q₁ op rest w good (inr p) = inr (later q₁ op rest w good p)

    by_list :
        (l : List IdeAdd)
        → q.ide_worklist ≡ l
        → ((r : SharQueue)
            → pending r ≤ t
            → pending r * (t + 1) + length r.ide_worklist < fuel
            → Ends fuel r)
        → Ends (suc fuel) q
    by_list [] w ih = inl (q, ground arith, w)
    by_list (op ∷ rest) w ih =
        elim (Option-cases
          (add_ide_operation_inner queue_ide_dependants (record q { ide_worklist = rest }) op)) [
            | inl bad ↦ inr (now op rest w bad)
            | inr (q₁, good) ↦
                let size : length q.ide_worklist ≡ suc (length rest) = rw (w, length) in
                let (fits, less) =
                  round-fits fuel t q q₁ rest size bound lt
                    (round-Lower (record q { ide_worklist = rest }) op q₁ good) in
                by_rest q₁ op rest w good (ih q₁ fits less)
          ]

-- Draining the IDE's worklist ends: unless some round panics, it gives a queue whose worklist is
-- empty. In particular, the fuel is enough for every queue.
pub drain_ide_worklist-Ends :
    (q : SharQueue)
    → ((q' : SharQueue) × (drain_ide_worklist q ≡ some q') × (q'.ide_worklist ≡ [])) ⊎ Panics q
unfolding drain_ide_worklist ide_fuel
drain_ide_worklist-Ends q =
    drain_ide-Ends (ide_fuel q) (pending q) q (omega arith)
      (fuel_enough (backlog_size q.ide_backlog) (length q.ide_worklist))
