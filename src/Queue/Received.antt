-- ===== src/Queue/Received.antt =====
-- queue_wrap.rs and shar/core/queue.rs: a run of operations that other peers send.
use shario.Prelude.{
  ℕ, max, true, Option, none, some, List, [], ◌∷◌, All, ◌≡◌, sym, ◌∙◌, refl, ap, subst,
}
use shario.Types.{NetworkOp, add, remove}
use shario.Queue.State.{SharQueue, >>=-eq-some}
use shario.Queue.Network
use shario.Queue.Network.Frame.{
  Follows, Follows-refl, Follows-trans, add_network_operation-Follows,
  remove_network_operation-Withdraws,
}
use shario.Queue.Network.Counter.{
  IsCovered, IsCovered-later, WaitsCovered, add_network_operation-Raised,
  remove_network_operation-Settles,
}
use shario.Queue.Wrap.{QueueWrap, with_queue, receive, receive_all, apply, receive-applies}

abbrev Received : QueueWrap → NetworkOp → QueueWrap → Type 0
Received w op w' =
    Follows w.queue w'.queue
    × IsCovered w'.queue.counter op
    × (w'.queue_initialized ≡ w.queue_initialized)

with_queue-eq-some :
    (w : QueueWrap) (o : Option SharQueue) (w' : QueueWrap)
    → with_queue w o ≡ some w'
    → (q : SharQueue) × (o ≡ some q) × (record w { queue = q } ≡ w')
with_queue-eq-some w none w' e = cc
with_queue-eq-some w (some q) w' e = (q, refl, cc)

receive-Received :
    (w : QueueWrap) (op : NetworkOp) (w' : QueueWrap)
    → w.queue_initialized ≡ true
    → receive w op ≡ some w'
    → Received w op w'
unfolding apply
receive-Received w (add op) w' ready e =
    let (q, handled, made) =
      with_queue-eq-some w (Network.add_network_operation w.queue op) w'
        (sym (receive-applies w (add op) ready) ∙ e) in
    let (follows, covered) = add_network_operation-Follows w.queue op q handled in
    subst (Received w (add op)) made (follows, covered, refl)
receive-Received w (remove op) w' ready e =
    let (q, handled, made) =
      with_queue-eq-some w (Network.remove_network_operation w.queue op) w'
        (sym (receive-applies w (remove op) ready) ∙ e) in
    subst (Received w (remove op)) made
      ((remove_network_operation-Withdraws w.queue op q handled).follows, tt, refl)

-- Operations that other peers send, one after another, to a replica whose queue is there, with all that they
-- release and where none of them panics: nothing of them is sent back to the network, no tag's identity
-- and nothing of the IDE that waits changes, the counter never falls, and at the end no addition among
-- them has an id above it.
pub receive_all-Follows :
    (w : QueueWrap) (ops : List NetworkOp) (w' : QueueWrap)
    → w.queue_initialized ≡ true
    → receive_all w ops ≡ some w'
    → Follows w.queue w'.queue × All (IsCovered w'.queue.counter) ops
unfolding receive_all
receive_all-Follows w [] w' ready e =
    let same : w ≡ w' = cc in (subst (λ v. Follows w.queue v.queue) same (Follows-refl w.queue), tt)
receive_all-Follows w (op ∷ ops) w' ready e =
    let (v, first, rest) = >>=-eq-some (receive w op) (λ v. receive_all v ops) e in
    let (follows, covered, kept) = receive-Received w op v ready first in
    let (later, all_covered) = receive_all-Follows v ops w' (kept ∙ ready) rest in
    (
      Follows-trans follows later,
      (IsCovered-later v.queue.counter w'.queue.counter op later.counter covered, all_covered),
    )

-- The highest of a counter and the ids of additions.
abbrev pub highest : ℕ → List NetworkOp → ℕ
highest counter [] = counter
highest counter (add op ∷ ops) = highest (max counter op.crdt.id) ops
highest counter (remove op ∷ ops) = highest counter ops

abbrev Counted : QueueWrap → NetworkOp → QueueWrap → Type 0
Counted w op w' =
    (w'.queue.counter ≡ highest w.queue.counter (op ∷ []))
    × WaitsCovered w'.queue
    × (w'.queue_initialized ≡ w.queue_initialized)

receive-Counted :
    (w : QueueWrap) (op : NetworkOp) (w' : QueueWrap)
    → w.queue_initialized ≡ true
    → WaitsCovered w.queue
    → receive w op ≡ some w'
    → Counted w op w'
unfolding apply
receive-Counted w (add op) w' ready h e =
    let (q, handled, made) =
      with_queue-eq-some w (Network.add_network_operation w.queue op) w'
        (sym (receive-applies w (add op) ready) ∙ e) in
    let (total, covered) = add_network_operation-Raised w.queue op q h handled in
    subst (Counted w (add op)) made (total, covered, refl)
receive-Counted w (remove op) w' ready h e =
    let (q, handled, made) =
      with_queue-eq-some w (Network.remove_network_operation w.queue op) w'
        (sym (receive-applies w (remove op) ready) ∙ e) in
    let settled = remove_network_operation-Settles w.queue op q h handled in
    subst (Counted w (remove op)) made (settled.same_counter, settled.covered, refl)

highest-step :
    (op : NetworkOp) (ops : List NetworkOp) (counter : ℕ)
    → highest (highest counter (op ∷ [])) ops ≡ highest counter (op ∷ ops)
highest-step (add op) ops counter = refl
highest-step (remove op) ops counter = refl

-- Operations that other peers send, one after another, to a replica whose queue is there, where no addition
-- of the network that waits there has an id above the counter, and none of them panics: the counter ends as
-- the highest of what it was and the ids of the additions among them, whatever they release, and again
-- no addition that waits has an id above it.
pub receive_all-counts :
    (w : QueueWrap) (ops : List NetworkOp) (w' : QueueWrap)
    → w.queue_initialized ≡ true
    → WaitsCovered w.queue
    → receive_all w ops ≡ some w'
    → (w'.queue.counter ≡ highest w.queue.counter ops) × WaitsCovered w'.queue
unfolding receive_all
receive_all-counts w [] w' ready h e =
    let same : w ≡ w' = cc in
    subst (λ v. (v.queue.counter ≡ w.queue.counter) × WaitsCovered v.queue) same (refl, h)
receive_all-counts w (op ∷ ops) w' ready h e =
    let (v, first, rest) = >>=-eq-some (receive w op) (λ v. receive_all v ops) e in
    let (total, covered, kept) = receive-Counted w op v ready h first in
    let (totals, all_covered) = receive_all-counts v ops w' (kept ∙ ready) covered rest in
    (totals ∙ ap (λ n. highest n ops) total ∙ highest-step op ops w.queue.counter, all_covered)
