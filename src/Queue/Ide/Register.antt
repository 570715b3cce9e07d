-- ===== src/Queue/Ide/Register.antt =====
-- shar/core/queue.rs: what `add_ide_operation` makes of tags and the counter, and what it leaves to the network's side.
use shario.Prelude.{
  ℕ, ◌+◌, ◌%◌, ◌^◌, some, ◌≡◌, refl, ap, ◌∙◌, arith, Identity, nat_eq, if◌then◌else◌,
}
use shario.Types.{IdeAdd}
use shario.HashMap
use shario.HashMap.{HashMap, get-insert}
use shario.Queue.State.{SharQueue, ◌>>=◌, >>=-eq-some, call}
use shario.Queue.Ide.{
  add_ide_operation, register_ide, queue_tag_dependants, add_ide_operation_inner, clear_ide_backlog,
  drain_ide_worklist, ide_fuel,
}
use shario.Queue.Ide.Frame.{
  SameElsewhere, SameElsewhere-trans, inner-SameElsewhere, clear_ide_backlog-IsLocal,
  drain_ide-SameElsewhere,
}

-- The identity that the next typed character gets.
abbrev pub fresh : SharQueue → Identity
fresh q = ((q.counter + 1) % 2 ^ 32, q.peer)

record Registered (q : SharQueue) (op : IdeAdd) (q' : SharQueue) : Type 0 where
  registered_counter : q'.counter ≡ (fresh q).0
  registered_tags : q'.tag_identities ≡ HashMap.insert op.tag (fresh q) q.tag_identities
  registered_network : q'.network_backlog ≡ q.network_backlog
  registered_worklist : q'.network_worklist ≡ q.network_worklist

register_ide-Registered :
    (q : SharQueue) (op : IdeAdd) (q' : SharQueue)
    → register_ide q op ≡ some q'
    → Registered q op q'
unfolding register_ide call
register_ide-Registered q op q' e = ground arith

queue_tag_dependants-SameElsewhere :
    (q : SharQueue) (tag : ℕ) → SameElsewhere q (queue_tag_dependants q tag)
unfolding queue_tag_dependants
queue_tag_dependants-SameElsewhere q tag = record {
  tags = refl;
  counter = refl;
  peer = refl;
  network_backlog = refl;
  network_worklist = refl;
}

add_ide_operation-Registered :
    (q : SharQueue) (op : IdeAdd) (q' : SharQueue)
    → add_ide_operation q op ≡ some q'
    → Registered q op q'
unfolding add_ide_operation drain_ide_worklist
add_ide_operation-Registered q op q' e =
    let (q₁, reg, more) =
      >>=-eq-some (register_ide q op)
        (λ r.
          add_ide_operation_inner clear_ide_backlog (queue_tag_dependants r op.tag) op
          >>= drain_ide_worklist)
        e in
    let (q₂, inner, drained) =
      >>=-eq-some (add_ide_operation_inner clear_ide_backlog (queue_tag_dependants q₁ op.tag) op)
        drain_ide_worklist more in
    let r = register_ide-Registered q op q₁ reg in
    let s = SameElsewhere-trans (queue_tag_dependants-SameElsewhere q₁ op.tag) (
      SameElsewhere-trans
        (inner-SameElsewhere clear_ide_backlog clear_ide_backlog-IsLocal
          (queue_tag_dependants q₁ op.tag) op q₂ inner)
        (drain_ide-SameElsewhere (ide_fuel q₂) q₂ q' drained)) in
    record {
      registered_counter = s.counter ∙ r.registered_counter;
      registered_tags = s.tags ∙ r.registered_tags;
      registered_network = s.network_backlog ∙ r.registered_network;
      registered_worklist = s.network_worklist ∙ r.registered_worklist;
    }

-- A typed character that is handled without a panic leaves its tag, and no other, with the identity
-- made of the next value of the counter and this peer, and the counter at that value: nothing that is
-- released on the way registers another tag or moves the counter.
pub add_ide_operation-registers :
    (q : SharQueue) (op : IdeAdd) (q' : SharQueue)
    → add_ide_operation q op ≡ some q'
    → (q'.counter ≡ (q.counter + 1) % 2 ^ 32)
      × ((tag : ℕ)
          → HashMap.get tag q'.tag_identities ≡ (
              if nat_eq.beq op.tag tag
              then some ((q.counter + 1) % 2 ^ 32, q.peer)
              else HashMap.get tag q.tag_identities))
add_ide_operation-registers q op q' e =
    let r = add_ide_operation-Registered q op q' e in
    (
      r.registered_counter,
      λ tag.
          ap (HashMap.get tag) r.registered_tags ∙ get-insert op.tag tag (fresh q) q.tag_identities,
    )

-- A typed character that is handled without a panic leaves the network's backlog and worklist as they
-- were, also what waits there for the identity that the character has just been given.
pub add_ide_operation-releases_no_network :
    (q : SharQueue) (op : IdeAdd) (q' : SharQueue)
    → add_ide_operation q op ≡ some q'
    → (q'.network_backlog ≡ q.network_backlog) × (q'.network_worklist ≡ q.network_worklist)
add_ide_operation-releases_no_network q op q' e =
    let r = add_ide_operation-Registered q op q' e in (r.registered_network, r.registered_worklist)
