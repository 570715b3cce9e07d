-- ===== src/Queue/Ide/Frame.antt =====
-- shar/core/queue.rs: what the IDE's path leaves alone: tags, counter, and all that belongs to the network.
use shario.Prelude.{
  ℕ, zero, suc, Option, none, some, List, [], ◌∷◌, ◌≡◌, refl, sym, ◌∙◌, arith, Identity,
  identity_eq, nat_eq,
}
use shario.Types.{Result, ok, err, fault, Crdt, IdeAdd}
use shario.HashMap
use shario.HashMap.{HashMap}
use shario.Tree.Directory
use shario.Tree.Directory.{SharDirectory}
use shario.Queue.State.{SharQueue, ◌>>=◌, >>=-eq-some}
use shario.Queue.Ide.{
  add_ide_operation_inner, settle_ide, announce_ide, parent_identity, queue_ide_dependants,
  drain_ide, drain_ide_worklist, clear_ide_backlog, ide_fuel, crdt_of,
}

pub record SameElsewhere (q q' : SharQueue) : Type 0 where
  pub tags : q'.tag_identities ≡ q.tag_identities
  pub counter : q'.counter ≡ q.counter
  pub peer : q'.peer ≡ q.peer
  pub network_backlog : q'.network_backlog ≡ q.network_backlog
  pub network_worklist : q'.network_worklist ≡ q.network_worklist

pub SameElsewhere-refl : (q : SharQueue) → SameElsewhere q q
SameElsewhere-refl q = record {
  tags = refl;
  counter = refl;
  peer = refl;
  network_backlog = refl;
  network_worklist = refl;
}

pub SameElsewhere-trans :
    {q r s : SharQueue} → SameElsewhere q r → SameElsewhere r s → SameElsewhere q s
SameElsewhere-trans a b = record {
  tags = b.tags ∙ a.tags;
  counter = b.counter ∙ a.counter;
  peer = b.peer ∙ a.peer;
  network_backlog = b.network_backlog ∙ a.network_backlog;
  network_worklist = b.network_worklist ∙ a.network_worklist;
}

-- A way to release dependants that keeps to the IDE's part.
abbrev pub IsLocal : (SharQueue → Identity → Option SharQueue) → Type 0
IsLocal release =
    (q : SharQueue) (k : Identity) (q' : SharQueue) → release q k ≡ some q' → SameElsewhere q q'

pub announce_ide-SameElsewhere :
    (op : IdeAdd) (crdt : Crdt) (pos : ℕ × ℕ) (q q' : SharQueue)
    → announce_ide op crdt pos q ≡ some q'
    → SameElsewhere q q'
unfolding announce_ide
announce_ide-SameElsewhere op crdt pos q q' e = ground arith

settle_ide-SameElsewhere :
    (release : SharQueue → Identity → Option SharQueue)
    → IsLocal release
    → (q : SharQueue) (op : IdeAdd) (parent : Identity) (crdt : Crdt)
      (r : SharDirectory × Result (Option (ℕ × ℕ))) (q' : SharQueue)
    → settle_ide release q op parent crdt r ≡ some q'
    → SameElsewhere q q'
unfolding settle_ide
settle_ide-SameElsewhere release local q op parent crdt (tree, ok (some pos)) q' e =
    let (q₁, freed, told) =
      >>=-eq-some (release (record q { tree = tree }) (crdt.id, crdt.peer))
        (announce_ide op crdt pos) e in
    let a = local (record q { tree = tree }) (crdt.id, crdt.peer) q₁ freed in
    SameElsewhere-trans
      (record {
        tags = a.tags;
        counter = a.counter;
        peer = a.peer;
        network_backlog = a.network_backlog;
        network_worklist = a.network_worklist;
      })
      (announce_ide-SameElsewhere op crdt pos q₁ q' told)
settle_ide-SameElsewhere release local q op parent crdt (tree, ok none) q' e = ground arith
settle_ide-SameElsewhere release local q op parent crdt (tree, err x) q' e = ground arith
settle_ide-SameElsewhere release local q op parent crdt (tree, fault) q' e = cc

pub inner-SameElsewhere :
    (release : SharQueue → Identity → Option SharQueue)
    → IsLocal release
    → (q : SharQueue) (op : IdeAdd) (q' : SharQueue)
    → add_ide_operation_inner release q op ≡ some q'
    → SameElsewhere q q'
unfolding add_ide_operation_inner
inner-SameElsewhere release local q op q' e = by_parent (parent_identity q op) refl
  where
    by_tag : (o : Option ℕ) → op.parent_tag ≡ o → parent_identity q op ≡ none → SameElsewhere q q'
    by_tag none t p = ground arith
    by_tag (some tag) t p = ground arith

    by_identity :
        (parent : Identity) (o : Option Identity)
        → parent_identity q op ≡ some parent
        → HashMap.get op.tag q.tag_identities ≡ o
        → SameElsewhere q q'
    by_identity parent none p t = ground arith
    by_identity parent (some k) p t =
        settle_ide-SameElsewhere release local q op parent (crdt_of op k parent)
          (Directory.add_crdt q.tree op.file_path op.line_hint (crdt_of op k parent)) q'
          (ground arith)

    by_parent : (o : Option Identity) → parent_identity q op ≡ o → SameElsewhere q q'
    by_parent none p = by_tag op.parent_tag refl p
    by_parent (some parent) p = by_identity parent (HashMap.get op.tag q.tag_identities) p refl

pub queue_ide_dependants-IsLocal : IsLocal queue_ide_dependants
unfolding queue_ide_dependants
queue_ide_dependants-IsLocal q k q' e = ground arith

pub drain_ide-step :
    (fuel : ℕ) (q : SharQueue) (op : IdeAdd) (rest : List IdeAdd)
    → q.ide_worklist ≡ op ∷ rest
    → drain_ide (suc fuel) q ≡ (
        add_ide_operation_inner queue_ide_dependants (record q { ide_worklist = rest }) op
        >>= drain_ide fuel)
unfolding drain_ide
drain_ide-step fuel q op rest w = rw (w, drain_ide)

pub drain_ide-SameElsewhere :
    (fuel : ℕ) (q q' : SharQueue) → drain_ide fuel q ≡ some q' → SameElsewhere q q'
unfolding drain_ide
drain_ide-SameElsewhere zero q q' e = cc
drain_ide-SameElsewhere (suc fuel) q q' e =
    by_list (drain_ide-SameElsewhere fuel) q.ide_worklist refl
  where
    by_list :
        ((r : SharQueue) (r' : SharQueue) → drain_ide fuel r ≡ some r' → SameElsewhere r r')
        → (l : List IdeAdd) → q.ide_worklist ≡ l
        → SameElsewhere q q'
    by_list later [] w = ground arith
    by_list later (op ∷ rest) w =
        let (q₁, round, more) =
          >>=-eq-some
            (add_ide_operation_inner queue_ide_dependants (record q { ide_worklist = rest }) op)
            (drain_ide fuel) (sym (drain_ide-step fuel q op rest w) ∙ e) in
        let a =
          inner-SameElsewhere queue_ide_dependants queue_ide_dependants-IsLocal
            (record q { ide_worklist = rest }) op q₁ round in
        SameElsewhere-trans
          (record {
            tags = a.tags;
            counter = a.counter;
            peer = a.peer;
            network_backlog = a.network_backlog;
            network_worklist = a.network_worklist;
          })
          (later q₁ q' more)

pub clear_ide_backlog-IsLocal : IsLocal clear_ide_backlog
unfolding clear_ide_backlog drain_ide_worklist
clear_ide_backlog-IsLocal q k q' e = by_entry (HashMap.get k q.ide_backlog) refl
  where
    by_entry : (o : Option (List IdeAdd)) → HashMap.get k q.ide_backlog ≡ o → SameElsewhere q q'
    by_entry none g = ground arith
    by_entry (some ops) g =
        let (q₁, queued, drained) =
          >>=-eq-some (queue_ide_dependants q k) drain_ide_worklist (ground arith) in
        SameElsewhere-trans (queue_ide_dependants-IsLocal q k q₁ queued)
          (drain_ide-SameElsewhere (ide_fuel q₁) q₁ q' drained)
