-- ===== src/Queue/Wrap.antt =====
-- queue_wrap.rs: the queue that every connection shares, and the buffer for what arrives before it
-- is there. Each operation is one step here. The code holds the queue's lock while an operation is applied; the flag
-- and the buffer are read and written outside it, and `new` lets it go before the replay, so that operations
-- that run at the same time as `new` may interleave with it there, which is not modelled.
use shario.Prelude.{
  Bool, true, false, Option, none, some, List, [], ◌∷◌, ◌++◌, if◌then◌else◌, ◌≡◌, refl, ap, ◌∙◌,
  sym, append_assoc, append-nil,
}
use shario.Types.{Result, ok, err, fault, NetworkAdd, Remove, IdeAdd, NetworkOp, add, remove}
use shario.Tree.Directory.{directory, nil}
use shario.Queue.State.{SharQueue, ◌>>=◌}
use shario.Queue.Ide
use shario.Queue.Network

pub record QueueWrap : Type 0 where
  pub queue : SharQueue
  pub queue_initialized : Bool
  pub buffer : List NetworkOp

-- `SharQueue::default`
abbrev pub default_queue : SharQueue
default_queue = record {
  ide_backlog = [];
  ide_tag_backlog = [];
  network_backlog = [];
  ide_worklist = [];
  network_worklist = [];
  tag_identities = [];
  peer = 0;
  tree = directory [] nil [];
  counter = 0;
  network_add_callback = false;
  network_remove_callback = false;
  ide_add_confirm_callback = false;
  ide_add_callback = false;
  ide_remove_callback = false;
  calls = [];
}

abbrev pub default_wrap : QueueWrap
default_wrap = record { queue = default_queue; queue_initialized = false; buffer = [] }

abbrev pub with_queue : QueueWrap → Option SharQueue → Option QueueWrap
with_queue w none = none
with_queue w (some q) = some (record w { queue = q })

unfoldable pub add_ide_operation : QueueWrap → IdeAdd → Option QueueWrap
add_ide_operation w op = with_queue w (Ide.add_ide_operation w.queue op)

unfoldable pub remove_ide_operation : QueueWrap → Remove → Option QueueWrap
remove_ide_operation w op = with_queue w (Network.remove_ide_operation w.queue op)

unfoldable pub add_network_operation : QueueWrap → NetworkAdd → Option QueueWrap
add_network_operation w op =
    if w.queue_initialized
    then with_queue w (Network.add_network_operation w.queue op)
    else some (record w { buffer = w.buffer ++ add op ∷ [] })

unfoldable pub remove_network_operation : QueueWrap → Remove → Option QueueWrap
remove_network_operation w op =
    if w.queue_initialized
    then with_queue w (Network.remove_network_operation w.queue op)
    else some (record w { buffer = w.buffer ++ remove op ∷ [] })

-- One operation, from the network or from the buffer.
unfoldable pub receive : QueueWrap → NetworkOp → Option QueueWrap
unfolding add_network_operation remove_network_operation
receive w (add op) = add_network_operation w op
receive w (remove op) = remove_network_operation w op

unfoldable pub receive_all : QueueWrap → List NetworkOp → Option QueueWrap
unfolding receive
receive_all w [] = some w
receive_all w (op ∷ ops) = receive w op >>= λ w'. receive_all w' ops

abbrev pub AnswersNew : Type 0
AnswersNew = Option (QueueWrap × Result {0} Unit)

abbrev pub answer_ok : Option QueueWrap → AnswersNew
answer_ok none = none
answer_ok (some w) = some (w, ok tt)

-- `QueueWrap::new`, with what `SharQueue::new` gives: only the first queue is taken.
unfoldable pub create : Result SharQueue → QueueWrap → AnswersNew
unfolding receive_all
create (ok real_queue) w =
    if w.queue.network_add_callback
    then some (w, ok tt)
    else answer_ok
        (receive_all (record w { queue = real_queue; queue_initialized = true }) w.buffer)
create (err e) w = some (w, err e)
create fault w = none

-- The wrap, and the queue in it.
abbrev pub wrap_after : AnswersNew → Option QueueWrap
wrap_after none = none
wrap_after (some (w, r)) = some w

abbrev pub queue_after : Option QueueWrap → Option SharQueue
queue_after none = none
queue_after (some w) = some w.queue

-- What the queue itself does with the operations.
unfoldable pub apply : SharQueue → NetworkOp → Option SharQueue
apply q (add op) = Network.add_network_operation q op
apply q (remove op) = Network.remove_network_operation q op

unfoldable replay : SharQueue → List NetworkOp → Option SharQueue
unfolding apply
replay q [] = some q
replay q (op ∷ ops) = apply q op >>= λ q'. replay q' ops

replay-append :
    (q : SharQueue) (xs ys : List NetworkOp)
    → replay q (xs ++ ys) ≡ (replay q xs >>= λ q'. replay q' ys)
unfolding replay
replay-append q [] ys = refl
replay-append q (op ∷ ops) ys = by_step (λ q'. replay-append q' ops ys) (apply q op)
  where
    by_step :
        ((q' : SharQueue) → replay q' (ops ++ ys) ≡ (replay q' ops >>= λ r. replay r ys))
        → (o : Option SharQueue)
        → (o >>= λ q'. replay q' (ops ++ ys)) ≡ ((o >>= λ q'. replay q' ops) >>= λ q'. replay q' ys)
    by_step ih none = refl
    by_step ih (some q') = ih q'

-- What arrives before the queue is there.
receive-buffers :
    (w : QueueWrap) (op : NetworkOp)
    → w.queue_initialized ≡ false
    → receive w op ≡ some (record w { buffer = w.buffer ++ op ∷ [] })
unfolding receive add_network_operation remove_network_operation
receive-buffers w (add op) e = rw e
receive-buffers w (remove op) e = rw e

receive_all-buffers :
    (ops : List NetworkOp) (w : QueueWrap)
    → w.queue_initialized ≡ false
    → receive_all w ops ≡ some (record w { buffer = w.buffer ++ ops })
unfolding receive_all
receive_all-buffers [] w e = ap (λ b. some (record w { buffer = b })) (sym (append-nil w.buffer))
receive_all-buffers (op ∷ ops) w e =
    ap (λ o. o >>= λ w'. receive_all w' ops) (receive-buffers w op e)
    ∙ receive_all-buffers ops (record w { buffer = w.buffer ++ op ∷ [] }) e
    ∙ ap (λ b. some (record w { buffer = b })) (append_assoc w.buffer (op ∷ []) ops)

-- What arrives afterwards.
pub receive-applies :
    (w : QueueWrap) (op : NetworkOp)
    → w.queue_initialized ≡ true
    → receive w op ≡ with_queue w (apply w.queue op)
unfolding receive apply add_network_operation remove_network_operation
receive-applies w (add op) e = rw e
receive-applies w (remove op) e = rw e

receive_all-replays :
    (ops : List NetworkOp) (w : QueueWrap)
    → w.queue_initialized ≡ true
    → receive_all w ops ≡ with_queue w (replay w.queue ops)
unfolding receive_all replay
receive_all-replays [] w e = refl
receive_all-replays (op ∷ ops) w e =
    ap (λ o. o >>= λ w'. receive_all w' ops) (receive-applies w op e)
    ∙ by_step (λ q. receive_all-replays ops (record w { queue = q }) e) (apply w.queue op)
  where
    by_step :
        ((q : SharQueue)
          → receive_all (record w { queue = q }) ops
            ≡ with_queue (record w { queue = q }) (replay q ops))
        → (o : Option SharQueue)
        → (with_queue w o >>= λ w'. receive_all w' ops) ≡ with_queue w (o >>= λ q. replay q ops)
    by_step ih none = refl
    by_step ih (some q) = ih q ∙ same_wrap (replay q ops)
      where
        same_wrap : (o : Option SharQueue) → with_queue (record w { queue = q }) o ≡ with_queue w o
        same_wrap none = refl
        same_wrap (some r) = refl

queue_after-with_queue : (w : QueueWrap) (o : Option SharQueue) → queue_after (with_queue w o) ≡ o
queue_after-with_queue w none = refl
queue_after-with_queue w (some q) = refl

wrap_after-answer_ok : (o : Option QueueWrap) → wrap_after (answer_ok o) ≡ o
wrap_after-answer_ok none = refl
wrap_after-answer_ok (some w) = refl

create-replays :
    (real_queue : SharQueue) (w : QueueWrap)
    → w.queue.network_add_callback ≡ false
    → wrap_after (create (ok real_queue) w)
      ≡ with_queue
          (record w { queue = real_queue; queue_initialized = true })
          (replay real_queue w.buffer)
unfolding create
create-replays real_queue w e = rw e (
    wrap_after-answer_ok _
    ∙ receive_all-replays w.buffer (record w { queue = real_queue; queue_initialized = true }) refl)

-- Operations from the network that arrive before the queue is created leave it, once it is, as they
-- would have if they had arrived afterwards, in the same order; and where handling one of them
-- panics, so does it either way.
pub create-receive_all :
    (real_queue : SharQueue) (w : QueueWrap) (ops : List NetworkOp)
    → w.queue_initialized ≡ false
    → w.queue.network_add_callback ≡ false
    → queue_after (receive_all w ops >>= λ v. wrap_after (create (ok real_queue) v))
      ≡ queue_after (wrap_after (create (ok real_queue) w) >>= λ v. receive_all v ops)
create-receive_all real_queue w ops new none_yet =
    ap (λ o. queue_after (o >>= λ v. wrap_after (create (ok real_queue) v)))
      (receive_all-buffers ops w new)
    ∙ ap queue_after (create-replays real_queue (record w { buffer = w.buffer ++ ops }) none_yet)
    ∙ queue_after-with_queue
        (record w { queue = real_queue; queue_initialized = true; buffer = w.buffer ++ ops })
        (replay real_queue (w.buffer ++ ops))
    ∙ replay-append real_queue w.buffer ops
    ∙ sym (
        ap (λ o. queue_after (o >>= λ v. receive_all v ops)) (create-replays real_queue w none_yet)
        ∙ by_step (replay real_queue w.buffer))
  where
    by_step :
        (o : Option SharQueue)
        → queue_after (
            with_queue (record w { queue = real_queue; queue_initialized = true }) o >>= λ v.
            receive_all v ops)
          ≡ (o >>= λ q. replay q ops)
    by_step none = refl
    by_step (some q) =
        ap queue_after
          (receive_all-replays ops (record w { queue = q; queue_initialized = true }) refl)
        ∙ queue_after-with_queue (record w { queue = q; queue_initialized = true }) (replay q ops)
