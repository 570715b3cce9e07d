-- ===== src/Server/Gossip.antt =====
-- main.rs, `iroh_gossip_subscriber`: what gossip delivers, applied to the shared queue.
use shario.Prelude.{
  ℕ, Option, none, some, List, [], ◌∷◌, ◌++◌, ◌≡◌, refl, sym, ap, ◌∙◌, String, concat, take, false,
}
use shario.Types.{NetworkOp, ok}
use shario.Queue.State.{SharQueue, ◌>>=◌, bind_ext}
use shario.Queue.Wrap.{
  QueueWrap, AnswersNew, answer_ok, receive, receive_all, wrap_after, queue_after, create,
  create-receive_all,
}
use shario.StateRequest.Transfer.{Formats, Dial, request_state}
use shario.Server.Discovery.{Outcome, answers, discovery, discovery-answers, receive_all-append}

-- `Result<Event, ApiError>`, as the receiver yields them.
pub data Event {ℓ} (Peer : Type ℓ) : Type ℓ where
  received : List ℕ → Event Peer
  neighbor_up : Peer → Event Peer
  other : Event Peer
  unread : String → Event Peer

-- One round of the loop; `deserialize` is serde_json's, and a message that it refuses is a panic.
unfoldable pub on_event {ℓ} :
    {Peer : Type ℓ}
    → (List ℕ → Option NetworkOp)
    → (Peer → QueueWrap → AnswersNew)
    → Event Peer
    → QueueWrap
    → Option QueueWrap
on_event deserialize request (received content) w = deserialize content >>= λ op. receive w op
on_event deserialize request (neighbor_up key) w = wrap_after (request key w)
on_event deserialize request other w = some w
on_event deserialize request (unread e) w = some w

unfoldable pub iroh_gossip_subscriber {ℓ} :
    {Peer : Type ℓ}
    → (List ℕ → Option NetworkOp)
    → (Peer → QueueWrap → AnswersNew)
    → List (Event Peer)
    → QueueWrap
    → Option QueueWrap
unfolding on_event
iroh_gossip_subscriber deserialize request [] w = some w
iroh_gossip_subscriber deserialize request (event ∷ events) w =
    on_event deserialize request event w >>= λ w'.
    iroh_gossip_subscriber deserialize request events w'

abbrev pub state_ops : Option (List NetworkOp) → List NetworkOp
state_ops none = []
state_ops (some ops) = ops

-- The operations that events bring, in their order, or `none` where a message is refused.
abbrev pub told {ℓ} :
    {Peer : Type ℓ}
    → (List ℕ → Option NetworkOp)
    → (Peer → Option (List NetworkOp))
    → List (Event Peer)
    → Option (List NetworkOp)
told deserialize state_of [] = some []
told deserialize state_of (received content ∷ events) = deserialize content >>= λ op.
    (told deserialize state_of events >>= λ ops. some ((op ∷ []) ++ ops))
told deserialize state_of (neighbor_up p ∷ events) =
    told deserialize state_of events >>= λ ops. some (state_ops (state_of p) ++ ops)
told deserialize state_of (other ∷ events) = told deserialize state_of events
told deserialize state_of (unread e ∷ events) = told deserialize state_of events

-- A step that applies some operations, and the rest.
step-append :
    (w : QueueWrap) (step : Option QueueWrap) (xs : List NetworkOp) (o : Option (List NetworkOp))
    → step ≡ receive_all w xs
    → (step >>= λ v. (o >>= λ ops. receive_all v ops))
      ≡ ((o >>= λ ops. some (xs ++ ops)) >>= λ ops. receive_all w ops)
step-append w none xs none e = refl
step-append w (some v) xs none e = refl
step-append w step xs (some ops) e =
    ap (λ s. s >>= λ v. receive_all v ops) e ∙ sym (receive_all-append xs ops w)

receive-one : (w : QueueWrap) (op : NetworkOp) → receive w op ≡ receive_all w (op ∷ [])
unfolding receive_all
receive-one w op = by_option (receive w op)
  where
    by_option : (o : Option QueueWrap) → o ≡ (o >>= λ v. some v)
    by_option none = refl
    by_option (some v) = refl

module _ {ℓ} {Peer : Type ℓ} (formats : Formats) (dial : Peer → Dial)
    (state_of : Peer → Option (List NetworkOp))
    (outcomes : (p : Peer) → Outcome formats (dial p) (state_of p))
    (deserialize : List ℕ → Option NetworkOp) where
  hydrated :
      (p : Peer) (o : Option (List NetworkOp)) (w : QueueWrap)
      → Outcome formats (dial p) o
      → wrap_after (request_state formats (dial p) w) ≡ receive_all w (state_ops o)
  unfolding receive_all
  hydrated p none w refuses = ap wrap_after (refuses w).1
  hydrated p (some ops) w delivers = ap wrap_after (delivers w) ∙ by_option (receive_all w ops)
    where
      by_option : (o : Option QueueWrap) → wrap_after (answer_ok o) ≡ o
      by_option none = refl
      by_option (some v) = refl

  subscriber : List (Event Peer) → QueueWrap → Option QueueWrap
  unfolding iroh_gossip_subscriber
  subscriber events w =
      iroh_gossip_subscriber deserialize (λ p. request_state formats (dial p)) events w

  -- The subscriber applies the operations of the messages and the states of new neighbours in the order of
  -- the events, skips every other event, failures to read among them, goes on after a neighbour without a state, and
  -- panics, before or at it, where a message cannot be read as an operation.
  pub iroh_gossip_subscriber-told :
      (events : List (Event Peer)) (w : QueueWrap)
      → iroh_gossip_subscriber deserialize (λ p. request_state formats (dial p)) events w
        ≡ (told deserialize state_of events >>= λ ops. receive_all w ops)
  unfolding iroh_gossip_subscriber on_event receive_all
  iroh_gossip_subscriber-told [] w = refl
  iroh_gossip_subscriber-told (received content ∷ events) w =
      by_message (deserialize content) (λ v. iroh_gossip_subscriber-told events v)
    where
      by_message :
          (o : Option NetworkOp)
          → ((v : QueueWrap)
              → iroh_gossip_subscriber deserialize (λ p. request_state formats (dial p)) events v
                ≡ (told deserialize state_of events >>= λ ops. receive_all v ops))
          → ((o >>= λ op. receive w op) >>= λ v.
              iroh_gossip_subscriber deserialize (λ p. request_state formats (dial p)) events v)
            ≡ ((o >>= λ op. (told deserialize state_of events >>= λ ops. some ((op ∷ []) ++ ops)))
                >>= λ ops. receive_all w ops)
      by_message none rest = refl
      by_message (some op) rest =
          bind_ext (receive w op) _ _ rest
          ∙ step-append w (receive w op) (op ∷ []) (told deserialize state_of events)
              (receive-one w op)
  iroh_gossip_subscriber-told (neighbor_up p ∷ events) w =
      bind_ext (wrap_after (request_state formats (dial p) w)) _ _
        (λ v. iroh_gossip_subscriber-told events v)
      ∙ step-append w (wrap_after (request_state formats (dial p) w)) (state_ops (state_of p))
          (told deserialize state_of events) (hydrated p (state_of p) w (outcomes p))
  iroh_gossip_subscriber-told (other ∷ events) w = iroh_gossip_subscriber-told events w
  iroh_gossip_subscriber-told (unread e ∷ events) w = iroh_gossip_subscriber-told events w

  -- What a replica does with the network from its start on.
  abbrev pub listened : List Peer → List (Event Peer) → QueueWrap → Option QueueWrap
  listened peers events w = discovery (λ p. request_state formats (dial p)) peers w >>= λ v.
      iroh_gossip_subscriber deserialize (λ p. request_state formats (dial p)) events v

  listened-receives :
      (peers : List Peer) (events : List (Event Peer)) (ops : List NetworkOp) (w : QueueWrap)
      → told deserialize state_of events ≡ some ops
      → listened peers events w ≡ receive_all w (concat (take 3 (answers state_of peers)) ++ ops)
  listened-receives peers events ops w e =
      let first = concat (take 3 (answers state_of peers)) in
      ap
        (λ o. o >>= λ v.
          iroh_gossip_subscriber deserialize (λ p. request_state formats (dial p)) events v)
        (discovery-answers formats dial state_of outcomes peers w)
      ∙ bind_ext (receive_all w first) _ _
          (λ v. iroh_gossip_subscriber-told events v ∙ ap (λ o. o >>= λ xs. receive_all v xs) e)
      ∙ sym (receive_all-append first ops w)

  -- A replica that discovers its peers and listens to them before its IDE joins has, once the IDE's queue
  -- is there, the same queue as if the IDE had joined before all of it, where every message is an operation.
  pub listened-create :
      (peers : List Peer) (events : List (Event Peer)) (ops : List NetworkOp)
      (real_queue : SharQueue) (w : QueueWrap)
      → told deserialize state_of events ≡ some ops
      → w.queue_initialized ≡ false
      → w.queue.network_add_callback ≡ false
      → queue_after (listened peers events w >>= λ v. wrap_after (create (ok real_queue) v))
        ≡ queue_after (wrap_after (create (ok real_queue) w) >>= λ v. listened peers events v)
  listened-create peers events ops real_queue w e new none_yet =
      let all = concat (take 3 (answers state_of peers)) ++ ops in
      ap (λ o. queue_after (o >>= λ v. wrap_after (create (ok real_queue) v)))
        (listened-receives peers events ops w e)
      ∙ create-receive_all real_queue w all new none_yet
      ∙ ap queue_after (
          bind_ext (wrap_after (create (ok real_queue) w)) _ _
            (λ v. sym (listened-receives peers events ops v e)))
