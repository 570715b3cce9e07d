-- ===== src/Server/Startup/Follow.antt =====
-- main.rs: a replica that creates a session, one that takes part in it, and what the first broadcasts.
use shario.Prelude.{
  ℕ, true, Option, none, some, List, [], ◌∷◌, ◌++◌, ◌≡◌, refl, sym, ap, ◌∙◌, arith, String, map,
  ◌≤◌, ◌<◌, concat, append-nil, take, All,
}
use shario.Types.{NetworkOp}
use shario.Queue.State.{Call, ◌>>=◌}
use shario.Queue.Wrap.{QueueWrap, AnswersNew, receive_all}
use shario.Callbacks.{broadcasts}
use shario.StateRequest.Transfer.{Formats, Dial, request_state}
use shario.Server.Discovery.{
  Outcome, discovery, discovery-answers, answers, answered, receive_all-append,
}
use shario.Server.Gossip.{
  received, iroh_gossip_subscriber, told, state_ops, iroh_gossip_subscriber-told,
}
use shario.Server.Session.{
  Ticket, Encodings, created, create_session, participate_session, announced, looked_up,
}
use shario.Server.Startup.{
  create, participate, Effect, put, posted, got, asked, subscribed, listening, World, going,
  registered, looked, started, open_session, network_task, put_accepted, broadcast_loop,
}

-- The ticket that stands with the proxy under a name once the effects are done.
abbrev pub ticket_of :
    {Topic Key : Type 0} → Option (List ℕ) → List (Effect Topic Key) → Option (List ℕ)
ticket_of body [] = body
ticket_of body (posted name bytes ∷ effects) = ticket_of (some bytes) effects
ticket_of body (put name bytes ∷ effects) = ticket_of (some bytes) effects
ticket_of body (_ ∷ effects) = ticket_of body effects

abbrev pub Accepts : Option ℕ → Type 0
Accepts none = ⊥
Accepts (some status) = (200 ≤ status) × (status < 300)

accepted :
    {Topic Key : Type 0} (encodings : Encodings Topic Key) (world : World Topic Key)
    → Accepts world.put_status
    → put_accepted encodings world world.put_status ≡ true
unfolding put_accepted
accepted encodings world h = by_status world.put_status h
  where
    by_status : (o : Option ℕ) → Accepts o → put_accepted encodings world o ≡ true
    by_status none h = absurd h
    by_status (some status) h = ground arith

-- The messages of a broadcast replica, as the other replica's receiver yields them, tell its operations.
told-broadcast :
    {Peer : Type 0} (state_of : Peer → Option (List NetworkOp)) (serialize : NetworkOp → List ℕ)
    (deserialize : List ℕ → Option NetworkOp) (ops : List NetworkOp)
    → All (λ op. deserialize (serialize op) ≡ some op) ops
    → told deserialize state_of (map received (broadcast_loop serialize ops)) ≡ some ops
unfolding broadcast_loop
told-broadcast state_of serialize deserialize [] h = refl
told-broadcast state_of serialize deserialize (op ∷ ops) h =
    rw (h.0, told-broadcast state_of serialize deserialize ops h.1) refl

module _ {Topic Key : Type 0} (encodings : Encodings Topic Key) (world : World Topic Key) where
  registered-Accepts :
      (name : String) (o : Option ℕ)
      → Accepts o
      → registered encodings world name o ≡ going (name, (world.topic_id, []))
  unfolding registered create_session
  registered-Accepts name none h = absurd h
  registered-Accepts name (some status) h = ground arith

  looked-found :
      (name : String) (body : List ℕ) (session : Topic × List Key)
      → participate_session encodings 200 body ≡ some session
      → looked encodings world name (some (200, body)) ≡ going (name, session)
  unfolding looked
  looked-found name body session e = ground (arith, e)

  -- The task gets to its loop.
  network_task-listening :
      (request : Key → QueueWrap → AnswersNew) (key : Key) (name : String) (topic : Topic)
      (peers : List Key) (w v : QueueWrap)
      → discovery request (world.shuffle peers) w ≡ some v
      → world.subscribes ≡ true
      → Accepts world.put_status
      → network_task encodings world request key (name, (topic, peers)) w ≡ (
        asked (world.shuffle peers)
            ∷ subscribed topic peers
            ∷ put name (announced encodings (topic, peers) key)
            ∷ listening
            ∷ [],
        some v,
      )
  unfolding network_task
  network_task-listening request key name topic peers w v e subscribes h =
      ground (arith, e, subscribes, accepted encodings world h)

module _ {Topic Key : Type 0} (encodings : Encodings Topic Key)
    (reads : (ticket : Ticket Topic Key)
      → encodings.from_bytes (encodings.to_bytes ticket) ≡ some ticket) where
  -- A session that the proxy accepts.
  opened :
      (creator : World Topic Key) (name : String)
      → Accepts creator.post_status
      → open_session encodings creator (create (some name)) ≡ (
        posted name (created encodings creator.topic_id) ∷ [],
        going (name, (creator.topic_id, [])),
      )
  unfolding open_session create_session
  opened creator name h =
      ap (λ e. (posted name (created encodings creator.topic_id) ∷ [], e))
        (registered-Accepts encodings creator name creator.post_status h)

  -- A session whose ticket the proxy has.
  taken_part :
      (world : World Topic Key) (name : String) (topic : Topic) (peers : List Key)
      → world.lookup ≡ some (200, encodings.to_bytes (record { topic = topic; peers = peers }))
      → open_session encodings world (participate name)
        ≡ (got name ∷ [], going (name, (topic, peers)))
  unfolding open_session
  taken_part world name topic peers e =
      ap (λ o. (got name ∷ [], looked encodings world name o)) e
      ∙ ap (λ x. (got name ∷ [], x))
          (looked-found encodings world name _ (topic, peers)
            (looked_up encodings reads topic peers))

  module _ (formats : Formats) (dial : Key → Dial) (state_of : Key → Option (List NetworkOp))
      (outcomes : (p : Key) → Outcome formats (dial p) (state_of p))
      (serialize : NetworkOp → List ℕ) (deserialize : List ℕ → Option NetworkOp) where
    abbrev request : Key → QueueWrap → AnswersNew
    request p w = request_state formats (dial p) w

    -- What `main` and its task do for a session, with what discovery brings.
    started-listening :
        (world : World Topic Key) (effects : List (Effect Topic Key)) (key : Key) (name : String)
        (topic : Topic) (peers : List Key) (w v : QueueWrap)
        → world.shuffle peers ≡ peers
        → receive_all w (concat (take 3 (answers state_of peers))) ≡ some v
        → world.subscribes ≡ true
        → Accepts world.put_status
        → started encodings world request key (effects, going (name, (topic, peers))) w ≡ (
          effects
              ++ asked peers
                ∷ subscribed topic peers
                ∷ put name (announced encodings (topic, peers) key)
                ∷ listening
                ∷ [],
          some v,
        )
    unfolding started
    started-listening world effects key name topic peers w v shuffles catches_up subscribes puts =
        ap (λ t. (effects ++ t.0, t.1))
          (network_task-listening encodings world request key name topic peers w v
            (ap (λ ps. discovery request ps w) shuffles
              ∙ discovery-answers formats dial state_of outcomes peers w
              ∙ catches_up)
            subscribes puts)
        ∙ ap
            (λ ps. (
              effects
                  ++ asked ps
                    ∷ subscribed topic peers
                    ∷ put name (announced encodings (topic, peers) key)
                    ∷ listening
                    ∷ [],
              some v,
            ))
            shuffles

    -- A replica that creates a session under a name and one that takes part in it, where the proxy accepts what
    -- they post and put and answers the lookup with the ticket that the first put, both subscribe, serde_json reads what it
    -- wrote, and the first has a state that the second's queue takes without a panic, or none: the second asks the first for its state before it announces itself behind it in the ticket and listens, and if it then hears what
    -- the callbacks of the first hand to its loop of broadcasts, its queue is as after the operations of that state and
    -- those of the callbacks.
    pub participant-follows :
        (creator participant : World Topic Key) (name : String) (a b : Key) (w_a w_b v : QueueWrap)
        (calls : List Call)
        → Accepts creator.post_status
        → creator.subscribes ≡ true
        → Accepts creator.put_status
        → creator.shuffle [] ≡ []
        → participant.lookup ≡ (
            ticket_of none
              (started encodings creator request a
                (open_session encodings creator (create (some name)))
                w_a).0
            >>= λ body. some (200, body))
        → participant.subscribes ≡ true
        → Accepts participant.put_status
        → participant.shuffle (a ∷ []) ≡ a ∷ []
        → receive_all w_b (state_ops (state_of a)) ≡ some v
        → All (λ op. deserialize (serialize op) ≡ some op) (broadcasts calls)
        → (started encodings participant request b
              (open_session encodings participant (participate name))
              w_b
            ≡ (
              got name
                  ∷ asked (a ∷ [])
                  ∷ subscribed creator.topic_id (a ∷ [])
                  ∷ put name
                      (encodings.to_bytes (record { topic = creator.topic_id; peers = a ∷ b ∷ [] }))
                  ∷ listening
                  ∷ [],
              some v,
            ))
          × (iroh_gossip_subscriber deserialize request
                (map received (broadcast_loop serialize (broadcasts calls)))
                v
              ≡ receive_all w_b (state_ops (state_of a) ++ broadcasts calls))
    unfolding announced receive_all
    participant-follows creator participant name a b w_a w_b v calls posts subscribes_a puts_a empty
          looks_up subscribes_b puts_b one hydrates reads_ops =
        let first =
          ap (λ s. started encodings creator request a s w_a) (opened creator name posts)
          ∙ started-listening creator (posted name (created encodings creator.topic_id) ∷ []) a name
              creator.topic_id [] w_a w_a empty refl subscribes_a puts_a in
        let ticket = looks_up ∙ ap (λ r. ticket_of none r.0 >>= λ body. some (200, body)) first in
        (
          ap (λ s. started encodings participant request b s w_b)
                (taken_part participant name creator.topic_id (a ∷ []) ticket)
              ∙ started-listening participant (got name ∷ []) b name creator.topic_id (a ∷ []) w_b v
                  one (caught_up (state_of a) hydrates) subscribes_b puts_b,
          iroh_gossip_subscriber-told formats dial state_of outcomes deserialize
                (map received (broadcast_loop serialize (broadcasts calls))) v
              ∙ ap (λ o. o >>= λ ops. receive_all v ops)
                  (told-broadcast state_of serialize deserialize (broadcasts calls) reads_ops)
              ∙ sym (
                  receive_all-append (state_ops (state_of a)) (broadcasts calls) w_b
                  ∙ ap (λ o. o >>= λ u. receive_all u (broadcasts calls)) hydrates),
        )
      where
        caught_up :
            (o : Option (List NetworkOp))
            → receive_all w_b (state_ops o) ≡ some v
            → receive_all w_b (concat (take 3 (answered o []))) ≡ some v
        caught_up none h = h
        caught_up (some ops) h = ap (receive_all w_b) (append-nil ops) ∙ h
