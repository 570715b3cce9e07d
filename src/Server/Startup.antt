-- ===== src/Server/Startup.antt =====
-- main.rs, `main`: from the arguments to a server that serves its IDE, discovers, announces and broadcasts.
-- What the network, the proxy and the random generator answer is an argument.
pub mod Follow
use shario.Prelude.{
  ℕ, ◌+◌, ◌&&◌, Bool, true, false, Option, none, some, List, [], ◌∷◌, ◌++◌, ◌≡◌, ◌⊎◌, inl, inr,
  refl, sym, ap, ◌∙◌, arith, String, if◌then◌else◌, ltb, leb, map, ◌≤◌, ◌<◌,
}
use shario.Types.{NetworkOp}
use shario.Queue.State.{Call, ◌>>=◌, bind_ext}
use shario.Queue.Wrap.{QueueWrap, AnswersNew, receive_all}
use shario.Callbacks.{broadcasts}
use shario.StateRequest.Transfer.{Formats, Dial, request_state}
use shario.Server.Discovery.{Outcome, discovery, discovery-answers, answers, receive_all-append}
use shario.Server.Gossip.{
  Event, received, iroh_gossip_subscriber, told, state_ops, iroh_gossip_subscriber-told,
}
use shario.Server.Session.{
  Ticket, Encodings, created, create_session, participate_session, announced,
}
use shario.Server.Setup.{Startup, serve, replay, setup_benchmark}

pub data SharCommands : Type 0 where
  create : Option String → SharCommands
  participate : String → SharCommands

pub record Args : Type 0 where
  pub command : Option SharCommands
  pub port : ℕ
  pub socket_benchmark : Bool

-- What a run does to the world, in its order.
pub data Effect (Topic Key : Type 0) : Type 0 where
  printed : String → Effect Topic Key
  posted put : String → List ℕ → Effect Topic Key
  got : String → Effect Topic Key
  asked : List Key → Effect Topic Key
  subscribed : Topic → List Key → Effect Topic Key
  listening : Effect Topic Key

-- What the world answers: `none` where there is no answer.
pub record World (Topic Key : Type 0) : Type 0 where
  pub endpoint_id : Option Key
  pub petname : Option String
  pub topic_id : Topic
  pub post_status : Option ℕ
  pub put_status : Option ℕ
  pub lookup : Option (ℕ × List ℕ)
  pub shuffle : List Key → List Key
  pub subscribes : Bool
  pub binds : ℕ → Bool

-- How a run goes on: an `io::Error`, a panic, or the end of the program.
pub data Exit (A : Type 0) : Type 0 where
  going : A → Exit A
  failed : String → Exit A
  panicked finished : Exit A

module _ {Topic Key : Type 0} (encodings : Encodings Topic Key) (world : World Topic Key) where
  -- The name of a session: given, or made up and printed for the client.
  unfoldable pub session_name : Option String → Option (List (Effect Topic Key) × String)
  session_name (some shar_name) = some ([], shar_name)
  session_name none = world.petname >>= λ name. some (printed name ∷ [], name)

  unfoldable pub registered : String → Option ℕ → Exit (String × (Topic × List Key))
  registered name none = panicked
  registered name (some status) = elim (create_session encodings world.topic_id status) [
    | inl e ↦ failed e
    | inr session ↦ going (name, session)
  ]

  unfoldable pub looked : String → Option (ℕ × List ℕ) → Exit (String × (Topic × List Key))
  looked name none = panicked
  looked name (some (status, body)) = elim (participate_session encodings status body) [
    | none ↦ panicked
    | some session ↦ going (name, session)
  ]

  -- The `match` on the command.
  unfoldable pub open_session :
      SharCommands → List (Effect Topic Key) × Exit (String × (Topic × List Key))
  unfolding session_name registered looked
  open_session (create name) = elim (session_name name) [
    | none ↦ ([], panicked)
    | some (prints, chosen) ↦ (
      prints ++ posted chosen (created encodings world.topic_id) ∷ [],
      registered chosen world.post_status,
    )
  ]
  open_session (participate name) = (got name ∷ [], looked name world.lookup)

  -- Whether the proxy takes the ticket: `send`, and then `error_for_status`.
  unfoldable pub put_accepted : Option ℕ → Bool
  put_accepted none = false
  put_accepted (some status) = if leb 400 status && ltb status 600 then false else true

  -- The spawned task up to its loop of broadcasts; no queue is left where it panics.
  unfoldable pub network_task :
      (Key → QueueWrap → AnswersNew)
      → Key
      → String × (Topic × List Key)
      → QueueWrap
      → List (Effect Topic Key) × Option QueueWrap
  unfolding put_accepted
  network_task request key (name, (topic, peers)) w =
      elim (discovery request (world.shuffle peers) w) [
        | none ↦ (asked (world.shuffle peers) ∷ [], none)
        | some w' ↦
            if world.subscribes
            then if put_accepted world.put_status
              then (
                asked (world.shuffle peers)
                    ∷ subscribed topic peers
                    ∷ put name (announced encodings (topic, peers) key)
                    ∷ listening
                    ∷ [],
                some w',
              )
              else (
                asked (world.shuffle peers)
                    ∷ subscribed topic peers
                    ∷ put name (announced encodings (topic, peers) key)
                    ∷ [],
                none,
              )
            else (asked (world.shuffle peers) ∷ subscribed topic peers ∷ [], none)
      ]

  -- With a session: the task is spawned, and the port of the IDE is bound.
  unfoldable pub serving :
      ℕ
      → Key
      → List (Effect Topic Key) × Exit (String × (Topic × List Key))
      → List (Effect Topic Key) × Exit (Option (Key × (String × (Topic × List Key))))
  serving port key (effects, going session) =
      (effects, if world.binds port then going (some (key, session)) else panicked)
  serving port key (effects, failed e) = (effects, failed e)
  serving port key (effects, panicked) = (effects, panicked)
  serving port key (effects, finished) = (effects, finished)

  -- What `main` does for a session and then the task, where no panic or error comes first.
  unfoldable pub started :
      (Key → QueueWrap → AnswersNew)
      → Key
      → List (Effect Topic Key) × Exit (String × (Topic × List Key))
      → QueueWrap
      → List (Effect Topic Key) × Option QueueWrap
  started request key (effects, going session) w =
      (effects ++ (network_task request key session w).0, (network_task request key session w).1)
  started request key (effects, _) w = (effects, none)

  -- `main`: what it does itself, and whether it serves the IDE's port, beside the task that it spawned.
  unfoldable pub main :
      List String
      → Args
      → List (Effect Topic Key) × Exit (Option (Key × (String × (Topic × List Key))))
  unfolding open_session serving
  main arguments args = elim (setup_benchmark arguments) [
    | none ↦ ([], panicked)
    | some (replay trace_path label) ↦ ([], finished)
    | some serve ↦
        if args.socket_benchmark
        then ([], if world.binds args.port then going none else panicked)
        else elim world.endpoint_id [
          | none ↦ ([], panicked)
          | some key ↦ elim args.command [
            | none ↦ ([], panicked)
            | some command ↦ serving args.port key (open_session command)
          ]
        ]
  ]

-- The loop over what the callbacks hand to the task; the answers of `broadcast` are dropped.
unfoldable pub broadcast_loop : (NetworkOp → List ℕ) → List NetworkOp → List (List ℕ)
broadcast_loop serialize [] = []
broadcast_loop serialize (op ∷ ops) = serialize op ∷ broadcast_loop serialize ops
