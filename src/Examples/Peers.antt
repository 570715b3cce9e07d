-- ===== src/Examples/Peers.antt =====
-- state_request.rs and main.rs: the theorems at concrete peers, messages and sessions.
use shario.Prelude.{
  ℕ, zero, suc, ◌+◌, ◌<◌, ◌^◌, ◌-◌, true, Option, none, some, List, [], ◌∷◌, ◌++◌, ◌≡◌, ◌⊎◌, inl,
  inr, refl, arith, String, map, concat, All, take, length, identity_eq, same,
}
use shario.Types.{ok, generic, NetworkAdd, NetworkOp, add, remove, Remove}
use shario.HashMap
use shario.Tree.File.{is_line_break}
use shario.Tree.Search.{find_crdt, position, ring_search}
use shario.Tree.Insert
use shario.Tree.Delete
use shario.Tree.Directory
use shario.Tree.Directory.{find_file}
use shario.Queue.State.{SharQueue, ◌>>=◌, new_queue, to_local_path, backlog_size}
use shario.Queue.Wrap.{
  QueueWrap, default_wrap, receive, receive_all, answer_ok, wrap_after, queue_after, create,
}
use shario.Queue.Network
use shario.Queue.Received.{highest, receive_all-Follows, receive_all-counts}
use shario.Queue.Network.Counter.{IsCovered, WaitsCovered}
use shario.Queue.Network.Frame.{Follows}
use shario.StateRequest.{to_network_ops, queue_state}
use shario.StateRequest.Transfer.{
  Formats, Dial, unreachable, opened, request_state, max_state_bytes, encoded_state, abort,
  too_large,
}
use shario.StateRequest.Bytes.{from_be_bytes}
use shario.StateRequest.Exchange.{
  delivered, request_state-accept, request_state-too_large, request_state-keeps,
}
use shario.Server.Discovery.{Outcome, discover, discovery, answers, discovery-answers}
use shario.Server.Gossip.{
  Event, state_ops, received, neighbor_up, other, unread, iroh_gossip_subscriber, told, listened,
  iroh_gossip_subscriber-told, listened-create,
}
use shario.Callbacks.{broadcasts}
use shario.Queue.State.{Call, ide_added, network_added}
use shario.Server.Startup.{
  World, started, open_session, participate, got, asked, subscribed, put, listening, network_task,
  registered, put_accepted, broadcast_loop,
}
use shario.Server.Startup.Follow.{participant-follows}
use shario.Server.Session.{
  Ticket, Encodings, announced, display, from_str, created, create_session, participate_session,
  joined, from_str-display, joined-participates,
}
use shario.Examples.{typed, resting, or_resting}

-- A replica with a queue, and an encoding that knows its state.
abbrev sender : QueueWrap
sender = record default_wrap { queue = resting; queue_initialized = true }

abbrev sender_ops : List NetworkOp
sender_ops = to_network_ops (queue_state resting)

abbrev read_seven : List ℕ → String ⊎ List NetworkOp
read_seven [] = inl "end of input"
read_seven (b ∷ bytes) = inr sender_ops

abbrev formats : Formats
formats = record { to_vec = λ ops. 7 ∷ []; from_slice = read_seven; shown = λ n. "many" }

sender-accepted :
    (w : QueueWrap)
    → request_state formats (delivered formats sender (5 ∷ []) "closed") w
      ≡ answer_ok (receive_all w sender_ops)
unfolding encoded_state
sender-accepted w = request_state-accept formats sender w (5 ∷ []) "closed" refl (omega arith)

accepted_by_new :
    request_state formats (delivered formats sender [] "closed") default_wrap
    ≡ answer_ok (receive_all default_wrap sender_ops)
unfolding encoded_state
accepted_by_new = request_state-accept formats sender default_wrap [] "closed" refl (omega arith)

zeros : ℕ → List ℕ
zeros zero = []
zeros (suc n) = 0 ∷ zeros n

length-zeros : (n : ℕ) → length (zeros n) ≡ n
unfolding zeros
length-zeros zero = refl
length-zeros (suc n) = omega (arith, length-zeros n)

abbrev huge : Formats
huge = record formats { to_vec = λ ops. zeros (max_state_bytes + 1) }

huge-large : max_state_bytes < length (encoded_state huge sender)
unfolding encoded_state
huge-large = omega (arith, length-zeros (max_state_bytes + 1))

huge-small : length (encoded_state huge sender) < 2 ^ 64
unfolding encoded_state
huge-small = omega (arith, length-zeros (max_state_bytes + 1))

huge-refused :
    request_state huge (delivered huge sender [] "closed") default_wrap
    ≡ abort default_wrap (too_large huge (length (encoded_state huge sender)))
huge-refused = request_state-too_large huge sender default_wrap [] "closed" huge-large huge-small

-- Two bytes are promised, and one arrives.
abbrev cut : Dial
cut = opened (record { bytes = 0 ∷ 0 ∷ 0 ∷ 0 ∷ 0 ∷ 0 ∷ 0 ∷ 2 ∷ 7 ∷ []; ending = "reset" })

cut-keeps : sender ≡ sender
unfolding request_state from_be_bytes
cut-keeps =
    request_state-keeps formats cut sender sender (generic "couldn't read state payload: reset")
      refl

-- The first peer is gone; the others have the sender's state.
abbrev dial : ℕ → Dial
dial zero = unreachable "no route"
dial (suc p) = delivered formats sender (5 ∷ []) "closed"

abbrev state_of : ℕ → Option (List NetworkOp)
state_of zero = none
state_of (suc p) = some sender_ops

outcomes : (p : ℕ) → Outcome formats (dial p) (state_of p)
unfolding request_state
outcomes zero = λ w. (generic "couldn't connect to peer: no route", refl)
outcomes (suc p) = λ w. sender-accepted w

peers-asked :
    discovery (λ p. request_state formats (dial p)) (1 ∷ 0 ∷ 2 ∷ []) default_wrap
    ≡ receive_all default_wrap (concat (take 3 (answers state_of (1 ∷ 0 ∷ 2 ∷ []))))
peers-asked = discovery-answers formats dial state_of outcomes (1 ∷ 0 ∷ 2 ∷ []) default_wrap

abbrev typed_add : NetworkAdd
typed_add = record { file_path = "sub" ∷ "note" ∷ []; crdt = typed; row = 1 }

abbrev deserialize : List ℕ → Option NetworkOp
deserialize [] = none
deserialize (b ∷ bytes) = some (add typed_add)

abbrev events : List (Event ℕ)
events = neighbor_up 0 ∷ unread "lagged" ∷ received (9 ∷ []) ∷ other ∷ neighbor_up 1 ∷ []

events-told :
    iroh_gossip_subscriber deserialize (λ p. request_state formats (dial p)) events sender
    ≡ (told deserialize state_of events >>= λ ops. receive_all sender ops)
events-told = iroh_gossip_subscriber-told formats dial state_of outcomes deserialize events sender

abbrev events_ops : List NetworkOp
events_ops = add typed_add ∷ sender_ops ++ []

events-listened :
    queue_after (
      listened formats dial state_of outcomes deserialize (0 ∷ 1 ∷ []) events default_wrap >>= λ v.
      wrap_after (create (ok resting) v))
    ≡ queue_after (
        wrap_after (create (ok resting) default_wrap) >>= λ v.
        listened formats dial state_of outcomes deserialize (0 ∷ 1 ∷ []) events v)
events-listened =
    listened-create formats dial state_of outcomes deserialize (0 ∷ 1 ∷ []) events events_ops
      resting default_wrap refl refl refl

-- A ticket's topic and keys are its bytes.
abbrev read_ticket : List ℕ → Option (Ticket ℕ ℕ)
read_ticket [] = none
read_ticket (topic ∷ keys) = some (record { topic = topic; peers = keys })

abbrev letters : List ℕ → List ℕ
letters [] = []
letters (b ∷ bytes) = (65 + b) ∷ letters bytes

abbrev numbers : List ℕ → List ℕ
numbers [] = []
numbers (c ∷ cs) = (c - 65) ∷ numbers cs

abbrev encodings : Encodings ℕ ℕ
encodings = record {
  to_bytes = λ t. t.topic ∷ t.peers;
  from_bytes = read_ticket;
  encode = letters;
  decode = λ cs. some (numbers cs);
}

abbrev ticket : Ticket ℕ ℕ
ticket = record { topic = 3; peers = 4 ∷ 5 ∷ [] }

ticket-read : from_str encodings (display encodings ticket) ≡ some ticket
ticket-read =
    from_str-display encodings ticket
      (
        inl (omega arith, omega arith),
        (inl (omega arith, omega arith), (inl (omega arith, omega arith), tt)),
      )
      refl refl

members-looked_up :
    (create_session encodings 3 201 ≡ inr (3, []))
    × ((joined encodings (created encodings 3) (4 ∷ 5 ∷ []) >>= λ body.
          participate_session encodings 200 body)
        ≡ some (3, 4 ∷ 5 ∷ []))
members-looked_up =
    joined-participates encodings (λ t. refl) 3 (4 ∷ 5 ∷ []) 201 (omega arith) (omega arith)

abbrev page_gone : Remove
page_gone = record { file_path = "sub" ∷ "note" ∷ []; id = 2; peer = 1; row = 0 }

abbrev without : SharQueue
without = or_resting (Network.remove_network_operation resting page_gone)

abbrev ran_or : QueueWrap → Option QueueWrap → QueueWrap
ran_or w none = w
ran_or w (some w') = w'

-- What another peer typed, and its removal.
abbrev two_ops : List NetworkOp
two_ops = add typed_add ∷ remove page_gone ∷ []

abbrev received_two : QueueWrap
received_two = ran_or sender (receive_all sender two_ops)

two_ops-handled : receive_all sender two_ops ≡ some received_two
unfolding receive_all receive Network.add_network_operation Network.remove_network_operation
    new_queue HashMap.get HashMap.insert to_local_path Directory.add_crdt Directory.remove_crdt
    find_file Insert.add_crdt Delete.remove_crdt same find_crdt position ring_search is_line_break
    backlog_size HashMap.remove
two_ops-handled = refl

two_ops-Follows :
    Follows sender.queue received_two.queue × All (IsCovered received_two.queue.counter) two_ops
two_ops-Follows = receive_all-Follows sender two_ops received_two refl two_ops-handled

sender-WaitsCovered : WaitsCovered sender.queue
unfolding new_queue
sender-WaitsCovered = record { backlog = ((tt, tt), tt); worklist = (omega arith, tt) }

two_ops-counts :
    (received_two.queue.counter ≡ highest sender.queue.counter two_ops)
    × WaitsCovered received_two.queue
two_ops-counts =
    receive_all-counts sender two_ops received_two refl sender-WaitsCovered two_ops-handled

-- The proxy takes every ticket; the participant finds the one that the creator put.
abbrev first_world : World ℕ ℕ
first_world = record {
  endpoint_id = some 1;
  petname = none;
  topic_id = 7;
  post_status = some 201;
  put_status = some 200;
  lookup = none;
  shuffle = λ ps. ps;
  subscribes = true;
  binds = λ port. true;
}

abbrev second_world : World ℕ ℕ
second_world = record first_world { endpoint_id = some 2; lookup = some (200, 7 ∷ 1 ∷ []) }

abbrev hydrated_wrap : QueueWrap
hydrated_wrap = record default_wrap { buffer = sender_ops }

hydrated_wrap-received : receive_all default_wrap (state_ops (state_of 1)) ≡ some hydrated_wrap
unfolding receive_all to_network_ops queue_state Directory.full_state new_queue
    shario.Tree.File.full_state HashMap.remove same
hydrated_wrap-received = refl

abbrev typing : List Call
typing = ide_added typed_add typed_add ∷ network_added typed_add ∷ []

second-follows :
    (started encodings second_world
        (λ p. request_state formats (dial p))
        2
        (open_session encodings second_world (participate "three-word-name"))
        default_wrap
      ≡ (
        got "three-word-name"
            ∷ asked (1 ∷ [])
            ∷ subscribed 7 (1 ∷ [])
            ∷ put "three-word-name" (7 ∷ 1 ∷ 2 ∷ [])
            ∷ listening
            ∷ [],
        some hydrated_wrap,
      ))
    × (iroh_gossip_subscriber deserialize
          (λ p. request_state formats (dial p))
          (map received (broadcast_loop (λ op. 9 ∷ []) (broadcasts typing)))
          hydrated_wrap
        ≡ receive_all default_wrap (state_ops (state_of 1) ++ broadcasts typing))
unfolding started open_session network_task broadcasts announced registered put_accepted
    create_session discovery discover
second-follows =
    participant-follows encodings (λ t. refl) formats dial state_of outcomes (λ op. 9 ∷ [])
      deserialize first_world second_world "three-word-name" 1 2 default_wrap default_wrap
      hydrated_wrap typing (omega arith, omega arith) refl (omega arith, omega arith) refl refl refl
      (omega arith, omega arith) refl hydrated_wrap-received (refl, tt)
