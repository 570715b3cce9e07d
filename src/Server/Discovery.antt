-- ===== src/Server/Discovery.antt =====
-- main.rs, the loop of discovery: a replica asks peers for their state before it listens to them.
-- What dialling a peer gives, and the order in which the peers were shuffled, are arguments.
use shario.Prelude.{
  ℕ, zero, suc, Option, none, some, List, [], ◌∷◌, ◌++◌, ◌≡◌, refl, sym, ap, ◌∙◌, arith, length,
  take, concat, leb, if◌then◌else◌,
}
use shario.Types.{NetworkOp, ok, err, fault, Error}
use shario.Queue.State.{◌>>=◌, bind_ext, bind_assoc}
use shario.Queue.Wrap.{QueueWrap, AnswersNew, answer_ok, receive, receive_all}
use shario.StateRequest.Transfer.{Formats, Dial, request_state}

-- `cmp::min`
abbrev pub min_of : ℕ → ℕ → ℕ
min_of a b = if leb a b then a else b

-- The arms of the loop's `match`.
abbrev pub attempt :
    (QueueWrap → Option QueueWrap) → (QueueWrap → Option QueueWrap) → AnswersNew → Option QueueWrap
attempt counted clamped none = none
attempt counted clamped (some (w, ok u)) = counted w
attempt counted clamped (some (w, err e)) = clamped w
attempt counted clamped (some (w, fault)) = none

-- The loop, with what `request_state` does for a peer; `remove(0)` panics where no peer is left.
unfoldable pub discover {ℓ} :
    {Peer : Type ℓ} → (Peer → QueueWrap → AnswersNew) → ℕ → List Peer → QueueWrap → Option QueueWrap
discover request zero peers w = some w
discover request (suc n) [] w = none
discover request (suc n) (random_peer ∷ discovery_peers) w =
    attempt (λ w'. discover request n discovery_peers w')
      (λ w'. discover request (min_of (suc n) (length discovery_peers)) discovery_peers w')
      (request random_peer w)

-- From the shuffled peers of the ticket.
unfoldable pub discovery {ℓ} :
    {Peer : Type ℓ} → (Peer → QueueWrap → AnswersNew) → List Peer → QueueWrap → Option QueueWrap
unfolding discover
discovery request discovery_peers w =
    discover request (min_of 3 (length discovery_peers)) discovery_peers w

-- A handler that applies the same operations to every queue, or none to any and answers with an error.
abbrev pub Applies : (QueueWrap → AnswersNew) → Option (List NetworkOp) → Type 0
Applies handler (some ops) = (w : QueueWrap) → handler w ≡ answer_ok (receive_all w ops)
Applies handler none = (w : QueueWrap) → (e : Error) × (handler w ≡ some (w, err e))

-- What a peer is found to answer: a state, or nothing that is a state.
abbrev pub Outcome : Formats → Dial → Option (List NetworkOp) → Type 0
Outcome formats dial o = Applies (λ w. request_state formats dial w) o

abbrev pub answered : Option (List NetworkOp) → List (List NetworkOp) → List (List NetworkOp)
answered none rest = rest
answered (some ops) rest = ops ∷ rest

-- The states of the peers that answer with one.
abbrev pub answers {ℓ} :
    {Peer : Type ℓ} → (Peer → Option (List NetworkOp)) → List Peer → List (List NetworkOp)
answers state_of [] = []
answers state_of (p ∷ peers) = answered (state_of p) (answers state_of peers)

min-suc : (n m : ℕ) → min_of (suc n) (suc m) ≡ suc (min_of n m)
min-suc n m = ground arith

min-clamped : (n m : ℕ) → min_of (suc (min_of n m)) m ≡ min_of (suc n) m
min-clamped n m = ground arith

min-zero : (m : ℕ) → min_of 0 m ≡ 0
min-zero m = ground arith

min-nothing : (n : ℕ) → min_of n 0 ≡ 0
min-nothing n = ground arith

attempt-answer_ok :
    (counted clamped : QueueWrap → Option QueueWrap) (o : Option QueueWrap)
    → attempt counted clamped (answer_ok o) ≡ (o >>= λ v. counted v)
attempt-answer_ok counted clamped none = refl
attempt-answer_ok counted clamped (some v) = refl

pub receive_all-append :
    (xs ys : List NetworkOp) (w : QueueWrap)
    → receive_all w (xs ++ ys) ≡ (receive_all w xs >>= λ w'. receive_all w' ys)
unfolding receive_all
receive_all-append [] ys w = refl
receive_all-append (op ∷ xs) ys w =
    bind_ext (receive w op) _ _ (receive_all-append xs ys) ∙ bind_assoc (receive w op) _ _

module _ {ℓ} {Peer : Type ℓ} (formats : Formats) (dial : Peer → Dial)
    (state_of : Peer → Option (List NetworkOp))
    (outcomes : (p : Peer) → Outcome formats (dial p) (state_of p)) where
  abbrev request : Peer → QueueWrap → AnswersNew
  request p w = request_state formats (dial p) w

  abbrev caught_up : ℕ → List Peer → QueueWrap → Option QueueWrap
  caught_up n peers w = receive_all w (concat (take n (answers state_of peers)))

  discover-answers :
      (peers : List Peer) (n : ℕ) (w : QueueWrap)
      → discover request (min_of n (length peers)) peers w ≡ caught_up n peers w
  unfolding discover receive_all
  discover-answers [] zero w = refl
  discover-answers [] (suc n) w = ap (λ m. discover request m [] w) (min-nothing (suc n))
  discover-answers (p ∷ ps) zero w =
      ap (λ m. discover request m (p ∷ ps) w) (min-zero (suc (length ps)))
  discover-answers (p ∷ ps) (suc n) w =
      ap (λ m. discover request m (p ∷ ps) w) (min-suc n (length ps))
      ∙ by_outcome (state_of p) (outcomes p) (discover-answers ps)
    where
      by_outcome :
          (o : Option (List NetworkOp))
          → Outcome formats (dial p) o
          → ((m : ℕ) (v : QueueWrap)
              → discover request (min_of m (length ps)) ps v ≡ caught_up m ps v)
          → discover request (suc (min_of n (length ps))) (p ∷ ps) w
            ≡ receive_all w (concat (take (suc n) (answered o (answers state_of ps))))
      by_outcome none refuses rest =
          ap (attempt _ _) (refuses w).1
          ∙ ap (λ m. discover request m ps w) (min-clamped n (length ps))
          ∙ rest (suc n) w
      by_outcome (some ops) delivers rest =
          ap (attempt _ _) (delivers w)
          ∙ attempt-answer_ok _ _ (receive_all w ops)
          ∙ bind_ext (receive_all w ops) _ _ (rest n)
          ∙ sym (receive_all-append ops (concat (take n (answers state_of ps))) w)

  -- Discovery asks peers in their order until three have answered with a state or no peer is left, never
  -- takes a peer from an empty list, and leaves the queue as the operations of the first three states that
  -- arrive leave it; peers that cannot be reached or answer with no state have no effect.
  pub discovery-answers :
      (peers : List Peer) (w : QueueWrap)
      → discovery (λ p. request_state formats (dial p)) peers w
        ≡ receive_all w (concat (take 3 (answers state_of peers)))
  unfolding discovery
  discovery-answers peers w = discover-answers peers 3 w
