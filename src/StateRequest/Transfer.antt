-- ===== src/StateRequest/Transfer.antt =====
-- state_request.rs: both sides of a request for a replica's state.
-- The JSON encoding and the connection are arguments: what serde_json gives, what dialling a peer
-- gives, and the bytes that the peer's stream delivers before it fails.
use Prim.Native.String
use shario.Prelude.{
  ℕ, ◌*◌, ◌%◌, ◌^◌, Option, none, some, List, [], ◌∷◌, ◌⊎◌, inl, inr, if◌then◌else◌, String, length,
  take, drop, ltb,
}
use shario.Types.{NetworkOp, err, generic}
use shario.Queue.Wrap.{QueueWrap, AnswersNew, answer_ok}
use shario.StateRequest.{queue_state, to_network_ops, apply_state}
use shario.StateRequest.Bytes.{to_be_bytes, from_be_bytes}

-- `serde_json::to_vec`, `serde_json::from_slice` with its error's text, and a u64 as text.
pub record Formats : Type 0 where
  pub to_vec : List NetworkOp → List ℕ
  pub from_slice : List ℕ → String ⊎ List NetworkOp
  pub shown : ℕ → String

-- Where the accepting side's stream fails, with the error's text.
pub data Sending : Type 0 where
  no_stream no_prefix no_payload no_finish : String → Sending
  finishes : Sending

-- The bytes of the peer's stream, and why there are no more of them.
pub record Reception : Type 0 where
  pub bytes : List ℕ
  pub ending : String

-- What `connect` and `open_bi` give.
pub data Dial : Type 0 where
  unreachable : String → Dial
  unopened : String → Dial
  opened : Reception → Dial

-- `recv.read_exact` for a buffer of `n` bytes
abbrev pub read_exact : ℕ → Reception → String ⊎ (List ℕ × Reception)
read_exact n r =
    if ltb (length r.bytes) n
    then inl r.ending
    else inr (take n r.bytes, record r { bytes = drop n r.bytes })

abbrev pub max_state_bytes : ℕ
max_state_bytes = 1024 * 1024 * 1024

unfoldable pub encoded_state : Formats → QueueWrap → List ℕ
encoded_state formats w = formats.to_vec (to_network_ops (queue_state w.queue))

-- The chunks that `accept` writes, and its error if it ends with one.
unfoldable pub accept : Formats → QueueWrap → Sending → List (List ℕ) × Option String
unfolding encoded_state
accept formats w (no_stream e) = ([], some e)
accept formats w sending =
    let encoded = encoded_state formats w in
    let len_prefix = to_be_bytes (length encoded % 2 ^ 64) in written sending len_prefix encoded
  where
    written : Sending → List ℕ → List ℕ → List (List ℕ) × Option String
    written (no_stream e) len_prefix encoded = ([], some e)
    written (no_prefix e) len_prefix encoded = ([], some e)
    written (no_payload e) len_prefix encoded = (len_prefix ∷ [], some e)
    written (no_finish e) len_prefix encoded = (len_prefix ∷ encoded ∷ [], some e)
    written finishes len_prefix encoded = (len_prefix ∷ encoded ∷ [], none)

-- `return Err(Error::Generic(format!(..)))`
abbrev pub abort : QueueWrap → String → AnswersNew
abort w message = some (w, err (generic message))

unfoldable pub apply_decoded : QueueWrap → String ⊎ List NetworkOp → AnswersNew
apply_decoded w (inl e) = abort w (String.◌++◌ "couldn't decode response: " e)
apply_decoded w (inr state) = answer_ok (apply_state w state)

unfoldable pub decode_payload : Formats → QueueWrap → String ⊎ (List ℕ × Reception) → AnswersNew
unfolding apply_decoded
decode_payload formats w (inl e) = abort w (String.◌++◌ "couldn't read state payload: " e)
decode_payload formats w (inr (bytes, recv)) = apply_decoded w (formats.from_slice bytes)

abbrev pub too_large : Formats → ℕ → String
too_large formats declared_len =
    String.◌++◌ "peer claimed an unreasonably large state ("
      (String.◌++◌ (formats.shown declared_len) " bytes)")

unfoldable pub receive_payload : Formats → QueueWrap → ℕ → Reception → AnswersNew
unfolding decode_payload
receive_payload formats w declared_len recv =
    if ltb max_state_bytes declared_len
    then abort w (too_large formats declared_len)
    else decode_payload formats w (read_exact declared_len recv)

unfoldable pub receive_prefix : Formats → QueueWrap → String ⊎ (List ℕ × Reception) → AnswersNew
unfolding receive_payload
receive_prefix formats w (inl e) = abort w (String.◌++◌ "couldn't read length prefix: " e)
receive_prefix formats w (inr (len_buf, recv)) =
    receive_payload formats w (from_be_bytes len_buf) recv

unfoldable pub request_state : Formats → Dial → QueueWrap → AnswersNew
unfolding receive_prefix
request_state formats (unreachable e) w = abort w (String.◌++◌ "couldn't connect to peer: " e)
request_state formats (unopened e) w = abort w (String.◌++◌ "couldn't open stream: " e)
request_state formats (opened recv) w = receive_prefix formats w (read_exact 8 recv)
