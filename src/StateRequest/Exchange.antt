-- ===== src/StateRequest/Exchange.antt =====
-- state_request.rs: what the asking side makes of what the accepting side sends.
use shario.Prelude.{
  ltb-below, ltb-above, take-of_append, drop-of_append, ℕ, ◌%◌, ◌^◌, ◌≤◌, ◌<◌, Option, none, some,
  List, [], ◌++◌, ◌⊎◌, inl, inr, String, length, ltb, ◌≡◌, refl, ap, ◌∙◌, arith, subst, Bool-cases,
  length-append, concat, append_assoc, append-nil,
}
use shario.Types.{NetworkOp, err, Error}
use shario.Queue.Wrap.{QueueWrap, AnswersNew, answer_ok, receive_all}
use shario.StateRequest.{queue_state, to_network_ops}
use shario.StateRequest.Bytes.{
  to_be_bytes, from_be_bytes, length-to_be_bytes, from_be_bytes-to_be_bytes,
}
use shario.StateRequest.Transfer.{
  Formats, finishes, Reception, Dial, unreachable, unopened, opened, read_exact, max_state_bytes,
  encoded_state, accept, abort, too_large, apply_decoded, decode_payload, receive_payload,
  receive_prefix, request_state,
}

-- A buffer that the stream's next bytes fill.
read_exact-filled :
    (n : ℕ) (xs rest : List ℕ) (ending : String)
    → length xs ≡ n
    → read_exact n (record { bytes = xs ++ rest; ending = ending })
      ≡ inr (xs, record { bytes = rest; ending = ending })
read_exact-filled n xs rest ending e =
    subst
      (λ m.
        read_exact m (record { bytes = xs ++ rest; ending = ending })
        ≡ inr (xs, record { bytes = rest; ending = ending }))
      e
      (rw
        (
          ltb-above (length (xs ++ rest)) (length xs) (omega (arith, length-append xs rest)),
          take-of_append xs rest,
          drop-of_append xs rest,
        )
        refl)

prefix-received :
    (formats : Formats) (w : QueueWrap) (n : ℕ) (rest : List ℕ) (ending : String)
    → n < 2 ^ 64
    → request_state formats (opened (record { bytes = to_be_bytes n ++ rest; ending = ending })) w
      ≡ receive_payload formats w n (record { bytes = rest; ending = ending })
unfolding request_state receive_prefix
prefix-received formats w n rest ending small =
    ap (receive_prefix formats w)
      (read_exact-filled 8 (to_be_bytes n) rest ending (length-to_be_bytes n))
    ∙ ap (λ m. receive_payload formats w m (record { bytes = rest; ending = ending }))
        (from_be_bytes-to_be_bytes n small)

payload-received :
    (formats : Formats) (w : QueueWrap) (bytes rest : List ℕ) (ending : String)
    → length bytes ≤ max_state_bytes
    → receive_payload formats w (length bytes) (record { bytes = bytes ++ rest; ending = ending })
      ≡ apply_decoded w (formats.from_slice bytes)
unfolding receive_payload decode_payload
payload-received formats w bytes rest ending small =
    rw (ltb-above max_state_bytes (length bytes) small)
      (ap (decode_payload formats w) (read_exact-filled (length bytes) bytes rest ending refl))

-- The whole of what `accept` writes when nothing fails, as the asking side's stream.
abbrev pub delivered : Formats → QueueWrap → List ℕ → String → Dial
delivered formats sender rest ending =
    opened (record { bytes = concat (accept formats sender finishes).0 ++ rest; ending = ending })

sent :
    (formats : Formats) (sender : QueueWrap) (rest : List ℕ)
    → length (encoded_state formats sender) < 2 ^ 64
    → concat (accept formats sender finishes).0 ++ rest
      ≡ to_be_bytes (length (encoded_state formats sender))
        ++ (encoded_state formats sender ++ rest)
unfolding accept
sent formats sender rest small =
    let encoded = encoded_state formats sender in
    let fits : length encoded % 2 ^ 64 ≡ length encoded = omega (arith, small) in
    ap (λ n. (to_be_bytes n ++ (encoded ++ [])) ++ rest) fits
    ∙ append_assoc (to_be_bytes (length encoded)) (encoded ++ []) rest
    ∙ ap (λ x. to_be_bytes (length encoded) ++ (x ++ rest)) (append-nil encoded)

-- Where a state that serde_json decodes again is no longer than 1024^3 bytes, the asking side that
-- receives what `accept` writes, in any pieces and with anything behind it, applies exactly the sender's state, as
-- operations in their order.
pub request_state-accept :
    (formats : Formats) (sender asker : QueueWrap) (rest : List ℕ) (ending : String)
    → formats.from_slice (encoded_state formats sender)
      ≡ inr (to_network_ops (queue_state sender.queue))
    → length (encoded_state formats sender) ≤ max_state_bytes
    → request_state formats (delivered formats sender rest ending) asker
      ≡ answer_ok (receive_all asker (to_network_ops (queue_state sender.queue)))
unfolding apply_decoded
request_state-accept formats sender asker rest ending decodes small =
    let encoded = encoded_state formats sender in
    ap (λ bytes. request_state formats (opened (record { bytes = bytes; ending = ending })) asker)
      (sent formats sender rest (omega (arith, small)))
    ∙ prefix-received formats asker (length encoded) (encoded ++ rest) ending (omega (arith, small))
    ∙ payload-received formats asker encoded rest ending small
    ∙ ap (apply_decoded asker) decodes

-- A state of more than 1024^3 bytes, its length below 2^64, is sent, and the asking side refuses it by
-- its length alone, whatever follows, and leaves its queue and its buffer as they were.
pub request_state-too_large :
    (formats : Formats) (sender asker : QueueWrap) (rest : List ℕ) (ending : String)
    → max_state_bytes < length (encoded_state formats sender)
    → length (encoded_state formats sender) < 2 ^ 64
    → request_state formats (delivered formats sender rest ending) asker
      ≡ abort asker (too_large formats (length (encoded_state formats sender)))
unfolding receive_payload
request_state-too_large formats sender asker rest ending large small =
    let encoded = encoded_state formats sender in
    ap (λ bytes. request_state formats (opened (record { bytes = bytes; ending = ending })) asker)
      (sent formats sender rest small)
    ∙ prefix-received formats asker (length encoded) (encoded ++ rest) ending small
    ∙ rw (ltb-below max_state_bytes (length encoded) large) refl

abbrev Untouched : QueueWrap → AnswersNew → Type 0
Untouched w answer = (w' : QueueWrap) (e : Error) → answer ≡ some (w', err e) → w' ≡ w

aborted : (w : QueueWrap) (message : String) → Untouched w (abort w message)
aborted w message w' e h = cc h

applied : (w : QueueWrap) (o : Option QueueWrap) → Untouched w (answer_ok o)
applied w none w' e h = cc h
applied w (some v) w' e h = cc h

decoded-keeps : (w : QueueWrap) (s : String ⊎ List NetworkOp) → Untouched w (apply_decoded w s)
unfolding apply_decoded
decoded-keeps w (inl e) = aborted w _
decoded-keeps w (inr state) = applied w _

payload-keeps :
    (formats : Formats) (w : QueueWrap) (s : String ⊎ (List ℕ × Reception))
    → Untouched w (decode_payload formats w s)
unfolding decode_payload
payload-keeps formats w (inl e) = aborted w _
payload-keeps formats w (inr (bytes, recv)) = decoded-keeps w (formats.from_slice bytes)

length-keeps :
    (formats : Formats) (w : QueueWrap) (n : ℕ) (recv : Reception)
    → Untouched w (receive_payload formats w n recv)
unfolding receive_payload
length-keeps formats w n recv = elim (Bool-cases (ltb max_state_bytes n)) [
  | inl large ↦ rw large (aborted w _)
  | inr small ↦ rw small (payload-keeps formats w (read_exact n recv))
]

prefix-keeps :
    (formats : Formats) (w : QueueWrap) (s : String ⊎ (List ℕ × Reception))
    → Untouched w (receive_prefix formats w s)
unfolding receive_prefix
prefix-keeps formats w (inl e) = aborted w _
prefix-keeps formats w (inr (len_buf, recv)) = length-keeps formats w (from_be_bytes len_buf) recv

-- A request that ends with an error, wherever it fails, leaves the queue and the buffer as they were: no
-- operation of a state is applied unless all of it has arrived and been decoded.
pub request_state-keeps :
    (formats : Formats) (dial : Dial) (w w' : QueueWrap) (e : Error)
    → request_state formats dial w ≡ some (w', err e)
    → w' ≡ w
unfolding request_state
request_state-keeps formats (unreachable message) w w' e h = aborted w _ w' e h
request_state-keeps formats (unopened message) w w' e h = aborted w _ w' e h
request_state-keeps formats (opened recv) w w' e h =
    prefix-keeps formats w (read_exact 8 recv) w' e h
