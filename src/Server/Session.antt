-- ===== src/Server/Session.antt =====
-- main.rs and types.rs: tickets, and how a session is created, joined and announced.
-- The proxy's answers, the encodings (serde_json, BASE32_NOPAD) and the random topic are arguments.
use shario.Prelude.{
  ℕ, ◌+◌, ◌-◌, ◌≤◌, ◌<◌, ◌&&◌, Option, none, some, List, [], ◌∷◌, ◌++◌, ◌≡◌, ◌⊎◌, inl, inr, refl,
  sym, ap, ◌∙◌, arith, String, if◌then◌else◌, ltb, leb, ◌==◌, map, All, append_assoc, append-nil,
}
use shario.Queue.State.{◌>>=◌}

pub record Ticket (Topic Key : Type 0) : Type 0 where
  pub topic : Topic
  pub peers : List Key

-- Ticket::to_bytes and Ticket::from_bytes, which are serde_json's, and the base 32 encoding of bytes
-- as characters.
pub record Encodings (Topic Key : Type 0) : Type 0 where
  pub to_bytes : Ticket Topic Key → List ℕ
  pub from_bytes : List ℕ → Option (Ticket Topic Key)
  pub encode : List ℕ → List ℕ
  pub decode : List ℕ → Option (List ℕ)

-- `make_ascii_lowercase` and `to_ascii_uppercase`, for one character
abbrev pub ascii_lower : ℕ → ℕ
ascii_lower c = if leb 65 c && leb c 90 then c + 32 else c

abbrev pub ascii_upper : ℕ → ℕ
ascii_upper c = if leb 97 c && leb c 122 then c - 32 else c

module _ {Topic Key : Type 0} (encodings : Encodings Topic Key) where
  -- `Display` and `FromStr` of a ticket
  unfoldable pub display : Ticket Topic Key → List ℕ
  display ticket = map ascii_lower (encodings.encode (encodings.to_bytes ticket))

  unfoldable pub from_str : List ℕ → Option (Ticket Topic Key)
  from_str s = encodings.decode (map ascii_upper s) >>= λ bytes. encodings.from_bytes bytes

  -- The arm of `Create`: the ticket that is posted.
  unfoldable pub created : Topic → List ℕ
  created topic_id = encodings.to_bytes (record { topic = topic_id; peers = [] })

  -- What `Create` makes of the status of the proxy's answer.
  unfoldable pub create_session : Topic → ℕ → String ⊎ (Topic × List Key)
  create_session topic_id status =
      if status == 409
      then inl "Session name already exists"
      else if leb 200 status && ltb status 300
      then inr (topic_id, [])
      else inl "Discovery proxy rejected session creation"

  -- The arm of `Participate`; `none` is a panic.
  unfoldable pub participate_session : ℕ → List ℕ → Option (Topic × List Key)
  participate_session status body =
      if status == 404
      then none
      else (encodings.from_bytes body >>= λ ticket. some (ticket.topic, ticket.peers))

  -- `peers.push(endpoint.id())`, and the ticket that is put.
  unfoldable pub announced : Topic × List Key → Key → List ℕ
  announced (topic, peers) endpoint_id =
      encodings.to_bytes (record { topic = topic; peers = peers ++ endpoint_id ∷ [] })

  -- The proxy's body after members have joined one after another, each announcing what it looked up
  -- with its own key at the end.
  unfoldable pub joined : List ℕ → List Key → Option (List ℕ)
  unfolding participate_session announced
  joined body [] = some body
  joined body (key ∷ keys) =
      participate_session 200 body >>= λ session. joined (announced session key) keys

-- The characters of base 32: 'A' to 'Z', '2' to '7'.
abbrev pub IsBase32 : ℕ → Type 0
IsBase32 c = ((65 ≤ c) × (c ≤ 90)) ⊎ ((50 ≤ c) × (c ≤ 55))

ascii_upper-ascii_lower : (c : ℕ) → IsBase32 c → ascii_upper (ascii_lower c) ≡ c
ascii_upper-ascii_lower c (inl (a, b)) = ground arith
ascii_upper-ascii_lower c (inr (a, b)) = ground arith

uppers-lowers : (cs : List ℕ) → All IsBase32 cs → map ascii_upper (map ascii_lower cs) ≡ cs
uppers-lowers [] h = refl
uppers-lowers (c ∷ cs) (h, hs) =
    ap (λ x. x ∷ map ascii_upper (map ascii_lower cs)) (ascii_upper-ascii_lower c h)
    ∙ ap (◌∷◌ c) (uppers-lowers cs hs)

module _ {Topic Key : Type 0} (encodings : Encodings Topic Key) where
  -- A ticket that is printed and read again is the same, where base 32 writes its own characters and reads
  -- what it wrote, and serde_json reads the ticket that it wrote.
  pub from_str-display :
      (ticket : Ticket Topic Key)
      → All IsBase32 (encodings.encode (encodings.to_bytes ticket))
      → encodings.decode (encodings.encode (encodings.to_bytes ticket))
        ≡ some (encodings.to_bytes ticket)
      → encodings.from_bytes (encodings.to_bytes ticket) ≡ some ticket
      → from_str encodings (display encodings ticket) ≡ some ticket
  unfolding from_str display
  from_str-display ticket alphabet decodes reads =
      ap (λ cs. encodings.decode cs >>= λ bytes. encodings.from_bytes bytes)
        (uppers-lowers _ alphabet)
      ∙ ap (λ o. o >>= λ bytes. encodings.from_bytes bytes) decodes
      ∙ reads

  module _
      (reads : (ticket : Ticket Topic Key)
        → encodings.from_bytes (encodings.to_bytes ticket) ≡ some ticket) where
    pub looked_up :
        (topic : Topic) (peers : List Key)
        → participate_session encodings 200
            (encodings.to_bytes (record { topic = topic; peers = peers }))
          ≡ some (topic, peers)
    unfolding participate_session
    looked_up topic peers =
        ap (λ o. o >>= λ (t : Ticket Topic Key). some (t.topic, t.peers))
          (reads (record { topic = topic; peers = peers }))

    joined-from :
        (topic : Topic) (peers keys : List Key)
        → joined encodings (encodings.to_bytes (record { topic = topic; peers = peers })) keys
          ≡ some (encodings.to_bytes (record { topic = topic; peers = peers ++ keys }))
    unfolding joined announced
    joined-from topic peers [] =
        ap (λ p. some (encodings.to_bytes (record { topic = topic; peers = p })))
          (sym (append-nil peers))
    joined-from topic peers (key ∷ keys) =
        ap (λ o. o >>= λ session. joined encodings (announced encodings session key) keys)
          (looked_up topic peers)
        ∙ joined-from topic (peers ++ key ∷ []) keys
        ∙ ap (λ p. some (encodings.to_bytes (record { topic = topic; peers = p })))
            (append_assoc peers (key ∷ []) keys)

    -- Where serde_json reads the tickets that it wrote, a session that the proxy accepts with any status of
    -- success goes on with its topic and no peer, and once members have joined one after another, the next one that
    -- looks it up gets the same topic and all their keys, in the order in which they joined.
    pub joined-participates :
        (topic : Topic) (keys : List Key) (status : ℕ)
        → 200 ≤ status
        → status < 300
        → (create_session encodings topic status ≡ inr (topic, []))
          × ((joined encodings (created encodings topic) keys >>= λ body.
                participate_session encodings 200 body)
              ≡ some (topic, keys))
    unfolding create_session created
    joined-participates topic keys status from below = (
      ground arith,
      ap (λ o. o >>= λ body. participate_session encodings 200 body) (joined-from topic [] keys)
          ∙ looked_up topic keys,
    )
