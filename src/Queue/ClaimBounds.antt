-- ===== src/Queue/ClaimBounds.antt =====
-- The loop of ClaimPending: it ends, it claims no more than asked, and one message that cannot be
-- parsed fails the whole claim.
use senior_backend_order_ing.Prelude.{
  ℕ, zero, suc, ◌+◌, ◌-◌, ◌<◌, ◌≤◌, String, ◌≡◌, ◌≢◌, refl, sym, true, false, Option, none, some,
  List, [], ◌∷◌, ◌++◌, Result, ok, err, str_eq, arith, subst, ◌==◌, ltb, length, inl, inr,
  Bool-cases, Result-cases,
}
use senior_backend_order_ing.Queue.Message.{StreamMessage}
use senior_backend_order_ing.Queue.Fields.{
  Formats, XMessage, FieldError, parse_stream_message, parse_stream_messages,
}
use senior_backend_order_ing.Queue.Calls.{ReplyError, StreamError, Client}
use senior_backend_order_ing.Queue.Claims.{
  Claim, is_last, after_parse, after_reply, auto_claim, go_on, Claimed, claim_loop, claim_pending,
}

length-append {ℓ} : {A : Type ℓ} (xs ys : List A) → length (xs ++ ys) ≡ length xs + length ys
length-append [] ys = omega arith
length-append (x ∷ xs) ys = omega (arith, length-append xs ys)

length-parse_stream_messages :
    (f : Formats) (messages : List XMessage) (parsed : List StreamMessage)
    → parse_stream_messages f messages ≡ ok parsed
    → length parsed ≡ length messages
unfolding parse_stream_messages
length-parse_stream_messages f [] parsed h = ground arith
length-parse_stream_messages f (m ∷ ms) parsed h =
    elim (Result-cases (parse_stream_messages f ms)) [
      | inl (rest, e) ↦ ground (arith, length-parse_stream_messages f ms rest e)
      | inr (e, bad) ↦ ground arith
    ]

-- Every message of the list can be parsed.
abbrev pub AreParsed : Formats → List XMessage → Type 0
AreParsed f [] = Unit
AreParsed f (m ∷ ms) =
    ((parsed : StreamMessage) × (parse_stream_message f m ≡ ok parsed)) × AreParsed f ms

-- The first message that cannot be parsed gives the error, with its ID.
first_unparsable :
    (f : Formats) (readable : List XMessage) (m : XMessage) (rest : List XMessage) (e : FieldError)
    → AreParsed f readable
    → parse_stream_message f m ≡ err e
    → parse_stream_messages f (readable ++ (m ∷ rest)) ≡ err (FieldError.parse_message m.id e)
unfolding parse_stream_messages
first_unparsable f [] m rest e h bad = rw bad refl
first_unparsable f (x ∷ xs) m rest e ((parsed, readable), h) bad =
    rw (readable, first_unparsable f xs m rest e h bad) refl

module _ {R : Type 0} (client : Client R) (f : Formats) (consumer_name : String)
    (min_idle count : ℕ) where
  -- A reply holds at most as many messages as were asked for.
  abbrev pub RepliesFit : Type 0
  RepliesFit =
      (start : String) (n : ℕ) (s : R) (messages : List XMessage) (next : String)
      → (client.x_auto_claim consumer_name min_idle start n s).0 ≡ ok (messages, next)
      → length messages ≤ n

  -- What a round makes of a reply keeps the number of messages within the count.
  abbrev Fits : Claim → Type 0
  Fits (Claim.returns (ok messages)) = length messages ≤ count
  Fits (Claim.returns (err e)) = Unit
  Fits (Claim.goes_on start claimed) = length claimed ≤ count

  after_parse-Fits :
      (start next : String) (claimed : List StreamMessage) (parsed : List StreamMessage)
      → length claimed + length parsed ≤ count
      → Fits (after_parse client f start next claimed (ok parsed))
  after_parse-Fits start next claimed parsed h = elim (Bool-cases (is_last client f start next)) [
    | inl last ↦ rw last (omega (arith, length-append claimed parsed))
    | inr more ↦ rw more (omega (arith, length-append claimed parsed))
  ]

  after_reply-Fits :
      (start : String) (claimed : List StreamMessage)
      (reply : Result ReplyError (List XMessage × String))
      → length claimed ≤ count
      → ((messages : List XMessage) (next : String)
          → reply ≡ ok (messages, next)
          → length messages ≤ count - length claimed)
      → Fits (after_reply client f start claimed reply)
  unfolding after_reply
  after_reply-Fits start claimed (ok (messages, next)) h fit =
      elim (Result-cases (parse_stream_messages f messages)) [
        | inl (parsed, e) ↦ rw e (
            after_parse-Fits start next claimed parsed (
              omega
                (arith, fit messages next refl, length-parse_stream_messages f messages parsed e)))
        | inr (e, bad) ↦ rw bad tt
      ]
  after_reply-Fits start claimed (err ReplyError.nil_reply) h fit = h
  after_reply-Fits start claimed (err ReplyError.busy_group) h fit = tt
  after_reply-Fits start claimed (err (ReplyError.client_failed t)) h fit = tt

  abbrev pub FitsIfDone : Option (Result StreamError (List StreamMessage)) → Type 0
  FitsIfDone none = Unit
  FitsIfDone (some (err e)) = Unit
  FitsIfDone (some (ok messages)) = length messages ≤ count

  go_on-Fits :
      (loop : String → List StreamMessage → R → Claimed client f) (c : Claim) (s : R)
      → Fits c
      → ((start : String) (claimed : List StreamMessage) (s : R)
          → length claimed ≤ count
          → FitsIfDone (loop start claimed s).0)
      → FitsIfDone (go_on client f loop c s).0
  go_on-Fits loop (Claim.returns (ok messages)) s h ih = h
  go_on-Fits loop (Claim.returns (err e)) s h ih = tt
  go_on-Fits loop (Claim.goes_on start claimed) s h ih = ih start claimed s h

  claim_loop-Fits :
      RepliesFit
      → (fuel : ℕ) (start : String) (claimed : List StreamMessage) (s : R) → length claimed ≤ count
      → FitsIfDone (claim_loop client f consumer_name min_idle count fuel start claimed s).0
  unfolding claim_loop
  claim_loop-Fits fit zero start claimed s h = tt
  claim_loop-Fits fit (suc fuel) start claimed s h =
      elim (Bool-cases (ltb (length claimed) count)) [
        | inr full ↦ rw full h
        | inl room ↦
            let (reply, s') = auto_claim client f consumer_name min_idle count start claimed s in
            rw room (
              go_on-Fits _ (after_reply client f start claimed reply) s'
                (after_reply-Fits start claimed reply h
                  (λ messages next e. fit start (count - length claimed) s messages next e))
                (claim_loop-Fits fit fuel))
      ]

  -- The cursors of the replies advance: unless a reply's cursor ends the loop, it is further than
  -- the one that was sent, and none is beyond the end of the stream.
  abbrev pub Advances : (String → ℕ) → ℕ → Type 0
  Advances position stream_end =
      (start : String) (n : ℕ) (s : R) (messages : List XMessage) (next : String)
      → (client.x_auto_claim consumer_name min_idle start n s).0 ≡ ok (messages, next)
      → is_last client f start next ≡ false
      → (position start < position next) × (position next ≤ stream_end)

  module _ (position : String → ℕ) (stream_end : ℕ) where
    abbrev AdvancesTo : String → Claim → Type 0
    AdvancesTo start (Claim.returns r) = Unit
    AdvancesTo start (Claim.goes_on next claimed) =
        (position start < position next) × (position next ≤ stream_end)

    after_reply-AdvancesTo :
        (start : String) (claimed : List StreamMessage)
        (reply : Result ReplyError (List XMessage × String))
        → ((messages : List XMessage) (next : String)
            → reply ≡ ok (messages, next)
            → is_last client f start next ≡ false
            → (position start < position next) × (position next ≤ stream_end))
        → AdvancesTo start (after_reply client f start claimed reply)
    unfolding after_reply
    after_reply-AdvancesTo start claimed (ok (messages, next)) h =
        elim (Result-cases (parse_stream_messages f messages)) [
          | inr (e, bad) ↦ rw bad tt
          | inl (parsed, e) ↦ elim (Bool-cases (is_last client f start next)) [
            | inl last ↦ rw (e, last) tt
            | inr more ↦ rw (e, more) (h messages next refl more)
          ]
        ]
    after_reply-AdvancesTo start claimed (err ReplyError.nil_reply) h = tt
    after_reply-AdvancesTo start claimed (err ReplyError.busy_group) h = tt
    after_reply-AdvancesTo start claimed (err (ReplyError.client_failed t)) h = tt

    go_on-ne-none :
        (loop : String → List StreamMessage → R → Claimed client f) (start : String) (c : Claim)
        (s : R)
        → AdvancesTo start c
        → ((next : String) (claimed : List StreamMessage) (s : R)
            → (position start < position next) × (position next ≤ stream_end)
            → (loop next claimed s).0 ≢ none)
        → (go_on client f loop c s).0 ≢ none
    go_on-ne-none loop start (Claim.returns r) s h ih = λ e. cc
    go_on-ne-none loop start (Claim.goes_on next claimed) s h ih = ih next claimed s h

    claim_loop-ne-none :
        Advances position stream_end
        → (fuel : ℕ) (start : String) (claimed : List StreamMessage) (s : R)
        → stream_end < fuel + position start
        → position start ≤ stream_end
        → (claim_loop client f consumer_name min_idle count fuel start claimed s).0 ≢ none
    unfolding claim_loop
    claim_loop-ne-none advances zero start claimed s enough within = absurd (omega arith)
    claim_loop-ne-none advances (suc fuel) start claimed s enough within =
        elim (Bool-cases (ltb (length claimed) count)) [
          | inr full ↦ rw full (λ e. cc)
          | inl room ↦
              let (reply, s') = auto_claim client f consumer_name min_idle count start claimed s in
              rw room (
                go_on-ne-none _ start (after_reply client f start claimed reply) s'
                  (after_reply-AdvancesTo start claimed reply (λ messages next e more.
                    advances start (count - length claimed) s messages next e more))
                  (λ next claimed' t further.
                    claim_loop-ne-none advances fuel next claimed' t (omega arith) further.1))
        ]

    -- ClaimPending ends, within as many calls of XAUTOCLAIM as there are positions in the stream,
    -- if the cursors advance; and if no reply holds more messages than were asked for, then what it
    -- returns without an error is at most `count` messages.
    pub claim_pending_ends :
        Advances position stream_end
        → RepliesFit
        → position "0-0" ≤ stream_end
        → (fuel : ℕ) → stream_end < fuel
        → (s : R)
        → ((claim_pending client f consumer_name min_idle count fuel s).0 ≢ none)
          × FitsIfDone (claim_pending client f consumer_name min_idle count fuel s).0
    unfolding claim_pending
    claim_pending_ends advances fit within fuel enough s =
        let ends = claim_loop-ne-none advances fuel "0-0" [] s (omega arith) within in
        let bounded = claim_loop-Fits fit fuel "0-0" [] s (omega arith) in
        elim (Bool-cases (str_eq consumer_name "")) [
          | inl a ↦ rw a ((λ e. cc), tt)
          | inr a ↦ elim (Bool-cases (min_idle == 0)) [
            | inl b ↦ rw (a, b) ((λ e. cc), tt)
            | inr b ↦ elim (Bool-cases (count == 0)) [
              | inl c ↦ rw (a, b, c) ((λ e. cc), tt)
              | inr c ↦ rw (a, b, c) (ends, bounded)
            ]
          ]
        ]

  -- For a named consumer, a positive idle time and a positive count: if the first reply holds an entry
  -- that cannot be parsed, behind entries that can, then the whole claim fails with the error of that
  -- entry, wrapped with its ID, whatever follows it in the reply.
  pub claim_pending_unparsable :
      (fuel : ℕ) (s : R) (readable : List XMessage) (m : XMessage) (rest : List XMessage)
      (e : FieldError) (next : String)
      → str_eq consumer_name "" ≡ false
      → 0 < min_idle
      → 0 < count
      → (client.x_auto_claim consumer_name min_idle "0-0" count s).0
        ≡ ok (readable ++ (m ∷ rest), next)
      → AreParsed f readable
      → parse_stream_message f m ≡ err e
      → (claim_pending client f consumer_name min_idle count (suc fuel) s).0
        ≡ some (err (StreamError.unparsable (FieldError.parse_message m.id e)))
  unfolding claim_pending after_reply
  claim_pending_unparsable fuel s readable m rest e next named idle some_count reply parsed bad =
      let fails = first_unparsable f readable m rest e parsed bad in
      let b : (min_idle == 0) ≡ false = ground arith in
      let c : (count == 0) ≡ false = ground arith in
      let room : ltb 0 count ≡ true = ground arith in
      let whole : count - length {A = StreamMessage} [] ≡ count = omega arith in
      let asked : (client.x_auto_claim consumer_name min_idle "0-0"
            (count - length {A = StreamMessage} []) s).0
          ≡ ok (readable ++ (m ∷ rest), next) =
        subst
          (λ (n : ℕ).
            (client.x_auto_claim consumer_name min_idle "0-0" n s).0
            ≡ ok (readable ++ (m ∷ rest), next))
          (sym whole) reply in
      rw (named, b, c, room, asked, fails) refl
