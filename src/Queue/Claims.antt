-- ===== src/Queue/Claims.antt =====
-- ClaimPending of redis_stream.go. The loop takes fuel, one unit for each XAUTOCLAIM.
use senior_backend_order_ing.Prelude.{
  ℕ, zero, suc, ◌-◌, String, Bool, ◌||◌, Option, none, some, List, [], ◌++◌, Result, ok, err,
  str_eq, if◌then◌else◌, ◌==◌, ltb, length,
}
use senior_backend_order_ing.Queue.Message.{StreamMessage}
use senior_backend_order_ing.Queue.Fields.{Formats, XMessage, FieldError, parse_stream_messages}
use senior_backend_order_ing.Queue.Calls.{ReplyError, StreamError, Client}

-- What the loop does after a reply: it returns, or goes on from a cursor.
pub data Claim : Type 0 where
  returns : Result StreamError (List StreamMessage) → Claim
  goes_on : String → List StreamMessage → Claim

module _ {R : Type 0} (client : Client R) (f : Formats) where
  -- `next == "" || next == "0-0" || next == start`
  abbrev pub is_last : String → String → Bool
  is_last start next = str_eq next "" || (str_eq next "0-0" || str_eq next start)

  abbrev pub after_parse :
      String → String → List StreamMessage → Result FieldError (List StreamMessage) → Claim
  after_parse start next claimed (err e) = Claim.returns (err (StreamError.unparsable e))
  after_parse start next claimed (ok parsed) =
      if is_last start next
      then Claim.returns (ok (claimed ++ parsed))
      else Claim.goes_on next (claimed ++ parsed)

  unfoldable pub after_reply :
      String → List StreamMessage → Result ReplyError (List XMessage × String) → Claim
  after_reply start claimed (ok (messages, next)) =
      after_parse start next claimed (parse_stream_messages f messages)
  after_reply start claimed (err ReplyError.nil_reply) = Claim.returns (ok claimed)
  after_reply start claimed (err ReplyError.busy_group) =
      Claim.returns (err (StreamError.redis ReplyError.busy_group))
  after_reply start claimed (err (ReplyError.client_failed t)) =
      Claim.returns (err (StreamError.redis (ReplyError.client_failed t)))

  -- `none` means that the fuel ran out before the loop returned.
  abbrev pub Claimed : Type 0
  Claimed = Option (Result StreamError (List StreamMessage)) × R

  abbrev pub go_on : (String → List StreamMessage → R → Claimed) → Claim → R → Claimed
  go_on loop (Claim.returns r) s = (some r, s)
  go_on loop (Claim.goes_on start claimed) s = loop start claimed s

  module _ (consumer_name : String) (min_idle count : ℕ) where
    -- The call of the client in one round.
    abbrev pub auto_claim :
        String → List StreamMessage → R → Result ReplyError (List XMessage × String) × R
    auto_claim start claimed s =
        client.x_auto_claim consumer_name min_idle start (count - length claimed) s

    unfoldable pub claim_loop : ℕ → String → List StreamMessage → R → Claimed
    unfolding after_reply
    claim_loop zero start claimed s = (none, s)
    claim_loop (suc fuel) start claimed s =
        if ltb (length claimed) count
        then (let (reply, s') = auto_claim start claimed s in
            go_on (claim_loop fuel) (after_reply start claimed reply) s')
        else (some (ok claimed), s)

    unfoldable pub claim_pending : ℕ → R → Claimed
    unfolding claim_loop
    claim_pending fuel s =
        if str_eq consumer_name ""
        then (some (err (StreamError.argument "consumer name is required")), s)
        else if min_idle == 0
        then (
          some (err (StreamError.argument "minimum idle duration must be greater than zero")),
          s,
        )
        else if count == 0
        then (some (err (StreamError.argument "claim count must be greater than zero")), s)
        else claim_loop fuel "0-0" [] s
