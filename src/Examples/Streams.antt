-- ===== src/Examples/Streams.antt =====
-- A stream with two stale entries, and the theorems of the queue.
use senior_backend_order_ing.Prelude.{
  ℕ, String, ◌≡◌, ◌≢◌, ◌≤◌, ◌<◌, refl, true, false, inl, inr, List, [], ◌∷◌, none, some, Result, ok,
  err, arith, ltb, str_eq, Bool-cases, subst, sym, ◌&&◌, if◌then◌else◌,
}
use senior_backend_order_ing.Domain.{to_text}
use senior_backend_order_ing.Database.{Decoded}
use senior_backend_order_ing.Queue.Fields.{
  Formats, FieldValue, FieldError, Values, XMessage, event_fields, parse_stream_message,
}
use senior_backend_order_ing.Queue.RoundTrip.{delivered, parse-event_fields}
use senior_backend_order_ing.Queue.Calls.{ReplyError, StreamError, Client}
use senior_backend_order_ing.Queue.Claims.{is_last, claim_pending}
use senior_backend_order_ing.Queue.ClaimBounds.{
  Advances, RepliesFit, FitsIfDone, claim_pending_ends, claim_pending_unparsable,
}
use senior_backend_order_ing.Examples.Fixtures.{paid_event}

-- Every text is an object, and every instant is the one of `paid_event`.
abbrev formats : Formats
formats = record {
  unmarshal = λ _. Decoded.object;
  format_time = λ t. "2024-01-01T00:00:00Z";
  parse_time = λ s. some paid_event.timestamp;
}

abbrev paid_values : Values
paid_values =
    ("event_id", FieldValue.text "e-paid")
    ∷ ("order_id", FieldValue.text "order-1")
    ∷ ("status", FieldValue.text "PAID")
    ∷ ("timestamp", FieldValue.text "2024-01-01T00:00:00Z")
    ∷ ("payload", FieldValue.text "{}")
    ∷ []

sent : event_fields formats paid_event ≡ ok paid_values
unfolding event_fields to_text
sent = refl

parse-event_fields_example :
    parse_stream_message formats (record { id = "1-0"; values = paid_values })
    ≡ ok (record { redis_id = "1-0"; event = delivered paid_event; attempts = 0 })
parse-event_fields_example =
    parse-event_fields formats paid_event "1-0" paid_values
      (record { empty_object = refl; time_text = refl; time_back = refl }) sent

abbrev entry : XMessage
entry = record { id = "1-0"; values = paid_values }

-- An entry without fields.
abbrev bare : XMessage
bare = record { id = "2-0"; values = [] }

abbrev claims_of : List XMessage → String → ℕ → Result ReplyError (List XMessage × String)
claims_of entries start n =
    if ltb 1 n && str_eq start "0-0" then ok (entries, "2-0") else ok ([], "0-0")

-- A stream that hands out its stale entries at once.
abbrev client_of : List XMessage → Client (Unit {0})
client_of entries = record {
  x_group_create = λ s. (ok tt, s);
  x_add = λ values s. (ok "3-0", s);
  x_read_group = λ consumer count block s. (ok [], s);
  x_auto_claim = λ consumer min_idle start n s. (claims_of entries start n, s);
  x_ack = λ id s. (ok tt, s);
  x_info_groups = λ s. (ok [], s);
  x_len = λ s. (ok 2, s);
  x_pending = λ s. (ok 2, s);
}

abbrev position : String → ℕ
position cursor = if str_eq cursor "0-0" then 0 else 1

advances : Advances (client_of (entry ∷ [])) formats "reclaimer" 1000 10 position 1
advances start n s messages next reply more = elim (Bool-cases (ltb 1 n && str_eq start "0-0")) [
  | inl found ↦
      let begins : str_eq start "0-0" ≡ true = ground arith in
      let is : "2-0" ≡ next = ground arith in
      subst (λ (c : String). (position start < position c) × (position c ≤ 1)) is
        (rw begins (omega arith, omega arith))
  | inr empty ↦
      let is : "0-0" ≡ next = ground arith in
      let last : true ≡ false =
        subst (λ (c : String). is_last (client_of (entry ∷ [])) formats start c ≡ false) (sym is)
          more in
      cc last
]

replies_fit : RepliesFit (client_of (entry ∷ [])) formats "reclaimer" 1000 10
replies_fit start n s messages next reply = elim (Bool-cases (ltb 1 n && str_eq start "0-0")) [
  | inl found ↦ ground arith
  | inr empty ↦ ground arith
]

claim_pending_ends_example :
    ((claim_pending (client_of (entry ∷ [])) formats "reclaimer" 1000 10 2 tt).0 ≢ none)
    × FitsIfDone
        (client_of (entry ∷ []))
        formats
        "reclaimer"
        1000
        10
        (claim_pending (client_of (entry ∷ [])) formats "reclaimer" 1000 10 2 tt).0
claim_pending_ends_example =
    claim_pending_ends (client_of (entry ∷ [])) formats "reclaimer" 1000 10 position 1 advances
      replies_fit (omega arith) 2 (omega arith) tt

readable :
    parse_stream_message formats entry
    ≡ ok (record { redis_id = "1-0"; event = delivered paid_event; attempts = 0 })
readable =
    parse-event_fields formats paid_event "1-0" paid_values
      (record { empty_object = refl; time_text = refl; time_back = refl }) sent

unreadable : parse_stream_message formats bare ≡ err (FieldError.missing "event_id")
unfolding parse_stream_message
unreadable = refl

claim_pending_unparsable_example :
    (claim_pending (client_of (entry ∷ bare ∷ [])) formats "reclaimer" 1000 10 1 tt).0
    ≡ some (
        err
          (StreamError.unparsable (FieldError.parse_message "2-0" (FieldError.missing "event_id"))))
claim_pending_unparsable_example =
    claim_pending_unparsable (client_of (entry ∷ bare ∷ [])) formats "reclaimer" 1000 10 0 tt
      (entry ∷ []) bare [] (FieldError.missing "event_id") "2-0" refl (omega arith) (omega arith)
      refl ((record { redis_id = "1-0"; event = delivered paid_event; attempts = 0 }, readable), tt)
      unreadable
