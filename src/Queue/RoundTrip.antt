-- ===== src/Queue/RoundTrip.antt =====
-- What is published is read back.
use senior_backend_order_ing.Prelude.{
  ℕ, String, ◌≡◌, refl, subst, false, some, [], ◌∷◌, ok, str_eq, if◌then◌else◌, inl, inr,
  Bool-cases, Result-cases, arith,
}
use senior_backend_order_ing.Domain.{OrderEvent, of_text, to_text}
use senior_backend_order_ing.Database.{Decoded}
use senior_backend_order_ing.Queue.Fields.{
  Formats, FieldValue, Values, normalize_payload, event_fields, parse_stream_message,
}

-- What the round trip rests on: the empty object is an object, and the instant survives its text.
pub record IsFaithfulAt (f : Formats) (t : ℕ) : Type 0 where
  pub empty_object : f.unmarshal "{}" ≡ Decoded.object
  pub time_text : str_eq (f.format_time t) "" ≡ false
  pub time_back : f.parse_time (f.format_time t) ≡ some t

-- The event that a consumer reads: an absent payload has become the empty object.
abbrev pub delivered : OrderEvent → OrderEvent
delivered event = record event {
  status = of_text (to_text event.status);
  payload = if str_eq event.payload "" then "{}" else event.payload;
}

abbrev Normal : Formats → String → String → Type 0
Normal f payload stored =
    (stored ≡ (if str_eq payload "" then "{}" else payload))
    × (str_eq stored "" ≡ false)
    × (normalize_payload f stored ≡ ok stored)

normalized :
    (f : Formats) (payload stored : String)
    → f.unmarshal "{}" ≡ Decoded.object
    → normalize_payload f payload ≡ ok stored
    → Normal f payload stored
unfolding normalize_payload
normalized f payload stored h e = elim (Bool-cases (str_eq payload "")) [
  | inl absent ↦
      let same : "{}" ≡ stored = ground arith in
      subst (λ (s : String). Normal f payload s) same (rw absent refl, refl, rw h refl)
  | inr given ↦
      let read : f.unmarshal payload ≡ Decoded.object = ground arith in
      let same : payload ≡ stored = ground arith in
      subst (λ (s : String). Normal f payload s) same (rw given refl, given, rw (given, read) refl)
]

-- The fields that are sent, and the tests that the event has passed.
fields_of :
    (f : Formats) (event : OrderEvent) (values : Values)
    → event_fields f event ≡ ok values
    → (str_eq event.event_id "" ≡ false)
      × (str_eq event.order_id "" ≡ false)
      × (str_eq (to_text event.status) "" ≡ false)
      × ((stored : String) × (normalize_payload f event.payload ≡ ok stored)
          × (values
              ≡ ("event_id", FieldValue.text event.event_id)
                ∷ ("order_id", FieldValue.text event.order_id)
                ∷ ("status", FieldValue.text (to_text event.status))
                ∷ ("timestamp", FieldValue.text (f.format_time event.timestamp))
                ∷ ("payload", FieldValue.text stored)
                ∷ []))
unfolding event_fields
fields_of f event values h = elim (Result-cases (normalize_payload f event.payload)) [
  | inl (stored, e) ↦ (ground arith, ground arith, ground arith, (stored, e, ground arith))
  | inr (e, bad) ↦ absurd (ground arith)
]

-- An event that can be published is parsed back from its fields as it was, with its Redis ID, and
-- with the empty object for an absent payload.
pub parse-event_fields :
    (f : Formats) (event : OrderEvent) (id : String) (values : Values)
    → IsFaithfulAt f event.timestamp
    → event_fields f event ≡ ok values
    → parse_stream_message f (record { id = id; values = values })
      ≡ ok (record { redis_id = id; event = delivered event; attempts = 0 })
unfolding parse_stream_message
parse-event_fields f event id values faithful h =
    let (has_event_id, has_order_id, has_status, (stored, e, sent)) = fields_of f event values h in
    let (is_stored, not_empty, again) = normalized f event.payload stored faithful.empty_object e in
    rw (
      sent, has_event_id, has_order_id, has_status, faithful.time_text, not_empty,
      faithful.time_back, again, is_stored,
    )
