-- ===== src/Queue/Fields.antt =====
-- eventFields, parseStreamMessage, requiredStringField and normalizePayload of redis_stream.go
use senior_backend_order_ing.Prelude.{
  ℕ, String, Bool, true, false, Option, none, some, List, [], ◌∷◌, Result, ok, err, map_err, str_eq,
  if◌then◌else◌,
}
use senior_backend_order_ing.Prelude.Results.{◌>>=◌, ◌>>◌}
use senior_backend_order_ing.Domain.{OrderEvent, is_zero, of_text, to_text}
use senior_backend_order_ing.Database.{Decoded}
use senior_backend_order_ing.Queue.Message.{StreamMessage}

-- What the standard library decides: `json.Unmarshal` into a map, and the texts of instants in the
-- layout RFC3339Nano.
pub record Formats : Type 0 where
  pub unmarshal : String → Decoded
  pub format_time : ℕ → String
  pub parse_time : String → Option ℕ

-- A value of `map[string]any`, as the type switch of requiredStringField tells them apart.
pub data FieldValue : Type 0 where
  text bytes : String → FieldValue
  other : FieldValue

abbrev pub Values : Type 0
Values = List (String × FieldValue)

-- `values[name]`
abbrev pub value_of : String → Values → Option FieldValue
value_of name [] = none
value_of name ((key, v) ∷ rest) = if str_eq key name then some v else value_of name rest

-- redis.XMessage
pub record XMessage : Type 0 where
  pub id : String
  pub values : Values

pub data FieldError : Type 0 where
  required missing empty unsupported_type : String → FieldError
  not_object null_object : FieldError
  bad_timestamp : String → FieldError
  payload_field : FieldError → FieldError
  parse_message : String → FieldError → FieldError

abbrev pub Fallible : Type 0 → Type 0
Fallible A = Result FieldError A

unfoldable pub check_object : Decoded → String → Fallible String
check_object Decoded.malformed payload = err FieldError.not_object
check_object Decoded.null_value payload = err FieldError.null_object
check_object Decoded.object payload = ok payload

unfoldable pub normalize_payload : Formats → String → Fallible String
unfolding check_object
normalize_payload f payload =
    if str_eq payload "" then ok "{}" else check_object (f.unmarshal payload) payload

abbrev pub require : Bool → FieldError → Fallible (Unit {0})
require true e = err e
require false e = ok tt

unfoldable pub event_fields : Formats → OrderEvent → Fallible Values
unfolding normalize_payload
event_fields f event = do
  require (str_eq event.event_id "") (FieldError.required "event ID")
  require (str_eq event.order_id "") (FieldError.required "order ID")
  require (str_eq (to_text event.status) "") (FieldError.required "status")
  require (is_zero event.timestamp) (FieldError.required "timestamp")
  payload ← normalize_payload f event.payload
  ok (
      ("event_id", FieldValue.text event.event_id)
      ∷ ("order_id", FieldValue.text event.order_id)
      ∷ ("status", FieldValue.text (to_text event.status))
      ∷ ("timestamp", FieldValue.text (f.format_time event.timestamp))
      ∷ ("payload", FieldValue.text payload)
      ∷ [])

-- The type switch.
unfoldable pub string_value : String → Option FieldValue → Fallible String
string_value name none = err (FieldError.missing name)
string_value name (some (FieldValue.text s)) = ok s
string_value name (some (FieldValue.bytes s)) = ok s
string_value name (some FieldValue.other) = err (FieldError.unsupported_type name)

unfoldable pub non_empty : String → String → Fallible String
non_empty name s = if str_eq s "" then err (FieldError.empty name) else ok s

unfoldable pub required_string_field : Values → String → Fallible String
unfolding string_value non_empty
required_string_field values name = do
  s ← string_value name (value_of name values)
  non_empty name s

abbrev pub parsed_time : String → Option ℕ → Fallible ℕ
parsed_time s none = err (FieldError.bad_timestamp s)
parsed_time s (some t) = ok t

unfoldable pub parse_stream_message : Formats → XMessage → Fallible StreamMessage
unfolding required_string_field normalize_payload
parse_stream_message f message = do
  event_id ← required_string_field message.values "event_id"
  order_id ← required_string_field message.values "order_id"
  status ← required_string_field message.values "status"
  timestamp_value ← required_string_field message.values "timestamp"
  payload_value ← required_string_field message.values "payload"
  timestamp ← parsed_time timestamp_value (f.parse_time timestamp_value)
  payload ← map_err FieldError.payload_field (normalize_payload f payload_value)
  ok (record {
    redis_id = message.id;
    event = record {
      event_id = event_id;
      order_id = order_id;
      status = of_text status;
      timestamp = timestamp;
      payload = payload;
    };
    attempts = 0;
  })

-- parseStreamMessages: the first message that cannot be parsed fails them all.
unfoldable pub parse_stream_messages : Formats → List XMessage → Fallible (List StreamMessage)
parse_stream_messages f [] = ok []
parse_stream_messages f (message ∷ rest) = do
  m ← map_err (FieldError.parse_message message.id) (parse_stream_message f message)
  ms ← parse_stream_messages f rest
  ok (m ∷ ms)
