-- ===== src/Repository/Validation.antt =====
-- validateEvent and isPersistableStatus of order_repository.go
use senior_backend_order_ing.Prelude.{
  String, ◌≡◌, ◌↔◌, Bool, true, false, not, Result, ok, err, str_eq, if◌then◌else◌, arith,
}
use senior_backend_order_ing.Domain.{Status, OrderEvent, is_zero, is_known}
use senior_backend_order_ing.Database.{Decoded, Environment}
use senior_backend_order_ing.Repository.Transaction.{Invalid}

unfoldable pub is_persistable_status : Status → Bool
is_persistable_status Status.created = true
is_persistable_status Status.paid = true
is_persistable_status Status.shipped = true
is_persistable_status Status.cancelled = true
is_persistable_status _ = false

-- An absent payload is the empty object.
unfoldable pub default_payload : String → String
default_payload payload = if str_eq payload "" then "{}" else payload

-- `json.Unmarshal` into a map, and the test for the nil map
unfoldable pub check_object : Decoded → String → Result Invalid String
check_object Decoded.malformed payload = err Invalid.bad_payload
check_object Decoded.null_value payload = err Invalid.null_payload
check_object Decoded.object payload = ok payload

unfoldable pub validate_event : Environment → OrderEvent → Result Invalid String
unfolding is_persistable_status default_payload check_object
validate_event env event =
    if str_eq event.event_id ""
    then err Invalid.no_event_id
    else if str_eq event.order_id ""
    then err Invalid.no_order_id
    else if is_zero event.timestamp
    then err Invalid.no_timestamp
    else if not (is_persistable_status event.status)
    then err Invalid.unsupported_status
    else check_object (env.unmarshal (default_payload event.payload))
        (default_payload event.payload)

-- An event that passes has an event ID, an order ID, a timestamp and one of the four statuses, and
-- the payload that is stored is a JSON object.
pub record IsAcceptable (env : Environment) (event : OrderEvent) (payload : String) : Type 0 where
  pub has_event_id : str_eq event.event_id "" ≡ false
  pub has_order_id : str_eq event.order_id "" ≡ false
  pub has_timestamp : is_zero event.timestamp ≡ false
  pub has_status : is_known event.status ≡ true
  pub has_object : env.unmarshal payload ≡ Decoded.object
  pub is_payload : payload ≡ (if str_eq event.payload "" then "{}" else event.payload)

pub validate_event-IsAcceptable :
    (env : Environment) (event : OrderEvent) (payload : String)
    → validate_event env event ≡ ok payload
    → IsAcceptable env event payload
unfolding validate_event is_known
validate_event-IsAcceptable env event payload h = ground arith

validate_event_accepts :
    (env : Environment) (event : OrderEvent) (payload : String)
    → IsAcceptable env event payload
    → validate_event env event ≡ ok payload
unfolding validate_event is_known
validate_event_accepts env event payload h = ground arith

-- Validation accepts an event, with a payload to store, exactly when the event has an ID, an order
-- ID, a timestamp and one of the four statuses, and its payload, or the empty object if it has
-- none, is a JSON object.
pub validate_event-iff-IsAcceptable :
    (env : Environment) (event : OrderEvent) (payload : String)
    → (validate_event env event ≡ ok payload) ↔ IsAcceptable env event payload
validate_event-iff-IsAcceptable env event payload =
    (validate_event-IsAcceptable env event payload, validate_event_accepts env event payload)
