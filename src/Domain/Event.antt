-- ===== src/Domain/Event.antt =====
-- internal/domain/status.go and order_event.go
use senior_backend_order_ing.Prelude.{ℕ, String, Bool, true, false, str_eq, ◌==◌, if◌then◌else◌}

-- A `Status` string: empty, one of the four constants, or any other text.
pub data Status : Type 0 where
  unset created paid shipped cancelled : Status
  unknown : String → Status

-- The conversion `domain.Status(text)`.
unfoldable pub of_text : String → Status
of_text s =
    if str_eq s ""
    then Status.unset
    else if str_eq s "CREATED"
    then Status.created
    else if str_eq s "PAID"
    then Status.paid
    else if str_eq s "SHIPPED"
    then Status.shipped
    else if str_eq s "CANCELLED"
    then Status.cancelled
    else Status.unknown s

-- The conversion `string(status)`.
unfoldable pub to_text : Status → String
to_text Status.unset = ""
to_text Status.created = "CREATED"
to_text Status.paid = "PAID"
to_text Status.shipped = "SHIPPED"
to_text Status.cancelled = "CANCELLED"
to_text (Status.unknown s) = s

unfoldable pub is_known : Status → Bool
is_known Status.created = true
is_known Status.paid = true
is_known Status.shipped = true
is_known Status.cancelled = true
is_known _ = false

-- Go's `==` on two statuses.
unfoldable pub status_eq : Status → Status → Bool
status_eq Status.unset Status.unset = true
status_eq Status.created Status.created = true
status_eq Status.paid Status.paid = true
status_eq Status.shipped Status.shipped = true
status_eq Status.cancelled Status.cancelled = true
status_eq (Status.unknown a) (Status.unknown b) = str_eq a b
status_eq _ _ = false

-- Instants are counted in nanoseconds from the start of the year 0, the earliest instant that the
-- RFC 3339 format can write. Go's zero time is the start of the year 1, 366 days later.
abbrev pub zero_time : ℕ
zero_time = 31622400000000000

-- `time.Time.IsZero`
abbrev pub is_zero : ℕ → Bool
is_zero t = t == zero_time

pub record OrderEvent : Type 0 where
  pub event_id : String
  pub order_id : String
  pub status : Status
  pub timestamp : ℕ
  pub payload : String
