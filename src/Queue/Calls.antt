-- ===== src/Queue/Calls.antt =====
-- EnsureGroup, Publish, ReadGroup, Ack and the depth queries of redis_stream.go, over a client of
-- Redis with a state `R`.
use senior_backend_order_ing.Prelude.{
  ℕ, String, Option, none, some, List, [], ◌∷◌, ◌++◌, Result, ok, err, str_eq, if◌then◌else◌, ◌==◌,
}
use senior_backend_order_ing.Prelude.Results.{◌>>=◌}
use senior_backend_order_ing.Domain.{OrderEvent}
use senior_backend_order_ing.Queue.Message.{StreamMessage}
use senior_backend_order_ing.Queue.Fields.{
  Formats, Values, XMessage, FieldError, event_fields, parse_stream_messages,
}

-- The errors of the client that the code tells apart: the nil reply, and an error with its text.
pub data ReplyError : Type 0 where
  nil_reply : ReplyError
  busy_group : ReplyError
  client_failed : String → ReplyError

-- redis.XInfoGroup; a lag that Redis cannot determine is negative, here `none`.
pub record XInfoGroup : Type 0 where
  pub name : String
  pub lag : Option ℕ

abbrev pub Call : Type 0 → Type 0 → Type 0
Call R A = R → Result ReplyError A × R

-- The commands that the queue sends, for its stream and its group.
pub record Client (R : Type 0) : Type 0 where
  pub x_group_create : Call R (Unit {0})
  pub x_add : Values → Call R String
  -- the messages of each stream of the reply
  pub x_read_group : String → ℕ → ℕ → Call R (List (List XMessage))
  pub x_auto_claim : String → ℕ → String → ℕ → Call R (List XMessage × String)
  pub x_ack : String → Call R (Unit {0})
  pub x_info_groups : Call R (List XInfoGroup)
  pub x_len : Call R ℕ
  pub x_pending : Call R ℕ

pub data StreamError : Type 0 where
  argument : String → StreamError
  serialize unparsable : FieldError → StreamError
  redis : ReplyError → StreamError

module _ {R : Type 0} (client : Client R) where
  abbrev pub ensured : Result ReplyError (Unit {0}) × R → Result StreamError (Unit {0}) × R
  ensured (err ReplyError.busy_group, s) = (ok tt, s)
  ensured (err ReplyError.nil_reply, s) = (err (StreamError.redis ReplyError.nil_reply), s)
  ensured (err (ReplyError.client_failed t), s) =
      (err (StreamError.redis (ReplyError.client_failed t)), s)
  ensured (ok u, s) = (ok tt, s)

  unfoldable pub ensure_group : R → Result StreamError (Unit {0}) × R
  ensure_group s = ensured (client.x_group_create s)

  abbrev pub redis_result : {A : Type 0} → Result ReplyError A × R → Result StreamError A × R
  redis_result (ok a, s) = (ok a, s)
  redis_result (err e, s) = (err (StreamError.redis e), s)

  unfoldable pub publish : Formats → OrderEvent → R → Result StreamError String × R
  publish f event s = elim (event_fields f event) [
    | ok values ↦ redis_result (client.x_add values s)
    | err e ↦ (err (StreamError.serialize e), s)
  ]

  -- The loop over the streams of a reply.
  unfoldable pub parse_streams :
      Formats → List (List XMessage) → Result FieldError (List StreamMessage)
  parse_streams f [] = ok []
  parse_streams f (messages ∷ streams) = do
    parsed ← parse_stream_messages f messages
    rest ← parse_streams f streams
    ok (parsed ++ rest)

  abbrev pub parsed_result : {A : Type 0} → Result FieldError A → Result StreamError A
  parsed_result (ok a) = ok a
  parsed_result (err e) = err (StreamError.unparsable e)

  unfoldable pub after_read :
      Formats
      → Result ReplyError (List (List XMessage)) × R
      → Result StreamError (List StreamMessage) × R
  unfolding parse_streams
  after_read f (ok streams, s) = (parsed_result (parse_streams f streams), s)
  after_read f (err ReplyError.nil_reply, s) = (ok [], s)
  after_read f (err ReplyError.busy_group, s) = (err (StreamError.redis ReplyError.busy_group), s)
  after_read f (err (ReplyError.client_failed t), s) =
      (err (StreamError.redis (ReplyError.client_failed t)), s)

  unfoldable pub read_group :
      Formats → String → ℕ → ℕ → R → Result StreamError (List StreamMessage) × R
  unfolding after_read
  read_group f consumer_name count block s =
      if str_eq consumer_name ""
      then (err (StreamError.argument "consumer name is required"), s)
      else if count == 0
      then (err (StreamError.argument "read count must be greater than zero"), s)
      else after_read f (client.x_read_group consumer_name count block s)

  unfoldable pub ack : String → R → Result StreamError (Unit {0}) × R
  ack redis_id s =
      if str_eq redis_id ""
      then (err (StreamError.argument "Redis message ID is required"), s)
      else redis_result (client.x_ack redis_id s)

  unfoldable pub stream_length : R → Result StreamError ℕ × R
  stream_length s = redis_result (client.x_len s)

  unfoldable pub pending_count : R → Result StreamError ℕ × R
  pending_count s = redis_result (client.x_pending s)

-- consumerGroupLag: the lag of the first group of that name that has one.
unfoldable pub consumer_group_lag : List XInfoGroup → String → Option ℕ
consumer_group_lag [] name = none
consumer_group_lag (g ∷ groups) name = elim g.lag [
  | none ↦ consumer_group_lag groups name
  | some lag ↦ if str_eq g.name name then some lag else consumer_group_lag groups name
]

module _ {R : Type 0} (client : Client R) where
  -- The error of the fallback names the error of XINFO too; only the fallback's is kept here.
  unfoldable pub after_groups :
      String → Result ReplyError (List XInfoGroup) × R → Result StreamError ℕ × R
  unfolding stream_length consumer_group_lag
  after_groups group_name (err e, s) = stream_length client s
  after_groups group_name (ok groups, s) = elim (consumer_group_lag groups group_name) [
    | some lag ↦ (ok lag, s)
    | none ↦ stream_length client s
  ]

  unfoldable pub queue_depth : String → R → Result StreamError ℕ × R
  unfolding after_groups
  queue_depth group_name s = after_groups group_name (client.x_info_groups s)
