-- ===== src/Producer/Command.antt =====
-- The producer command: main.go of cmd/producer, and printSummary of generator.go.
use Prim.Native.String.{◌++◌ as str_append}
use senior_backend_order_ing.Prelude.{
  ℕ, String, List, [], ◌∷◌, ◌++◌, ◌≡◌, subst, Result, ok, err, str_eq, if◌then◌else◌,
}
use senior_backend_order_ing.Prelude.Results.{◌>>=◌, ◌>>◌, map_err, bind_ok, map_err_ok}
use senior_backend_order_ing.Prelude.Int.{ℤ, pos}
use senior_backend_order_ing.Prelude.Decimal.{decimal}
use senior_backend_order_ing.Queue.Fields.{Formats}
use senior_backend_order_ing.Queue.Calls.{Client, StreamError, ensure_group, publish}
use senior_backend_order_ing.Producer.Config.{Floats, ProducerConfig, ConfigError, validate}
use senior_backend_order_ing.Producer.Event.{ProducerSummary, Sources, GenerateError}
use senior_backend_order_ing.Producer.Publish.{
  EventPublisher, PublishError, Progress, publish_generated,
}

unfoldable pub env_or_default : (String → String) → String → String → String
env_or_default getenv name fallback = if str_eq (getenv name) "" then fallback else getenv name

-- 0.05, 0.03 and 0.01
pub record DefaultRatios (F : Type 0) : Type 0 where
  pub duplicate_ratio : F
  pub out_of_order_ratio : F
  pub invalid_ratio : F

-- The variables of the flags before the arguments are parsed.
unfoldable pub flag_defaults : {F : Type 0} → DefaultRatios F → (String → String) → ProducerConfig F
unfolding env_or_default
flag_defaults ratios getenv = record {
  total = pos 100000;
  duplicate_ratio = ratios.duplicate_ratio;
  out_of_order_ratio = ratios.out_of_order_ratio;
  invalid_ratio = ratios.invalid_ratio;
  redis_addr = env_or_default getenv "REDIS_ADDR" "localhost:6379";
  stream = env_or_default getenv "REDIS_STREAM" "order-events";
  group = env_or_default getenv "REDIS_CONSUMER_GROUP" "order-processors";
  seed = pos 1;
  batch_size = pos 100;
}

-- The errors of parseConfig; those of `flags.Parse` are an `X`.
pub data CommandError (X : Type 0) : Type 0 where
  flags_failed : X → CommandError X
  unexpected_arguments : List String → CommandError X
  invalid : ConfigError → CommandError X

unfoldable pub no_arguments : {X : Type 0} → List String → Result (CommandError X) (Unit {0})
no_arguments [] = ok tt
no_arguments (arg ∷ args) = err (CommandError.unexpected_arguments (arg ∷ args))

-- parseConfig after `flags.Parse`.
unfoldable pub checked_config :
    {F X : Type 0}
    → Floats F
    → ProducerConfig F
    → List String
    → Result (CommandError X) (ProducerConfig F)
unfolding no_arguments
checked_config floats config args = do
  no_arguments args
  map_err CommandError.invalid (validate floats config)
  ok config

-- `parse` is `flags.Parse`, with the arguments that are left.
unfoldable pub parse_config :
    {F X : Type 0}
    → Floats F
    → DefaultRatios F
    → (String → String)
    → (ProducerConfig F → List String → Result X (ProducerConfig F × List String))
    → List String
    → Result (CommandError X) (ProducerConfig F)
parse_config floats ratios getenv parse args = do
  parsed ← map_err CommandError.flags_failed (parse (flag_defaults ratios getenv) args)
  checked_config floats parsed.0 parsed.1

-- "progress published=%d requested=%d"
unfoldable pub progress_line : ℤ → ℕ → String
progress_line total n =
    str_append (str_append "progress published=" (decimal (pos n)))
      (str_append " requested=" (decimal total))

abbrev pub progress_lines : ℤ → List ℕ → List String
progress_lines total [] = []
progress_lines total (n ∷ ns) = progress_line total n ∷ progress_lines total ns

abbrev pub count_line : String → ℕ → String
count_line name n = str_append name (decimal (pos n))

unfoldable pub print_summary : ProducerSummary → List String
print_summary summary =
    "producer_summary"
    ∷ str_append "total_requested=" (decimal summary.total_requested)
    ∷ count_line "total_published=" summary.total_published
    ∷ count_line "unique_event_ids=" summary.unique_event_ids
    ∷ count_line "duplicate_events=" summary.duplicate_events
    ∷ count_line "unique_order_ids=" summary.unique_order_ids
    ∷ count_line "out_of_order_events=" summary.out_of_order_events
    ∷ count_line "invalid_transition_events=" summary.invalid_transition_events
    ∷ str_append "seed=" (decimal summary.seed)
    ∷ str_append "redis_stream=" summary.redis_stream
    ∷ []

pub data RunError : Type 0 where
  ensure_failed : StreamError → RunError
  generate_failed : GenerateError (PublishError StreamError) → RunError

module _ {F R : Type 0} (floats : Floats F) (sources : Sources) (client : Client R) (f : Formats)
    (c : ProducerConfig F) where
  -- RedisStreamQueue as the generator's publisher.
  abbrev pub stream_publisher : EventPublisher R StreamError
  stream_publisher = record { publish = publish client f }

  -- The result of run, with the lines it has written, and with Redis after it.
  abbrev pub printed :
      Result (GenerateError (PublishError StreamError)) ProducerSummary × Progress R
      → Result RunError (Unit {0}) × (List String × R)
  printed (ok summary, p) =
      (ok tt, (progress_lines c.total p.output ++ print_summary summary, p.world))
  printed (err e, p) =
      (err (RunError.generate_failed e), (progress_lines c.total p.output, p.world))

  abbrev pub after_group :
      Result StreamError (Unit {0}) × R → Result RunError (Unit {0}) × (List String × R)
  after_group (err e, s) = (err (RunError.ensure_failed e), ([], s))
  after_group (ok u, s) = printed (publish_generated stream_publisher floats sources c s)

  unfoldable pub run : R → Result RunError (Unit {0}) × (List String × R)
  run s = after_group (ensure_group client s)

checked_config-validate :
    {F X : Type 0} (floats : Floats F) (config c : ProducerConfig F) (args : List String)
    → checked_config {X = X} floats config args ≡ ok c
    → validate floats c ≡ ok tt
unfolding checked_config
checked_config-validate {X = X} floats config c args h =
    let (u, no_args, h') = bind_ok (no_arguments {X = X} args) _ c h in
    let (v, validated, last) =
      bind_ok (map_err CommandError.invalid (validate floats config)) (λ _. ok config) c h' in
    let same : config ≡ c = cc last in
    subst (λ c'. validate floats c' ≡ ok tt) same
      (map_err_ok CommandError.invalid (validate floats config) v validated)

-- What parseConfig returns has been validated.
pub parse_config-validate :
    {F X : Type 0} (floats : Floats F) (ratios : DefaultRatios F) (getenv : String → String)
    (parse : ProducerConfig F → List String → Result X (ProducerConfig F × List String))
    (args : List String) (c : ProducerConfig F)
    → parse_config floats ratios getenv parse args ≡ ok c
    → validate floats c ≡ ok tt
unfolding parse_config
parse_config-validate {X = X} floats ratios getenv parse args c h =
    let (parsed, read, h') =
      bind_ok (map_err CommandError.flags_failed (parse (flag_defaults ratios getenv) args))
        (λ p. checked_config floats p.0 p.1) c h in
    checked_config-validate floats parsed.0 c parsed.1 h'
