-- ===== src/Examples/Producer.antt =====
-- A producer of 20 events, and one with more duplicates than unique events.
use senior_backend_order_ing.Prelude.{
  ℕ, ◌+◌, ◌-◌, ◌*◌, ◌/◌, ◌≡◌, refl, String, false, none, ap, List, [], ◌∷◌, Result, ok, err, ltb,
  arith, length,
}
use senior_backend_order_ing.Prelude.Decimal.{padded, decimal}
use senior_backend_order_ing.Prelude.Int.{negsuc, pos, pos_part, wrap64, ◌+ℤ◌, ◌-ℤ◌, ◌*ℤ◌, half}
use senior_backend_order_ing.Domain.{Status}
use senior_backend_order_ing.Queue.Fields.{Formats}
use senior_backend_order_ing.Queue.Calls.{Client, ReplyError, StreamError, ensure_group}
use senior_backend_order_ing.Producer.Config.{
  Floats, ProducerConfig, ConfigError, validate, check_ratio, check_counts, is_out_of_range,
  ratio_count, out_of_order_scenario_size, duplicate_count, out_of_order_count, invalid_count,
}
use senior_backend_order_ing.Producer.Event.{
  GeneratedEvent, ProducerSummary, Sources, GenerateError, lifecycle,
}
use senior_backend_order_ing.Producer.Phases.{generate}
use senior_backend_order_ing.Producer.Plan.{
  Script, plan_events, with_duplicates, late_scripts, invalid_scripts, normal_scripts,
  script_events, statuses_events,
}
use senior_backend_order_ing.Producer.Identities.{HasDistinctIds}
use senior_backend_order_ing.Producer.Labels.{AreLabelled}
use senior_backend_order_ing.Producer.Emitted.{
  scripts, generate-HasDistinctIds, generate-AreLabelled,
}
use senior_backend_order_ing.Producer.Publish.{
  EventPublisher, initial_progress, publish_batch, buffer, publish_generated,
}
use senior_backend_order_ing.Producer.Batches.{
  drained, drained-emit_all, CountedFrom, publish_batch-CountedFrom,
}
use senior_backend_order_ing.Producer.Published.{conclude, publish_generated-publish_batch}
use senior_backend_order_ing.Producer.Command.{
  DefaultRatios, CommandError, parse_config, checked_config, no_arguments, parse_config-validate,
  stream_publisher, run,
}
use senior_backend_order_ing.Producer.Runs.{summary_text, reported, run-parse_config}
use senior_backend_order_ing.Producer.Written.{add_entries}
use senior_backend_order_ing.Database.{Decoded}
use senior_backend_order_ing.Prelude.Results.{◌>>◌, map_err}
use senior_backend_order_ing.Producer.Counts.{all_scripts}
use senior_backend_order_ing.Producer.Emission.{emit_all}
use senior_backend_order_ing.Producer.Refinement.{initial}
use senior_backend_order_ing.Producer.Validated.{RatioLaw}
use senior_backend_order_ing.Producer.Totals.{
  finish, planned_summary, generate-emit_all, generate-wrong_total,
}

-- Floating-point numbers in thousandths.
abbrev thousandths : Floats ℕ
thousandths = record {
  of_int = λ n. 1000 * pos_part n;
  multiply = λ a b. a * b / 1000;
  floor = λ a. a / 1000 * 1000;
  to_int = λ a. pos (a / 1000);
  is_nan = λ a. false;
  is_inf = λ a. false;
  less = ltb;
  zero_float = 0;
  one_float = 1000;
}

RatioLaw-of_20 : RatioLaw thousandths 20
unfolding is_out_of_range ratio_count
RatioLaw-of_20 = record { within = λ ratio h. (refl, ground arith) }

RatioLaw-of_10 : RatioLaw thousandths 10
unfolding is_out_of_range ratio_count
RatioLaw-of_10 = record { within = λ ratio h. (refl, ground arith) }

abbrev config : ProducerConfig ℕ
config = record {
  total = pos 20;
  duplicate_ratio = 100;
  out_of_order_ratio = 100;
  invalid_ratio = 50;
  redis_addr = "localhost:6379";
  stream = "order-events";
  group = "order-processors";
  seed = pos 1;
  batch_size = pos 7;
}

-- Six of ten events are to be duplicates.
abbrev greedy : ProducerConfig ℕ
greedy = record config {
  total = pos 10;
  duplicate_ratio = 600;
  out_of_order_ratio = 0;
  invalid_ratio = 0;
}

config-IsValid : validate thousandths config ≡ ok tt
unfolding validate check_ratio check_counts is_out_of_range ratio_count out_of_order_scenario_size
    half ◌+ℤ◌ ◌-ℤ◌ ◌*ℤ◌ wrap64
config-IsValid = refl

greedy-IsValid : validate thousandths greedy ≡ ok tt
unfolding validate check_ratio check_counts is_out_of_range ratio_count out_of_order_scenario_size
    half ◌+ℤ◌ ◌-ℤ◌ ◌*ℤ◌ wrap64
greedy-IsValid = refl

abbrev payload_of : ℕ → Status → String
payload_of n status = "{}"

abbrev sources : Sources
sources = record { draw = λ seed n. n; marshal = λ seed n status. ok (payload_of n status) }

-- A callback that counts its calls.
abbrev count_call : GeneratedEvent → ℕ → Result String (Unit {0}) × ℕ
count_call e n = (ok tt, n + 1)

-- The events of a plan with as many duplicates as its ratio stands for.
abbrev emitted : ProducerConfig ℕ → ℕ → List GeneratedEvent
emitted c total =
    let duplicates = pos_part (duplicate_count thousandths c) in
    with_duplicates
      (plan_events c.seed payload_of
        (all_scripts (sources.draw c.seed) (pos_part (out_of_order_count thousandths c))
          (pos_part (invalid_count thousandths c)) (total - duplicates))
        0 0)
      (initial (pos duplicates))

accepted : emit_all count_call (emitted greedy 10) 0 ≡ (ok tt, 8)
unfolding emit_all with_duplicates plan_events late_scripts invalid_scripts normal_scripts
    script_events statuses_events lifecycle ratio_count ◌-ℤ◌ wrap64
accepted = refl

generate-wrong_total_example :
    generate thousandths sources greedy count_call 0
    ≡ (err (GenerateError.wrong_total 8 (pos 10)), 8)
unfolding ratio_count
generate-wrong_total_example =
    generate-wrong_total thousandths sources greedy count_call payload_of (λ n status. refl) 10 refl
      (omega arith) RatioLaw-of_10 greedy-IsValid 0 8 accepted

-- Twenty events in batches of seven.
abbrev summary : ProducerSummary
summary = planned_summary config 18 2 (length (all_scripts (sources.draw config.seed) 2 1 18)) 2 1

generate-emit_all_example :
    generate thousandths sources config count_call 0
    ≡ finish (pos 20) summary (emit_all count_call (emitted config 20) 0)
unfolding ratio_count
generate-emit_all_example =
    generate-emit_all thousandths sources config count_call payload_of (λ n status. refl) 20 refl
      (omega arith) RatioLaw-of_20 config-IsValid 0

-- A client of Redis that counts the entries of the stream.
abbrev client : Client ℕ
client = record {
  x_group_create = λ s. (err ReplyError.busy_group, s);
  x_add = λ values s. (ok "1-0", s + 1);
  x_read_group = λ consumer count block s. (ok [], s);
  x_auto_claim = λ consumer min_idle start n s. (ok ([], "0-0"), s);
  x_ack = λ id s. (ok tt, s);
  x_info_groups = λ s. (ok [], s);
  x_len = λ s. (ok s, s);
  x_pending = λ s. (ok 0, s);
}

abbrev formats : Formats
formats = record {
  unmarshal = λ _. Decoded.object;
  format_time = λ t. "2025-01-01T00:00:00Z";
  parse_time = λ s. none;
}

abbrev publisher : EventPublisher ℕ StreamError
publisher = stream_publisher thousandths sources client formats config

publish_generated-publish_batch_example :
    publish_generated publisher thousandths sources config 0
    ≡ conclude summary (publish_batch publisher (emitted config 20) (initial_progress 0))
unfolding ratio_count
publish_generated-publish_batch_example =
    publish_generated-publish_batch publisher thousandths sources config payload_of
      (λ n status. refl) 20 refl (omega arith) RatioLaw-of_20 config-IsValid (omega arith) 0

drained-emit_all_example :
    drained publisher (
      emit_all
        (buffer publisher (pos 7))
        (emitted config 20)
        (record { batch = []; progress = initial_progress 0 }))
    ≡ publish_batch publisher (emitted config 20) (initial_progress 0)
drained-emit_all_example =
    drained-emit_all publisher (pos 7) (emitted config 20)
      (record { batch = []; progress = initial_progress 0 })

publish_batch-CountedFrom_example :
    CountedFrom publisher 0
      (length (emitted config 20))
      (publish_batch publisher (emitted config 20) (initial_progress 0))
publish_batch-CountedFrom_example =
    publish_batch-CountedFrom publisher (emitted config 20) (initial_progress 0)
      (record { printed = refl; due = refl })

abbrev orders : List Script
orders =
    scripts thousandths sources config count_call payload_of (λ n status. refl) 20 refl
      RatioLaw-of_20 config-IsValid

generate-HasDistinctIds_example :
    ((s : ℕ)
      → generate thousandths sources config count_call s
        ≡ finish (pos 20) summary (emit_all count_call (emitted config 20) s))
    × HasDistinctIds (plan_events (pos 1) payload_of orders 0 0)
    × (length (plan_events (pos 1) payload_of orders 0 0) ≡ 18)
unfolding ratio_count
generate-HasDistinctIds_example =
    generate-HasDistinctIds thousandths sources config count_call payload_of (λ n status. refl) 20
      refl RatioLaw-of_20 config-IsValid (omega arith)

generate-AreLabelled_example :
    ((s : ℕ)
      → generate thousandths sources config count_call s
        ≡ finish (pos 20) summary (emit_all count_call (emitted config 20) s))
    × AreLabelled (pos 1) payload_of orders
unfolding ratio_count
generate-AreLabelled_example =
    generate-AreLabelled thousandths sources config count_call payload_of (λ n status. refl) 20 refl
      RatioLaw-of_20 config-IsValid (omega arith)

-- The flags give a configuration of their own, and no other arguments.
abbrev parse : ProducerConfig ℕ → List String → Result String (ProducerConfig ℕ × List String)
parse defaults args = ok (config, [])

abbrev ratios : DefaultRatios ℕ
ratios = record { duplicate_ratio = 50; out_of_order_ratio = 30; invalid_ratio = 10 }

abbrev getenv : String → String
getenv name = ""

parsed : parse_config thousandths ratios getenv parse ("-total" ∷ "20" ∷ []) ≡ ok config
unfolding parse_config checked_config no_arguments
parsed = ap (λ (r : Result ConfigError (Unit {0})). checked r) config-IsValid
  where
    checked : Result ConfigError (Unit {0}) → Result (CommandError String) (ProducerConfig ℕ)
    checked r = do map_err CommandError.invalid r; ok config

parse_config-validate_example : validate thousandths config ≡ ok tt
parse_config-validate_example =
    parse_config-validate thousandths ratios getenv parse ("-total" ∷ "20" ∷ []) config parsed

existing : ensure_group client 0 ≡ (ok tt, 0)
unfolding ensure_group
existing = refl

run-parse_config_example :
    run thousandths sources client formats config 0
    ≡ reported
        (pos 20)
        (summary_text config 18 2 (length (all_scripts (sources.draw config.seed) 2 1 18)) 2 1)
        (add_entries client formats (emitted config 20) 0 0)
unfolding ratio_count
run-parse_config_example =
    run-parse_config thousandths sources client formats ratios getenv parse payload_of
      ("-total" ∷ "20" ∷ []) config 20 parsed refl (omega arith) RatioLaw-of_20 (λ n status. refl)
      (omega arith) 0 0 existing

padded_runs : padded 1234 ≡ "000001234"
unfolding padded
padded_runs = refl

decimal_runs : decimal (negsuc 41) ≡ "-42"
unfolding decimal
decimal_runs = refl
