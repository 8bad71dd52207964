-- ===== src/Producer/Written.antt =====
-- What publishing to the Redis stream does, said of the client's commands alone; and the text that the
-- command prints.
use Prim.Native.String.{◌++◌ as str_append}
use senior_backend_order_ing.Prelude.{
  ℕ, zero, suc, ◌+◌, ◌*◌, ◌/◌, ◌≡◌, refl, ap, sym, ◌∙◌, String, List, [], ◌∷◌, ◌++◌, Result, ok,
  err, Result-cases, inl, inr, arith,
}
use senior_backend_order_ing.Prelude.Int.{ℤ, pos}
use senior_backend_order_ing.Prelude.Decimal.{decimal}
use senior_backend_order_ing.Domain.{OrderEvent}
use senior_backend_order_ing.Queue.Fields.{Formats, FieldError, Values, event_fields}
use senior_backend_order_ing.Queue.Calls.{Client, ReplyError, StreamError, publish, redis_result}
use senior_backend_order_ing.Producer.Event.{GeneratedEvent}
use senior_backend_order_ing.Producer.Publish.{
  EventPublisher, PublishError, Progress, count_published, publish_one, published, publish_next,
  publish_batch,
}
use senior_backend_order_ing.Producer.Batches.{
  milestones, IsOnSchedule, count_published-IsOnSchedule,
}
use senior_backend_order_ing.Producer.Command.{progress_line, progress_lines}

-- The error, the number of entries that have been added to the stream, and Redis after it.
abbrev pub Written : Type 0 → Type 0
Written R = Result (PublishError StreamError) (Unit {0}) × (ℕ × R)

module _ {R : Type 0} (client : Client R) (f : Formats) where
  abbrev after_add : String → ℕ → (R → Written R) → Result ReplyError String × R → Written R
  after_add id n rest (ok entry, s) = rest s
  after_add id n rest (err e, s) =
      (err (PublishError.publish_event id n (StreamError.redis e)), (n, s))

  abbrev add_fields : String → ℕ → (R → Written R) → Result FieldError Values → R → Written R
  add_fields id n rest (ok values) s = after_add id n rest (client.x_add values s)
  add_fields id n rest (err e) s =
      (err (PublishError.publish_event id n (StreamError.serialize e)), (n, s))

  -- One XADD for each event in turn, with its fields, after `n` of them; the first event without fields
  -- and the first XADD that fails end it, with the event's ID and how many entries were added.
  unfoldable pub add_entries : List GeneratedEvent → ℕ → R → Written R
  add_entries [] n s = (ok tt, (n, s))
  add_entries (e ∷ es) n s =
      add_fields e.event.event_id n (add_entries es (n + 1)) (event_fields f e.event) s

  abbrev publisher : EventPublisher R StreamError
  publisher = record { publish = publish client f }

  -- The progress after `n` entries.
  abbrev pub progress_at : ℕ → R → Progress R
  progress_at n s = record {
    total_published = n;
    next_progress = 10000 * (n / 10000 + 1);
    output = milestones (n / 10000);
    world = s;
  }

  abbrev pub reached : Written R → Result (PublishError StreamError) (Unit {0}) × Progress R
  reached (r, (n, s)) = (r, progress_at n s)

  progress_at-IsOnSchedule : (n : ℕ) (s : R) → IsOnSchedule (progress_at n s)
  progress_at-IsOnSchedule n s = record { printed = refl; due = refl }

  same_progress :
      (p q : Progress R)
      → p.total_published ≡ q.total_published
      → p.next_progress ≡ q.next_progress
      → p.output ≡ q.output
      → p.world ≡ q.world
      → p ≡ q
  same_progress p q a b c d =
      λ i. record { total_published = a i; next_progress = b i; output = c i; world = d i }

  count_published-progress_at :
      (n : ℕ) (s : R) → count_published (progress_at n s) ≡ progress_at (n + 1) s
  unfolding count_published
  count_published-progress_at n s =
      let p = progress_at n s in
      let h = count_published-IsOnSchedule p (progress_at-IsOnSchedule n s) in
      let total : (count_published p).total_published ≡ n + 1 = ground arith in
      let world : (count_published p).world ≡ s = ground arith in
      same_progress (count_published p) (progress_at (n + 1) s) total
        (h.due ∙ ap (λ m. 10000 * (m / 10000 + 1)) total)
        (h.printed ∙ ap (λ m. milestones (m / 10000)) total) world

  abbrev sent : Result FieldError Values → R → Result StreamError String × R
  sent (ok values) s = redis_result client (client.x_add values s)
  sent (err x) s = (err (StreamError.serialize x), s)

  publish-sent :
      (event : OrderEvent) (s : R) (r : Result FieldError Values)
      → event_fields f event ≡ r
      → publish client f event s ≡ sent r s
  unfolding publish
  publish-sent event s (ok values) h = ap serialized h
    where
      serialized : Result FieldError Values → Result StreamError String × R
      serialized r = elim r [
        | ok v ↦ redis_result client (client.x_add v s)
        | err x ↦ (err (StreamError.serialize x), s)
      ]
  publish-sent event s (err x) h = ap serialized h
    where
      serialized : Result FieldError Values → Result StreamError String × R
      serialized r = elim r [
        | ok v ↦ redis_result client (client.x_add v s)
        | err e ↦ (err (StreamError.serialize e), s)
      ]

  published-after_add :
      (e : GeneratedEvent) (es : List GeneratedEvent) (n : ℕ) (s : R)
      → ((s' : R)
          → publish_batch publisher es (progress_at (n + 1) s')
            ≡ reached (add_entries es (n + 1) s'))
      → (r : Result ReplyError String × R)
      → publish_next publisher
          (publish_batch publisher es)
          (published publisher e (progress_at n s) (redis_result client r))
        ≡ reached (after_add e.event.event_id n (add_entries es (n + 1)) r)
  published-after_add e es n s ih (ok entry, s') =
      ap (publish_batch publisher es) (count_published-progress_at n s') ∙ ih s'
  published-after_add e es n s ih (err x, s') = refl

  -- Publishing a batch to the stream adds its entries.
  pub publish_batch-add_entries :
      (es : List GeneratedEvent) (n : ℕ) (s : R)
      → publish_batch publisher es (progress_at n s) ≡ reached (add_entries es n s)
  unfolding publish_batch publish_one add_entries
  publish_batch-add_entries [] n s = refl
  publish_batch-add_entries (e ∷ es) n s =
      let p = progress_at n s in
      let next = λ (r : Result StreamError String × R).
        publish_next publisher (publish_batch publisher es) (published publisher e p r) in
      let spec = λ (r : Result FieldError Values).
        reached (add_fields e.event.event_id n (add_entries es (n + 1)) r s) in
      elim (Result-cases (event_fields f e.event)) [
        | inl (values, encoded) ↦
            ap next (publish-sent e.event s (ok values) encoded)
            ∙ published-after_add e es n s (publish_batch-add_entries es (n + 1))
                (client.x_add values s)
            ∙ sym (ap spec encoded)
        | inr (x, refused) ↦
            ap next (publish-sent e.event s (err x) refused) ∙ sym (ap spec refused)
      ]

-- A line for each 10,000 entries.
abbrev pub progress_text : ℤ → ℕ → List String
progress_text total zero = []
progress_text total (suc k) =
    progress_text total k
    ++ (str_append (str_append "progress published=" (decimal (pos (10000 * (k + 1)))))
          (str_append " requested=" (decimal total))
        ∷ [])

progress_lines-append :
    (total : ℤ) (xs ys : List ℕ)
    → progress_lines total (xs ++ ys) ≡ progress_lines total xs ++ progress_lines total ys
progress_lines-append total [] ys = refl
progress_lines-append total (x ∷ xs) ys =
    ap (λ ls. progress_line total x ∷ ls) (progress_lines-append total xs ys)

pub progress_lines-milestones :
    (total : ℤ) (k : ℕ) → progress_lines total (milestones k) ≡ progress_text total k
unfolding progress_line
progress_lines-milestones total zero = refl
progress_lines-milestones total (suc k) =
    progress_lines-append total (milestones k) (10000 * (k + 1) ∷ [])
    ∙ ap (λ ls. ls ++ progress_lines total (10000 * (k + 1) ∷ []))
        (progress_lines-milestones total k)
