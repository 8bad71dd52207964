-- ===== src/Producer/Batches.antt =====
-- Publishing in batches is publishing one event after the other; and the lines of progress.
use mathlib.Core.Path.{ap₂}
use mathlib.Core.List.{append-nil, append_assoc}
use senior_backend_order_ing.Prelude.{
  ℕ, zero, suc, ◌+◌, ◌*◌, ◌/◌, ◌≤◌, ◌<◌, ◌≡◌, refl, ap, sym, subst, ◌∙◌, String, List, [], ◌∷◌,
  ◌++◌, Result, ok, err, Bool-cases, inl, inr, leb, length, arith,
}
use senior_backend_order_ing.Prelude.Int.{ℤ, pos, ltb_ℤ}
use senior_backend_order_ing.Producer.Event.{GeneratedEvent}
use senior_backend_order_ing.Producer.Emission.{emit_all, proceed}
use senior_backend_order_ing.Producer.Publish.{
  EventPublisher, PublishError, Progress, Buffer, count_published, publish_one, published,
  publish_next, publish_batch, flushed, flush, buffer,
}

module _ {W X : Type 0} (publisher : EventPublisher W X) where
  next_next :
      (f g h : Progress W → Result (PublishError X) (Unit {0}) × Progress W)
      → ((p : Progress W) → h p ≡ publish_next publisher g (f p))
      → (r : Result (PublishError X) (Unit {0}) × Progress W)
      → publish_next publisher h r ≡ publish_next publisher g (publish_next publisher f r)
  next_next f g h e (ok u, p) = e p
  next_next f g h e (err x, p) = refl

  pub publish_batch-append :
      (xs ys : List GeneratedEvent) (p : Progress W)
      → publish_batch publisher (xs ++ ys) p
        ≡ publish_next publisher (publish_batch publisher ys) (publish_batch publisher xs p)
  unfolding publish_batch
  publish_batch-append [] ys p = refl
  publish_batch-append (x ∷ xs) ys p =
      next_next (publish_batch publisher xs) (publish_batch publisher ys)
        (publish_batch publisher (xs ++ ys)) (publish_batch-append xs ys)
        (publish_one publisher x p)

  -- What a buffer's callback has left to publish, published.
  abbrev pub drained :
      Result (PublishError X) (Unit {0}) × Buffer W
      → Result (PublishError X) (Unit {0}) × Progress W
  drained (ok u, b) = publish_batch publisher b.batch b.progress
  drained (err e, b) = (err e, b.progress)

  drained-flushed :
      (batch : List GeneratedEvent) (r : Result (PublishError X) (Unit {0}) × Progress W)
      → drained (flushed publisher batch r) ≡ r
  unfolding publish_batch
  drained-flushed batch (ok u, p) = refl
  drained-flushed batch (err e, p) = refl

  drained-buffer :
      (batch_size : ℤ) (e : GeneratedEvent) (b : Buffer W)
      → drained (buffer publisher batch_size e b)
        ≡ publish_batch publisher (b.batch ++ (e ∷ [])) b.progress
  unfolding buffer flush
  drained-buffer batch_size e b =
      let batch = b.batch ++ (e ∷ []) in
      elim (Bool-cases (ltb_ℤ (pos (length batch)) batch_size)) [
        | inl fits ↦ rw fits refl
        | inr full ↦ rw full (drained-flushed batch (publish_batch publisher batch b.progress))
      ]

  drained-proceed :
      (es : List GeneratedEvent) (rest : Buffer W → Result (PublishError X) (Unit {0}) × Buffer W)
      → ((b : Buffer W) → drained (rest b) ≡ publish_batch publisher (b.batch ++ es) b.progress)
      → (r : Result (PublishError X) (Unit {0}) × Buffer W)
      → drained (proceed rest r) ≡ publish_next publisher (publish_batch publisher es) (drained r)
  drained-proceed es rest h (ok u, b) = h b ∙ publish_batch-append b.batch es b.progress
  drained-proceed es rest h (err e, b) = refl

  -- Through the buffer, the events are published in their order, after those of the batch.
  pub drained-emit_all :
      (batch_size : ℤ) (es : List GeneratedEvent) (b : Buffer W)
      → drained (emit_all (buffer publisher batch_size) es b)
        ≡ publish_batch publisher (b.batch ++ es) b.progress
  unfolding emit_all
  drained-emit_all batch_size [] b =
      ap (λ es. publish_batch publisher es b.progress) (sym (append-nil b.batch))
  drained-emit_all batch_size (e ∷ es) b =
      drained-proceed es (emit_all (buffer publisher batch_size) es)
        (drained-emit_all batch_size es) (buffer publisher batch_size e b)
      ∙ ap (publish_next publisher (publish_batch publisher es)) (drained-buffer batch_size e b)
      ∙ sym (publish_batch-append (b.batch ++ (e ∷ [])) es b.progress)
      ∙ ap (λ es'. publish_batch publisher es' b.progress) (append_assoc b.batch (e ∷ []) es)

-- The lines of progress of `count` tens of thousands.
abbrev pub milestones : ℕ → List ℕ
milestones zero = []
milestones (suc count) = milestones count ++ (10000 * (count + 1) ∷ [])

-- A line has been printed for each 10,000 events, and the next one is due.
pub record IsOnSchedule {W : Type 0} (p : Progress W) : Type 0 where
  pub printed : p.output ≡ milestones (p.total_published / 10000)
  pub due : p.next_progress ≡ 10000 * (p.total_published / 10000 + 1)

pub count_published-IsOnSchedule :
    {W : Type 0} (p : Progress W) → IsOnSchedule p → IsOnSchedule (count_published p)
unfolding count_published
count_published-IsOnSchedule p h =
    let n = p.total_published in
    elim (Bool-cases (leb p.next_progress (n + 1))) [
      | inl reached ↦
          let ten : (n + 1) / 10000 ≡ suc (n / 10000) = ground (arith, h.due) in
          let line : n + 1 ≡ 10000 * (n / 10000 + 1) = ground (arith, h.due) in
          rw reached (record {
            printed = ap₂ (λ xs x. xs ++ (x ∷ [])) h.printed line ∙ ap milestones (sym ten);
            due = ground (arith, h.due);
          })
      | inr not_yet ↦
          let same : (n + 1) / 10000 ≡ n / 10000 = ground (arith, h.due) in
          rw not_yet (record {
            printed = h.printed ∙ ap milestones (sym same);
            due = h.due ∙ ap (λ k. 10000 * (k + 1)) (sym same);
          })
    ]

-- What a publisher has published of a batch: all of it on success, and a part of it on an error, which
-- says how many.
module _ {W X : Type 0} (publisher : EventPublisher W X) where
  abbrev pub CountedFrom : ℕ → ℕ → Result (PublishError X) (Unit {0}) × Progress W → Type 0
  CountedFrom n count (ok u, p) = IsOnSchedule p × (p.total_published ≡ n + count)
  CountedFrom n count (err (PublishError.publish_event id done e), p) =
      IsOnSchedule p × (p.total_published ≡ done) × (n ≤ done) × (done < n + count)

  count_published_one :
      (p : Progress W) → (count_published p).total_published ≡ p.total_published + 1
  unfolding count_published
  count_published_one p = ground arith

  CountedFrom-of_next :
      (n count : ℕ) (r : Result (PublishError X) (Unit {0}) × Progress W)
      → CountedFrom (n + 1) count r
      → CountedFrom n (suc count) r
  CountedFrom-of_next n count (ok u, p) (scheduled, total) = (scheduled, omega arith)
  CountedFrom-of_next n count (err (PublishError.publish_event id done e), p)
        (scheduled, all, low, high) =
      (scheduled, all, omega arith, omega arith)

  published-CountedFrom :
      (rest : Progress W → Result (PublishError X) (Unit {0}) × Progress W) (count : ℕ)
      → ((p : Progress W) → IsOnSchedule p → CountedFrom p.total_published count (rest p))
      → (e : GeneratedEvent) (p : Progress W) → IsOnSchedule p
      → (r : Result X String × W)
      → CountedFrom p.total_published
          (suc count)
          (publish_next publisher rest (published publisher e p r))
  published-CountedFrom rest count continued e p h (ok id, world) =
      let p' = record p { world = world } in
      let h' : IsOnSchedule p' = record { printed = h.printed; due = h.due } in
      let counted = continued (count_published p') (count_published-IsOnSchedule p' h') in
      CountedFrom-of_next p.total_published count (rest (count_published p')) (
        subst (λ n. CountedFrom n count (rest (count_published p'))) (count_published_one p')
          counted)
  published-CountedFrom rest count continued e p h (err x, world) =
      (record { printed = h.printed; due = h.due }, refl, omega arith, omega arith)

  pub publish_batch-CountedFrom :
      (es : List GeneratedEvent) (p : Progress W)
      → IsOnSchedule p
      → CountedFrom p.total_published (length es) (publish_batch publisher es p)
  unfolding publish_batch publish_one
  publish_batch-CountedFrom [] p h = (h, omega arith)
  publish_batch-CountedFrom (e ∷ es) p h =
      published-CountedFrom (publish_batch publisher es) (length es) (publish_batch-CountedFrom es)
        e p h (publisher.publish e.event p.world)
