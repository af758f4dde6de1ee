-- ===== src/ControlPlane/Canary/Decisions.antt =====
-- When a canary is rolled back.
use odenctl.Prelude.{
  ℕ, ◌*◌, ◌≤◌, ◌<◌, ◌≡◌, ◌↔◌, refl, inl, inr, String, Bool, true, ◌||◌, Option, none, some, List,
  arith, filter, map, length, leb, leb→le, le→leb, or_else, length-filter-le,
}
use odenctl.Prelude.Counting.{Counts, Counts-unique, Counts-filter}
use odenctl.ControlPlane.Canary.{
  CanaryMetricEvent, CanaryAnalysisThresholds, CanaryAnalysisMetrics, Fraction, rollback_canary,
  exceeds, rate_exceeds, is_of, is_error_event, is_rejected_event, summarize_canary_metrics,
  decide_canary, analyze_canary_events,
}
use odenctl.ControlPlane.Canary.Percentiles.{percentile-above}
use odenctl.ControlPlane.Canary.Breaches.{
  IsOf, IsRejected, IsError, Breaches, rejects, errors, slow, or-true, left-or, right-or,
  is_of-IsOf, IsOf-is_of, is_rejected_event-IsRejected, IsRejected-is_rejected_event,
  is_error_event-IsError, IsError-is_error_event, own-Counts, up_to-map, length-map, exceeds-some,
  some-exceeds, rate_of, rate_test,
}

-- Some threshold that is set is exceeded.
abbrev breaches : CanaryAnalysisThresholds → CanaryAnalysisMetrics → Bool
breaches thresholds metrics =
    exceeds metrics.rejects thresholds.reject_count
    || (rate_exceeds metrics.error_rate thresholds.error_rate
        || exceeds metrics.p95_ms thresholds.p95_ms)

rolls_back :
    (thresholds : CanaryAnalysisThresholds) (metrics : CanaryAnalysisMetrics)
    → (decide_canary thresholds metrics).action ≡ rollback_canary
    → (or_else thresholds.min_requests 1 ≤ metrics.requests) × (breaches thresholds metrics ≡ true)
unfolding decide_canary
rolls_back thresholds metrics h = ground arith

rolled_back :
    (thresholds : CanaryAnalysisThresholds) (metrics : CanaryAnalysisMetrics)
    → or_else thresholds.min_requests 1 ≤ metrics.requests
    → breaches thresholds metrics ≡ true
    → (decide_canary thresholds metrics).action ≡ rollback_canary
unfolding decide_canary
rolled_back thresholds metrics enough breach = ground arith

rate_exceeds-some :
    (rate : Fraction) (o : Option Fraction)
    → rate_exceeds rate o ≡ true
    → (limit : Fraction) × (o ≡ some limit) × (rate_exceeds rate (some limit) ≡ true)
rate_exceeds-some rate none h = cc
rate_exceeds-some rate (some limit) h = (limit, refl, h)

module _ (candidate : String) (thresholds : CanaryAnalysisThresholds)
    (events : List CanaryMetricEvent) where
  abbrev own : List CanaryMetricEvent
  own = filter (is_of candidate) events

  abbrev metrics : CanaryAnalysisMetrics
  metrics = summarize_canary_metrics own

  own_counted : Counts (IsOf candidate) events (length own)
  own_counted =
      Counts-filter (IsOf candidate) (is_of candidate) (is_of-IsOf candidate) (IsOf-is_of candidate)
        events

  IsRejected-counted :
      Counts (λ e. IsOf candidate e × IsRejected e) events (length (filter is_rejected_event own))
  IsRejected-counted =
      own-Counts candidate IsRejected is_rejected_event events is_rejected_event-IsRejected
        IsRejected-is_rejected_event

  errors_counted :
      Counts (λ e. IsOf candidate e × IsError e) events (length (filter is_error_event own))
  errors_counted =
      own-Counts candidate IsError is_error_event events is_error_event-IsError
        IsError-is_error_event

  fast_counted :
      (limit : ℕ)
      → Counts
          (λ e. IsOf candidate e × (e.duration_ms ≤ limit))
          events
          (length (filter (λ e. leb e.duration_ms limit) own))
  fast_counted limit =
      own-Counts candidate (λ e. e.duration_ms ≤ limit) (λ e. leb e.duration_ms limit) events
        (λ e h. leb→le e.duration_ms limit h) (λ e h. le→leb e.duration_ms limit h)

  p95-above :
      (limit : ℕ)
      → (limit < metrics.p95_ms)
        ↔ (100 * length (filter (λ e. leb e.duration_ms limit) own) < 95 * length own)
  unfolding summarize_canary_metrics
  p95-above limit =
      let (there, back) = percentile-above limit (map (λ e. e.duration_ms) own) in
      let same = up_to-map limit own in
      let size = length-map (λ (e : CanaryMetricEvent). e.duration_ms) own in
      (λ h. omega (arith, there h, same, size), λ h. back (omega (arith, h, same, size)))

  rate_fits :
      (limit : Fraction)
      → (rate_exceeds (rate_of (length own) (length (filter is_error_event own))) (some limit)
          ≡ true)
        ↔ (limit.numerator * length own < length (filter is_error_event own) * limit.denominator)
  rate_fits limit =
      rate_test limit (length own) (length (filter is_error_event own))
        (length-filter-le is_error_event own)

  breaches-Breaches : breaches thresholds metrics ≡ true → Breaches candidate thresholds events
  unfolding summarize_canary_metrics
  breaches-Breaches h = elim (or-true (exceeds metrics.rejects thresholds.reject_count) _ h) [
    | inl a ↦
        let (limit, set, more) = exceeds-some metrics.rejects thresholds.reject_count a in
        rejects limit metrics.rejects set IsRejected-counted more
    | inr rest ↦ elim (or-true (rate_exceeds metrics.error_rate thresholds.error_rate) _ rest) [
      | inl b ↦
          let (limit, set, more) = rate_exceeds-some metrics.error_rate thresholds.error_rate b in
          errors limit (length own) (length (filter is_error_event own)) set own_counted
            errors_counted ((rate_fits limit).0 more)
      | inr c ↦
          let (limit, set, more) = exceeds-some metrics.p95_ms thresholds.p95_ms c in
          slow limit (length own) (length (filter (λ e. leb e.duration_ms limit) own)) set
            own_counted (fast_counted limit) ((p95-above limit).0 more)
    ]
  ]

  Breaches-breaches : Breaches candidate thresholds events → breaches thresholds metrics ≡ true
  unfolding summarize_canary_metrics
  Breaches-breaches (rejects limit n set counted more) =
      let same =
        Counts-unique (λ e. IsOf candidate e × IsRejected e) events n _ counted
          IsRejected-counted in
      left-or (exceeds metrics.rejects thresholds.reject_count) _
        (some-exceeds metrics.rejects limit thresholds.reject_count set (omega (arith, more, same)))
  Breaches-breaches (errors limit n m set all bad more) =
      let n_same = Counts-unique (IsOf candidate) events n _ all own_counted in
      let m_same =
        Counts-unique (λ e. IsOf candidate e × IsError e) events m _ bad errors_counted in
      right-or (exceeds metrics.rejects thresholds.reject_count) _ (
        left-or (rate_exceeds metrics.error_rate thresholds.error_rate) _
          (rw set ((rate_fits limit).1 (rw (← n_same, ← m_same) more))))
  Breaches-breaches (slow limit n m set all fast few) =
      let n_same = Counts-unique (IsOf candidate) events n _ all own_counted in
      let m_same =
        Counts-unique (λ e. IsOf candidate e × (e.duration_ms ≤ limit)) events m _ fast
          (fast_counted limit) in
      right-or (exceeds metrics.rejects thresholds.reject_count) _ (
        right-or (rate_exceeds metrics.error_rate thresholds.error_rate) _ (
          some-exceeds metrics.p95_ms limit thresholds.p95_ms set
            ((p95-above limit).1 (omega (arith, few, n_same, m_same)))))

-- The canary is rolled back exactly when the candidate has at least the number of requests asked for
-- (one, if none is given) and its events exceed a threshold that is set: more of them were rejected
-- (status 429 or 503, or the code `overloaded` or `rate_limited`) than the limit, or the part of them
-- that are errors (a status from 500 on, or an error code) is greater than the limit, or fewer than
-- 95 of 100 took no longer than the limit.
pub analyze_canary_events_lem :
    (events : List CanaryMetricEvent) (candidate : String) (thresholds : CanaryAnalysisThresholds)
    → ((analyze_canary_events events candidate thresholds).action ≡ rollback_canary) ↔ (
        ((n : ℕ) × Counts (IsOf candidate) events n × (or_else thresholds.min_requests 1 ≤ n))
        × Breaches candidate thresholds events)
unfolding analyze_canary_events summarize_canary_metrics
analyze_canary_events_lem events candidate thresholds =
    let summary = metrics candidate thresholds events in
    (
      λ h.
          let (enough, breach) = rolls_back thresholds summary h in
          (
            (summary.requests, own_counted candidate thresholds events, enough),
            breaches-Breaches candidate thresholds events breach,
          ),
      λ ((n, counted, enough), breach).
          let same =
            Counts-unique (IsOf candidate) events n summary.requests counted
              (own_counted candidate thresholds events) in
          rolled_back thresholds summary (omega (arith, enough, same))
            (Breaches-breaches candidate thresholds events breach),
    )
