-- ===== src/ControlPlane/Publisher/Reports.antt =====
-- When a publication as a whole is reported as a success.
use odenctl.Prelude.{
  ℕ, zero, suc, ◌≤◌, ◌<◌, ◌≡◌, refl, sym, ◌∙◌, subst, ◌↔◌, inl, inr, Bool, true, false, Option,
  none, some, List, [], ◌∷◌, map, every, arith, ltb, or_else, Bool-cases, Option-cases, All, ltb→ge,
  ltb→lt,
}
use odenctl.Contracts.{RouteSnapshot}
use odenctl.ControlPlane.Publisher.{
  Answer, unreachable, refused, acked, Network, RuntimeNodeTarget, AttemptResult,
  RouteSnapshotPublishTargetResult, RouteSnapshotPublishOptions, NormalizedPublishOptions,
  normalize_publish_options, positive_or, publish_attempt, publish_to_runtime_node,
  publish_route_snapshot, snapshot_endpoint, retries_on,
}
use odenctl.ControlPlane.Publisher.Attempts.{IsLast, publish_to_runtime_node-ends}

abbrev pub is_accepted : Answer → Bool
is_accepted (acked status ack) = true
is_accepted (unreachable error) = false
is_accepted (refused status text) = false

-- nothing came back, or a status that may be tried again
abbrev pub is_repeatable : List ℕ → Answer → Bool
is_repeatable statuses (unreachable error) = true
is_repeatable statuses (refused status text) = retries_on statuses status
is_repeatable statuses (acked status ack) = false

publish_attempt-is_ok :
    (statuses : List ℕ) (snapshot : RouteSnapshot) (a : Answer)
    → (publish_attempt statuses snapshot a).is_ok ≡ is_accepted a
unfolding publish_attempt
publish_attempt-is_ok statuses snapshot (unreachable error) = refl
publish_attempt-is_ok statuses snapshot (refused status text) = refl
publish_attempt-is_ok statuses snapshot (acked status ack) = refl

publish_attempt-retryable :
    (statuses : List ℕ) (snapshot : RouteSnapshot) (a : Answer)
    → (publish_attempt statuses snapshot a).retryable ≡ is_repeatable statuses a
unfolding publish_attempt
publish_attempt-retryable statuses snapshot (unreachable error) = refl
publish_attempt-retryable statuses snapshot (refused status text) = refl
publish_attempt-retryable statuses snapshot (acked status ack) = refl

repeatable_not_accepted :
    (statuses : List ℕ) (a : Answer) → is_repeatable statuses a ≡ true → is_accepted a ≡ false
repeatable_not_accepted statuses (unreachable error) h = refl
repeatable_not_accepted statuses (refused status text) h = refl
repeatable_not_accepted statuses (acked status ack) h = cc

-- Within the limit some attempt is accepted, and every attempt before it may be repeated.
pub record IsAcceptedWithin (statuses : List ℕ) (answers : ℕ → Answer) (max : ℕ) : Type 0 where
  pub at : ℕ
  pub from_first : 0 < at
  pub within : at ≤ max
  pub accepted : is_accepted (answers at) ≡ true
  pub repeated : (k : ℕ) → 0 < k → k < at → is_repeatable statuses (answers k) ≡ true

module _ (statuses : List ℕ) (snapshot : RouteSnapshot) (answers : ℕ → Answer) (max : ℕ) where
  abbrev run : ℕ → AttemptResult
  run n = publish_attempt statuses snapshot (answers n)

  IsLast-accepted :
      (n : ℕ) → IsLast run 1 max n → (run n).is_ok ≡ true → IsAcceptedWithin statuses answers max
  IsLast-accepted n last good = record {
    at = n;
    from_first = last.from_first;
    within = last.within;
    accepted = sym (publish_attempt-is_ok statuses snapshot (answers n)) ∙ good;
    repeated = λ k low high.
        sym (publish_attempt-retryable statuses snapshot (answers k)) ∙ (last.retried k low high).1;
  }

  -- An attempt that ends the series before an accepted one would have been repeated.
  not_earlier :
      (n : ℕ) → IsLast run 1 max n → (h : IsAcceptedWithin statuses answers max) → n < h.at → ⊥
  not_earlier n last h early =
      let again = h.repeated n last.from_first early in
      let bad =
        publish_attempt-is_ok statuses snapshot (answers n)
        ∙ repeatable_not_accepted statuses (answers n) again in
      let more = publish_attempt-retryable statuses snapshot (answers n) ∙ again in
      elim last.ended [
        | inl good ↦ cc (sym bad ∙ good)
        | inr (inl final) ↦ cc (sym more ∙ final)
        | inr (inr full) ↦ omega (arith, h.within)
      ]

  accepted-IsLast :
      (n : ℕ) → IsLast run 1 max n → IsAcceptedWithin statuses answers max → (run n).is_ok ≡ true
  accepted-IsLast n last h =
      let good = publish_attempt-is_ok statuses snapshot (answers h.at) ∙ h.accepted in
      elim (Bool-cases (ltb h.at n)) [
        | inl late ↦
            absurd (cc (sym (last.retried h.at h.from_first (ltb→lt h.at n late)).0 ∙ good))
        | inr not_late ↦ elim (Bool-cases (ltb n h.at)) [
          | inl early ↦ absurd (not_earlier n last h (ltb→lt n h.at early))
          | inr not_early ↦
              let same : h.at ≡ n =
                omega (arith, ltb→ge h.at n not_late, ltb→ge n h.at not_early) in
              subst (λ i. (run i).is_ok ≡ true) same good
        ]
      ]

module _ (network : Network) (snapshot : RouteSnapshot) (options : NormalizedPublishOptions) where
  abbrev pub snapshot_of : RuntimeNodeTarget → RouteSnapshot
  snapshot_of target = or_else target.snapshot snapshot

  abbrev pub IsDelivered : RuntimeNodeTarget → Type 0
  IsDelivered target =
      (network.url_error target.url ≡ none)
      × IsAcceptedWithin options.retry_on_statuses
          (network.answer (snapshot_endpoint target.url) (snapshot_of target)) options.max_attempts

  abbrev result_of : RuntimeNodeTarget → RouteSnapshotPublishTargetResult
  result_of target = publish_to_runtime_node network (snapshot_of target) target options

  invalid_url :
      (target : RuntimeNodeTarget) (error : _)
      → network.url_error target.url ≡ some error
      → (result_of target).result.is_ok ≡ false
  unfolding publish_to_runtime_node
  invalid_url target error h = rw (publish_to_runtime_node, h) refl

  IsDelivered-iff :
      0 < options.max_attempts
      → (target : RuntimeNodeTarget) → ((result_of target).result.is_ok ≡ true) ↔ IsDelivered target
  IsDelivered-iff some_attempt target = elim (Option-cases (network.url_error target.url)) [
    | inr (error, bad) ↦ (
      λ good. absurd (cc (sym (invalid_url target error bad) ∙ good)),
      λ d. absurd (cc (sym d.0 ∙ bad)),
    )
    | inl valid ↦
        let (n, same, last) =
          publish_to_runtime_node-ends network (snapshot_of target) target options valid
            some_attempt in
        let answers = network.answer (snapshot_endpoint target.url) (snapshot_of target) in
        (
          λ good. (
            valid,
            IsLast-accepted options.retry_on_statuses (snapshot_of target) answers
                options.max_attempts n last (rw same at good),
          ),
          λ d. rw same (
              accepted-IsLast options.retry_on_statuses (snapshot_of target) answers
                options.max_attempts n last d.1),
        )
  ]

  every-IsDelivered :
      0 < options.max_attempts
      → (targets : List RuntimeNodeTarget)
      → (every (λ (r : RouteSnapshotPublishTargetResult). r.result.is_ok) (map result_of targets)
          ≡ true)
        ↔ All IsDelivered targets
  every-IsDelivered some_attempt [] = (λ h. tt, λ h. refl)
  every-IsDelivered some_attempt (target ∷ targets) =
      let here = IsDelivered-iff some_attempt target in
      let rest = every-IsDelivered some_attempt targets in
      (λ h. (here.0 (ground arith), rest.0 (ground arith)), λ h. rw (here.1 h.0, rest.1 h.1) refl)

positive_or-positive : (o : Option ℕ) (n : ℕ) → 0 < n → 0 < positive_or o n
unfolding positive_or
positive_or-positive none n h = h
positive_or-positive (some zero) n h = h
positive_or-positive (some (suc k)) n h = omega arith

some_attempts :
    (options : RouteSnapshotPublishOptions) → 0 < (normalize_publish_options options).max_attempts
unfolding normalize_publish_options
some_attempts options = positive_or-positive options.max_attempts 3 (omega arith)

-- A publication is reported as a success exactly if every target has a valid URL and accepts, at one
-- of the attempts that the options allow, the snapshot meant for it, after attempts that all failed
-- without an answer or with a status that may be tried again. The options always allow an attempt.
pub publish_route_snapshot-delivers :
    (network : Network) (snapshot : RouteSnapshot) (targets : List RuntimeNodeTarget)
    (options : RouteSnapshotPublishOptions)
    → ((publish_route_snapshot network snapshot targets options).is_ok ≡ true)
      ↔ All (IsDelivered network snapshot (normalize_publish_options options)) targets
unfolding publish_route_snapshot
publish_route_snapshot-delivers network snapshot targets options =
    every-IsDelivered network snapshot (normalize_publish_options options) (some_attempts options)
      targets
