-- ===== src/ControlPlane/Publisher/Attempts.antt =====
-- The attempts of one target: how many there are, and which one is reported.
use odenctl.Prelude.{
  ℕ, zero, suc, ◌+◌, ◌-◌, ◌≤◌, ◌<◌, ◌≡◌, refl, subst, ◌⊎◌, inl, inr, true, false, none, some, arith,
  leb, Bool-cases, leb→le,
}
use odenctl.Contracts.{RouteSnapshot}
use odenctl.ControlPlane.Publisher.{
  AttemptResult, Network, RuntimeNodeTarget, RouteSnapshotPublishTargetResult,
  NormalizedPublishOptions, stops, attempt_loop, publish_attempt, snapshot_endpoint,
  publish_to_runtime_node, with_target_timing,
}

-- `n` is the attempt at which a series of at most `max` attempts from the first on ends.
pub record IsLast (run : ℕ → AttemptResult) (first max n : ℕ) : Type 0 where
  pub from_first : first ≤ n
  pub within : n ≤ max
  pub retried : (k : ℕ) → first ≤ k → k < n → ((run k).is_ok ≡ false) × ((run k).retryable ≡ true)
  pub ended : ((run n).is_ok ≡ true) ⊎ (((run n).retryable ≡ false) ⊎ (n ≡ max))

stops-ended :
    (max : ℕ) (result : AttemptResult) (n : ℕ)
    → n ≤ max
    → stops max result n ≡ true
    → (result.is_ok ≡ true) ⊎ ((result.retryable ≡ false) ⊎ (n ≡ max))
stops-ended max result n within h = elim (Bool-cases result.is_ok) [
  | inl good ↦ inl good
  | inr bad ↦ elim (Bool-cases result.retryable) [
    | inr final ↦ inr (inl final)
    | inl again ↦
        let reached : leb max n ≡ true = ground arith in
        inr (inr (omega (arith, leb→le max n reached)))
  ]
]

goes_on :
    (max : ℕ) (result : AttemptResult) (n : ℕ)
    → stops max result n ≡ false
    → (result.is_ok ≡ false) × (result.retryable ≡ true) × (n < max)
goes_on max result n h = ground arith

IsLast-step :
    (run : ℕ → AttemptResult) (first max n : ℕ)
    → (run first).is_ok ≡ false
    → (run first).retryable ≡ true
    → IsLast run (first + 1) max n
    → IsLast run first max n
IsLast-step run first max n bad again h = record {
  from_first = omega (arith, h.from_first);
  within = h.within;
  retried = λ k low high. elim (Bool-cases (leb k first)) [
    | inl at ↦ let here : first ≡ k = omega (arith, leb→le k first at) in rw (← here) (bad, again)
    | inr above ↦ h.retried k (ground arith) high
  ];
  ended = h.ended;
}

stops_first :
    (run : ℕ → AttemptResult) (max first : ℕ)
    → first ≤ max
    → stops max (run first) first ≡ true
    → IsLast run first max first
stops_first run max first within now = record {
  from_first = omega arith;
  within = within;
  retried = λ k low high. absurd (omega arith);
  ended = stops-ended max (run first) first within now;
}

-- The loop returns, since the rounds left always reach the last attempt.
pub attempt_loop-IsLast :
    (run : ℕ → AttemptResult) (max left first : ℕ)
    → first + left ≡ max
    → (n : ℕ) × (attempt_loop run max (suc left) first ≡ some (run n, n)) × IsLast run first max n
unfolding attempt_loop
attempt_loop-IsLast run max zero first e = elim (Bool-cases (stops max (run first) first)) [
  | inl now ↦ (first, rw (attempt_loop, now) refl, stops_first run max first (omega arith) now)
  | inr later ↦
      let (bad, again, below) = goes_on max (run first) first later in absurd (omega arith)
]
attempt_loop-IsLast run max (suc left) first e = elim (Bool-cases (stops max (run first) first)) [
  | inl now ↦ (first, rw (attempt_loop, now) refl, stops_first run max first (omega arith) now)
  | inr later ↦
      let (bad, again, below) = goes_on max (run first) first later in
      let (n, found, last) = attempt_loop-IsLast run max left (first + 1) (omega arith) in
      (n, rw (attempt_loop, later) found, IsLast-step run first max n bad again last)
]

module _ (network : Network) (snapshot : RouteSnapshot) (target : RuntimeNodeTarget)
    (options : NormalizedPublishOptions) where
  -- what the nth attempt at the target gives
  abbrev pub attempt_of : ℕ → AttemptResult
  attempt_of n =
      publish_attempt options.retry_on_statuses snapshot
        (network.answer (snapshot_endpoint target.url) snapshot n)

  abbrev pub report_of : ℕ → RouteSnapshotPublishTargetResult
  report_of n =
      with_target_timing target (attempt_of n) n (network.started_ms target)
        (network.ended_ms target)

  pub publish_to_runtime_node-ends :
      network.url_error target.url ≡ none
      → 0 < options.max_attempts
      → (n : ℕ) × (publish_to_runtime_node network snapshot target options ≡ report_of n)
        × IsLast attempt_of 1 options.max_attempts n
  unfolding publish_to_runtime_node
  publish_to_runtime_node-ends valid some_attempt =
      let max = options.max_attempts in
      let rounds : suc (max - 1) ≡ max = omega arith in
      let (n, found, last) = attempt_loop-IsLast attempt_of max (max - 1) 1 (omega arith) in
      let loop : attempt_loop attempt_of max max 1 ≡ some (attempt_of n, n) =
        subst (λ r. attempt_loop attempt_of max r 1 ≡ some (attempt_of n, n)) rounds found in
      (n, rw (publish_to_runtime_node, valid) (rw loop refl), last)

  -- For a target with a valid URL and a limit of at least one attempt, the publication reports the
  -- result of one attempt together with its number, which is within the limit: every attempt before
  -- it failed and could be repeated, and it succeeded, could not be repeated, or was the last
  -- allowed.
  pub publish_to_runtime_node-IsLast :
      network.url_error target.url ≡ none
      → 0 < options.max_attempts
      → let report = publish_to_runtime_node network snapshot target options in
        (report.result ≡ attempt_of report.attempts)
        × IsLast attempt_of 1 options.max_attempts report.attempts
  publish_to_runtime_node-IsLast valid some_attempt =
      let (n, same, last) = publish_to_runtime_node-ends valid some_attempt in rw same (refl, last)
