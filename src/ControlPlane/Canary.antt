-- ===== src/ControlPlane/Canary.antt =====
-- The analysis of a canary: control-plane/canary-analysis.ts. Statuses, durations and counts are
-- natural numbers (a negative duration counts as zero in the source too). The threshold on the rate
-- of errors is a fraction, and the rate is kept as its two numbers: the source compares their
-- quotient in floating point. `minRequests` and the other thresholds that are not whole numbers are
-- left out.
use odenctl.Prelude.{
  ℕ, ◌+◌, ◌-◌, ◌*◌, ◌/◌, String, Bool, true, false, ◌&&◌, ◌||◌, Option, none, some, List, [], ◌∷◌,
  length, filter, map, get_elem?, ltb, leb, nat_eq, string_eq, ◌==◌, not, if◌then◌else◌, is_some,
  or_else,
}
use odenctl.Prelude.Sort.{sort}
pub mod Percentiles
pub mod Breaches
pub mod Decisions

pub record CanaryMetricEvent : Type 0 where
  pub deployment_id : Option String
  pub status : ℕ
  pub duration_ms : ℕ
  pub error_code : Option String

pub record Fraction : Type 0 where
  pub numerator : ℕ
  pub denominator : ℕ

pub record CanaryAnalysisThresholds : Type 0 where
  pub min_requests : Option ℕ
  pub p95_ms : Option ℕ
  pub error_rate : Option Fraction
  pub reject_count : Option ℕ

pub record CanaryAnalysisMetrics : Type 0 where
  pub requests : ℕ
  pub errors : ℕ
  pub rejects : ℕ
  pub error_rate : Fraction
  pub p95_ms : ℕ

pub data CanaryAnalysisAction : Type 0 where
  continue_canary rollback_canary : CanaryAnalysisAction

pub data CanaryAnalysisReason : Type 0 where
  within_thresholds insufficient_samples p95_latency error_rate_reason reject_count_reason :
      CanaryAnalysisReason

pub record CanaryAnalysisResult : Type 0 where
  pub action : CanaryAnalysisAction
  pub reason : CanaryAnalysisReason
  pub metrics : CanaryAnalysisMetrics

-- `Boolean(event.errorCode)`: the empty string is not an error
abbrev pub is_error_event : CanaryMetricEvent → Bool
is_error_event event =
    leb 500 event.status || elim event.error_code [ none ↦ false | some code ↦ not (code == "") ]

abbrev pub is_rejected_event : CanaryMetricEvent → Bool
is_rejected_event event = event.status == 429 || event.status == 503 || elim event.error_code [
  | none ↦ false
  | some code ↦ code == "overloaded" || code == "rate_limited"
]

-- `Math.ceil((p / 100) * n) - 1`, at least 0 and at most n - 1
abbrev pub rank : ℕ → ℕ → ℕ
rank n p = let index = (p * n + 99) / 100 - 1 in if ltb (n - 1) index then n - 1 else index

unfoldable pub percentile : List ℕ → ℕ → ℕ
percentile [] p = 0
percentile (value ∷ values) p =
    or_else (get_elem? (value ∷ values) (rank (length (value ∷ values)) p)) 0

unfoldable pub summarize_canary_metrics : List CanaryMetricEvent → CanaryAnalysisMetrics
unfolding percentile sort
summarize_canary_metrics events =
    let requests = length events in
    let errors = length (filter is_error_event events) in
    record {
      requests = requests;
      errors = errors;
      rejects = length (filter is_rejected_event events);
      error_rate =
          if requests == 0
          then record { numerator = 0; denominator = 1 }
          else record { numerator = errors; denominator = requests };
      p95_ms = percentile (sort leb (map (λ event. event.duration_ms) events)) 95;
    }

abbrev pub exceeds : ℕ → Option ℕ → Bool
exceeds value none = false
exceeds value (some threshold) = ltb threshold value

abbrev pub rate_exceeds : Fraction → Option Fraction → Bool
rate_exceeds rate none = false
rate_exceeds rate (some threshold) =
    ltb (threshold.numerator * rate.denominator) (rate.numerator * threshold.denominator)

abbrev pub is_of : String → CanaryMetricEvent → Bool
is_of candidate event = elim event.deployment_id [ none ↦ false | some id ↦ id == candidate ]

unfoldable pub decide_canary :
    CanaryAnalysisThresholds → CanaryAnalysisMetrics → CanaryAnalysisResult
decide_canary thresholds metrics =
    if ltb metrics.requests (or_else thresholds.min_requests 1)
    then record { action = continue_canary; reason = insufficient_samples; metrics = metrics }
    else if exceeds metrics.rejects thresholds.reject_count
    then record { action = rollback_canary; reason = reject_count_reason; metrics = metrics }
    else if rate_exceeds metrics.error_rate thresholds.error_rate
    then record { action = rollback_canary; reason = error_rate_reason; metrics = metrics }
    else if exceeds metrics.p95_ms thresholds.p95_ms
    then record { action = rollback_canary; reason = p95_latency; metrics = metrics }
    else record { action = continue_canary; reason = within_thresholds; metrics = metrics }

unfoldable pub analyze_canary_events :
    List CanaryMetricEvent → String → CanaryAnalysisThresholds → CanaryAnalysisResult
unfolding summarize_canary_metrics decide_canary
analyze_canary_events events candidate thresholds =
    decide_canary thresholds (summarize_canary_metrics (filter (is_of candidate) events))
