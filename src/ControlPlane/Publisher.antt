-- ===== src/ControlPlane/Publisher.antt =====
-- Publication of a route snapshot to the runtime nodes: control-plane/snapshot-publisher.ts. What a
-- node answers to an attempt is a parameter, and so are the test of a URL (`new URL`), which gives the text of
-- its error, and the clock, of which a call reads its two times. Headers, signatures, the timeout and the pause
-- between two attempts are left out; a number option is `none` unless it is a natural number.
use odenctl.Prelude.{
  ℕ, suc, zero, ◌+◌, ◌-◌, String, Bool, true, false, ◌||◌, Option, none, some, List, [], ◌∷◌, ◌++◌,
  length, map, any, every, ltb, leb, nat_eq, ◌==◌, not, if◌then◌else◌, or_else,
}
use odenctl.Prelude.Text.{Text, codes}
use odenctl.Contracts.{RouteSnapshot}
pub mod Attempts
pub mod Reports

-- an answer of a node: a body that is an object has the fields that are of the right type
pub record Ack : Type 0 where
  pub routes : Option ℕ
  pub generated_at : Option String
  pub snapshot_id : Option String

pub data Answer : Type 0 where
  unreachable : Text → Answer
  refused : ℕ → Text → Answer
  acked : ℕ → Ack → Answer

pub record AttemptResult : Type 0 where
  pub is_ok : Bool
  pub status : Option ℕ
  pub routes : Option ℕ
  pub generated_at : Option String
  pub snapshot_id : Option String
  pub error : Option Text
  pub retryable : Bool

pub record RuntimeNodeTarget : Type 0 where
  pub id : Option String
  pub url : Text
  pub snapshot : Option RouteSnapshot

pub record RouteSnapshotPublishTargetResult : Type 0 where
  pub id : Option String
  pub url : Text
  pub result : AttemptResult
  pub attempts : ℕ
  pub elapsed_ms : ℕ

pub record RouteSnapshotPublishReport : Type 0 where
  pub is_ok : Bool
  pub snapshot_id : Option String
  pub routes : ℕ
  pub generated_at : String
  pub targets : List RouteSnapshotPublishTargetResult

-- the options that decide about attempts
pub record RouteSnapshotPublishOptions : Type 0 where
  pub max_attempts : Option ℕ
  pub retry_on_statuses : Option (List ℕ)

pub record NormalizedPublishOptions : Type 0 where
  pub max_attempts : ℕ
  pub retry_on_statuses : List ℕ

unfoldable pub positive_or : Option ℕ → ℕ → ℕ
positive_or none fallback = fallback
positive_or (some zero) fallback = fallback
positive_or (some (suc n)) fallback = suc n

abbrev pub default_statuses : List ℕ
default_statuses = 408 ∷ 409 ∷ 425 ∷ 429 ∷ 500 ∷ 502 ∷ 503 ∷ 504 ∷ []

unfoldable pub normalize_publish_options : RouteSnapshotPublishOptions → NormalizedPublishOptions
unfolding positive_or
normalize_publish_options options = record {
  max_attempts = positive_or options.max_attempts 3;
  retry_on_statuses = or_else options.retry_on_statuses default_statuses;
}

abbrev pub failed_attempt : Option ℕ → Text → Bool → AttemptResult
failed_attempt status error retryable = record {
  is_ok = false;
  status = status;
  routes = none;
  generated_at = none;
  snapshot_id = none;
  error = some error;
  retryable = retryable;
}

abbrev pub retries_on : List ℕ → ℕ → Bool
retries_on statuses status = any (λ s. s == status) statuses || leb 500 status

-- `a ?? b` on an id that may be missing on both sides
abbrev pub first_id : Option String → Option String → Option String
first_id (some id) fallback = some id
first_id none fallback = fallback

unfoldable pub publish_attempt : List ℕ → RouteSnapshot → Answer → AttemptResult
publish_attempt statuses snapshot (unreachable error) = failed_attempt none error true
publish_attempt statuses snapshot (refused status text) =
    failed_attempt (some status) text (retries_on statuses status)
publish_attempt statuses snapshot (acked status ack) = record {
  is_ok = true;
  status = some status;
  routes = some (or_else ack.routes (length snapshot.routes));
  generated_at = some (or_else ack.generated_at snapshot.generated_at);
  snapshot_id = first_id ack.snapshot_id snapshot.id;
  error = none;
  retryable = false;
}

-- the test of the loop: the attempt is the last one
abbrev pub stops : ℕ → AttemptResult → ℕ → Bool
stops max_attempts result attempt = result.is_ok || not result.retryable || leb max_attempts attempt

-- `for (attempt = 1; attempt <= maxAttempts; ...)`, by the rounds left; `none` when it runs out
unfoldable pub attempt_loop : (ℕ → AttemptResult) → ℕ → ℕ → ℕ → Option (AttemptResult × ℕ)
attempt_loop run max_attempts zero attempt = none
attempt_loop run max_attempts (suc left) attempt = elim (stops max_attempts (run attempt) attempt) [
  | true ↦ some (run attempt, attempt)
  | false ↦ attempt_loop run max_attempts left (attempt + 1)
]

-- `baseUrl.replace(/\/+$/, "")`
unfoldable pub without_slashes : Text → Text
without_slashes [] = []
without_slashes (c ∷ cs) =
    let rest = without_slashes cs in
    if c == b'/' then (elim rest [ [] ↦ [] | d ∷ ds ↦ c ∷ d ∷ ds ]) else c ∷ rest

unfoldable pub snapshot_endpoint : Text → Text
unfolding without_slashes
snapshot_endpoint base_url = without_slashes base_url ++ codes "/__runtime/snapshots/routes"

abbrev pub with_target_timing :
    RuntimeNodeTarget → AttemptResult → ℕ → ℕ → ℕ → RouteSnapshotPublishTargetResult
with_target_timing target result attempts started_ms ended_ms = record {
  id = target.id;
  url = target.url;
  result = result;
  attempts = attempts;
  elapsed_ms = ended_ms - started_ms;
}

-- the world outside: what is wrong with a URL, what an endpoint answers to the nth attempt at a
-- snapshot, and when a call for a target starts and ends
pub record Network : Type 0 where
  pub url_error : Text → Option Text
  pub answer : Text → RouteSnapshot → ℕ → Answer
  pub started_ms : RuntimeNodeTarget → ℕ
  pub ended_ms : RuntimeNodeTarget → ℕ

module _ (network : Network) where
  unfoldable pub publish_to_runtime_node :
      RouteSnapshot
      → RuntimeNodeTarget
      → NormalizedPublishOptions
      → RouteSnapshotPublishTargetResult
  unfolding attempt_loop publish_attempt snapshot_endpoint
  publish_to_runtime_node snapshot target options = elim (network.url_error target.url) [
    | some error ↦
        with_target_timing target (failed_attempt none error false) 1 (network.started_ms target)
          (network.ended_ms target)
    | none ↦
        let (result, attempts) =
          or_else
            (attempt_loop
              (λ attempt.
                publish_attempt options.retry_on_statuses snapshot
                  (network.answer (snapshot_endpoint target.url) snapshot attempt))
              options.max_attempts options.max_attempts 1)
            (
              failed_attempt none (codes "snapshot publish did not run") false,
              options.max_attempts,
            ) in
        with_target_timing target result attempts (network.started_ms target)
          (network.ended_ms target)
  ]

  unfoldable pub publish_route_snapshot :
      RouteSnapshot
      → List RuntimeNodeTarget
      → RouteSnapshotPublishOptions
      → RouteSnapshotPublishReport
  unfolding publish_to_runtime_node normalize_publish_options
  publish_route_snapshot snapshot targets options =
      let results =
        map
          (λ (target : RuntimeNodeTarget).
            publish_to_runtime_node (or_else target.snapshot snapshot) target
              (normalize_publish_options options))
          targets in
      record {
        is_ok = every (λ (r : RouteSnapshotPublishTargetResult). r.result.is_ok) results;
        snapshot_id = snapshot.id;
        routes = length snapshot.routes;
        generated_at = snapshot.generated_at;
        targets = results;
      }
