-- ===== src/ControlPlane/Replication.antt =====
-- The replica of a route snapshot: createInMemoryRouteSnapshotReplicaStore and replicaAck of
-- control-plane/snapshot-replication.ts, and the handler of http/app.ts that joins the two. The
-- parameters are `Date.parse`, `none` where it gives NaN (times before 1970 are left out), and
-- whether `localeCompare` puts one id before another. The attempts are those of Publisher.
use odenctl.Prelude.{
  ℕ, String, Bool, true, false, ◌&&◌, ◌||◌, Option, none, some, List, [], ◌∷◌, ltb, nat_eq,
  string_eq, ◌==◌, not, if◌then◌else◌, or_else,
}
use odenctl.Prelude.Text.{Text, codes}
use odenctl.Contracts.{RouteSnapshot}
pub mod Fresh
pub mod Converges
pub mod Acks

-- the state of a store, and the input of `apply`
pub record RouteSnapshotReplicaState : Type 0 where
  pub snapshot : RouteSnapshot
  pub source_region : Option String
  pub received_at : String

pub record RouteSnapshotReplicaApplyResult : Type 0 where
  pub accepted : Bool
  pub stale : Bool
  pub snapshot_id : Option String
  pub generated_at : String
  pub received_at : String

abbrev pub same_id : Option String → Option String → Bool
same_id none none = true
same_id none (some b) = false
same_id (some a) none = false
same_id (some a) (some b) = a == b

module _ (date_parse : String → Option ℕ) (precedes : String → String → Bool) where
  -- `compareSnapshotFreshness` is below 0: the ids decide if the times are equal or one is NaN
  unfoldable pub id_is_staler : RouteSnapshot → RouteSnapshot → Bool
  id_is_staler left right =
      if same_id left.id right.id
      then false
      else precedes (or_else left.id "") (or_else right.id "")

  unfoldable pub is_staler : RouteSnapshot → RouteSnapshot → Bool
  unfolding id_is_staler
  is_staler left right = elim (date_parse left.generated_at) [
    | none ↦ id_is_staler left right
    | some at_left ↦ elim (date_parse right.generated_at) [
      | none ↦ id_is_staler left right
      | some at_right ↦
          if at_left == at_right then id_is_staler left right else ltb at_left at_right
    ]
  ]

  abbrev pub accepts : RouteSnapshotReplicaState → RouteSnapshotReplicaApplyResult
  accepts input = record {
    accepted = true;
    stale = false;
    snapshot_id = input.snapshot.id;
    generated_at = input.snapshot.generated_at;
    received_at = input.received_at;
  }

  abbrev pub rejects : RouteSnapshotReplicaState → RouteSnapshotReplicaApplyResult
  rejects state = record {
    accepted = false;
    stale = true;
    snapshot_id = state.snapshot.id;
    generated_at = state.snapshot.generated_at;
    received_at = state.received_at;
  }

  unfoldable pub apply :
      RouteSnapshotReplicaState
      → Option RouteSnapshotReplicaState
      → Option RouteSnapshotReplicaState × RouteSnapshotReplicaApplyResult
  unfolding is_staler
  apply input none = (some input, accepts input)
  apply input (some state) =
      if is_staler input.snapshot state.snapshot
      then (some state, rejects state)
      else (some input, accepts input)

  -- the state after a sequence of snapshots
  unfoldable pub apply_all :
      List RouteSnapshotReplicaState
      → Option RouteSnapshotReplicaState
      → Option RouteSnapshotReplicaState
  unfolding apply
  apply_all [] state = state
  apply_all (input ∷ inputs) state = apply_all inputs (apply input state).0

-- the body of an answer, of which a field of another type counts as missing
pub record Ack : Type 0 where
  pub accepted : Option Bool
  pub stale : Option Bool
  pub snapshot_id : Option String
  pub generated_at : Option String

-- the answer of the handler to a `PUT`, as the sender reads it
abbrev pub ack_of : RouteSnapshotReplicaApplyResult → Ack
ack_of result = record {
  accepted = some result.accepted;
  stale = some result.stale;
  snapshot_id = result.snapshot_id;
  generated_at = some result.generated_at;
}

pub record ReplicaAck : Type 0 where
  pub is_ok : Bool
  pub consistent : Bool
  pub snapshot_id : Option String
  pub generated_at : Option String
  pub error : Option Text

abbrev pub is_false : Option Bool → Bool
is_false (some false) = true
is_false (some true) = false
is_false none = false

abbrev pub is_true : Option Bool → Bool
is_true (some true) = true
is_true (some false) = false
is_true none = false

-- `snapshot.id === undefined || snapshotId === snapshot.id`
abbrev pub acked_id : Option String → Option String → Bool
acked_id none acked = true
acked_id (some id) acked = same_id acked (some id)

unfoldable pub replica_ack : RouteSnapshot → Ack → ReplicaAck
replica_ack snapshot ack =
    if is_false ack.accepted
    then record {
      is_ok = true;
      consistent = false;
      snapshot_id = ack.snapshot_id;
      generated_at = ack.generated_at;
      error = some (
          if is_true ack.stale
          then codes "replica rejected stale snapshot"
          else codes "replica rejected snapshot");
    }
    else if not (acked_id snapshot.id ack.snapshot_id)
        || not (same_id ack.generated_at (some snapshot.generated_at))
    then record {
      is_ok = true;
      consistent = false;
      snapshot_id = ack.snapshot_id;
      generated_at = ack.generated_at;
      error = some (codes "replica acknowledged a different snapshot");
    }
    else record {
      is_ok = true;
      consistent = true;
      snapshot_id = ack.snapshot_id;
      generated_at = ack.generated_at;
      error = none;
    }
