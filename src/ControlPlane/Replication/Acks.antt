-- ===== src/ControlPlane/Replication/Acks.antt =====
-- What the sender concludes from the answer of a replica.
use odenctl.Prelude.{
  ℕ, ◌≡◌, refl, sym, ◌∙◌, ◌↔◌, inl, inr, String, Bool, true, false, Option, none, some, string_eq,
  nat_eq, Bool-cases, Option-cases, beq_refl,
}
use odenctl.Contracts.{RouteSnapshot}
use odenctl.ControlPlane.Replication.{
  RouteSnapshotReplicaState, same_id, id_is_staler, is_staler, accepts, rejects, apply, ack_of,
  acked_id, replica_ack,
}

same_id_refl : (id : Option String) → same_id id id ≡ true
same_id_refl none = refl
same_id_refl (some a) = beq_refl a

acked_id_refl : (id : Option String) → acked_id id id ≡ true
acked_id_refl none = refl
acked_id_refl (some a) = beq_refl a

module _ (date_parse : String → Option ℕ) (precedes : String → String → Bool) where
  id_is_staler_refl : (s : RouteSnapshot) → id_is_staler date_parse precedes s s ≡ false
  unfolding id_is_staler
  id_is_staler_refl s = rw (id_is_staler, same_id_refl s.id) refl

  is_staler_refl : (s : RouteSnapshot) → is_staler date_parse precedes s s ≡ false
  unfolding is_staler
  is_staler_refl s = elim (Option-cases (date_parse s.generated_at)) [
    | inl missing ↦ rw (is_staler, missing) (id_is_staler_refl s)
    | inr (t, at) ↦ rw (is_staler, at) (rw (at, beq_refl t) (id_is_staler_refl s))
  ]

  -- the sender's view of its snapshot, and the state of the replica, after one `PUT`
  abbrev pub sent : RouteSnapshotReplicaState → Option RouteSnapshotReplicaState → Bool
  sent input state =
      (replica_ack input.snapshot (ack_of (apply date_parse precedes input state).1)).consistent

  accepted_ack :
      (input : RouteSnapshotReplicaState)
      → (replica_ack input.snapshot (record {
        accepted = some true;
        stale = some false;
        snapshot_id = input.snapshot.id;
        generated_at = some input.snapshot.generated_at;
      })).consistent
        ≡ true
  unfolding replica_ack
  accepted_ack input =
      rw (acked_id_refl input.snapshot.id, beq_refl input.snapshot.generated_at) refl

  apply-staler :
      (input state : RouteSnapshotReplicaState)
      → is_staler date_parse precedes input.snapshot state.snapshot ≡ true
      → apply date_parse precedes input (some state)
        ≡ (some state, rejects date_parse precedes state)
  unfolding apply
  apply-staler input state staler = rw (apply, staler) refl

  apply-fresh :
      (input state : RouteSnapshotReplicaState)
      → is_staler date_parse precedes input.snapshot state.snapshot ≡ false
      → apply date_parse precedes input (some state)
        ≡ (some input, accepts date_parse precedes input)
  unfolding apply
  apply-fresh input state fresh = rw (apply, fresh) refl

  same_staler :
      (input state : RouteSnapshotReplicaState)
      → some state ≡ some input
      → is_staler date_parse precedes input.snapshot state.snapshot ≡ false
  same_staler input state h =
      let same : state ≡ input = cc h in rw same (is_staler_refl input.snapshot)

  -- The sender of a snapshot takes the replica for consistent exactly if the replica now holds what
  -- was sent.
  pub replica_ack-holds :
      (input : RouteSnapshotReplicaState) (state : Option RouteSnapshotReplicaState)
      → (sent input state ≡ true) ↔ ((apply date_parse precedes input state).0 ≡ some input)
  unfolding apply replica_ack
  replica_ack-holds input none = (λ h. refl, λ h. accepted_ack input)
  replica_ack-holds input (some state) =
      elim (Bool-cases (is_staler date_parse precedes input.snapshot state.snapshot)) [
        | inr fresh ↦ rw (sent, apply-fresh input state fresh) (λ h. refl, λ h. accepted_ack input)
        | inl staler ↦
            rw (sent, apply-staler input state staler)
              (λ h. absurd (cc h), λ h. absurd (cc (sym (same_staler input state h) ∙ staler)))
      ]
