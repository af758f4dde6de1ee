-- ===== src/ControlPlane/Replication/Converges.antt =====
-- A replica keeps the freshest snapshot it was sent, whatever the order.
use odenctl.Prelude.{
  ◌≡◌, refl, inl, inr, ℕ, String, Bool, false, Option, none, some, List, [], ◌∷◌, Member,
  Bool-cases, All, All-member, All-of_Member,
}
use odenctl.ControlPlane.Replication.{RouteSnapshotReplicaState, is_staler, apply, apply_all}
use odenctl.ControlPlane.Replication.Fresh.{
  IsStrictOrder, IsDated, is_staler-asym, is_staler-cotrans, same_time,
}

module _ (date_parse : String → Option ℕ) (precedes : String → String → Bool)
    (order : IsStrictOrder precedes) where
  abbrev pub IsDatedInput : RouteSnapshotReplicaState → Type 0
  IsDatedInput input = IsDated date_parse precedes order input.snapshot

  -- `a` is not staler than `b`.
  abbrev pub IsFresher : RouteSnapshotReplicaState → RouteSnapshotReplicaState → Type 0
  IsFresher a b = is_staler date_parse precedes a.snapshot b.snapshot ≡ false

  IsFresher-refl : (a : RouteSnapshotReplicaState) → IsDatedInput a → IsFresher a a
  IsFresher-refl a d = elim (Bool-cases (is_staler date_parse precedes a.snapshot a.snapshot)) [
    | inr fresh ↦ fresh
    | inl staler ↦ is_staler-asym date_parse precedes order a.snapshot a.snapshot d d staler
  ]

  -- `final` is one of the snapshots sent, or the first one, and no staler than any of them.
  pub record IsFreshest (first : RouteSnapshotReplicaState)
      (inputs : List RouteSnapshotReplicaState) (final : RouteSnapshotReplicaState) : Type 0 where
    pub sent : Member final (first ∷ inputs)
    pub fresher : All (IsFresher final) (first ∷ inputs)

  -- one more snapshot that the state was compared with
  keep_first :
      (cur input final : RouteSnapshotReplicaState) (rest : List RouteSnapshotReplicaState)
      → IsFresher final input
      → IsFreshest cur rest final
      → IsFreshest cur (input ∷ rest) final
  keep_first cur input final rest above h = record {
    sent = elim h.sent [ inl e ↦ inl e | inr m ↦ inr (inr m) ];
    fresher = (h.fresher.0, (above, h.fresher.1));
  }

  take_input :
      (cur input final : RouteSnapshotReplicaState) (rest : List RouteSnapshotReplicaState)
      → IsFresher final cur
      → IsFreshest input rest final
      → IsFreshest cur (input ∷ rest) final
  take_input cur input final rest above h = record {
    sent = inr h.sent;
    fresher = (above, h.fresher);
  }

  final_dated :
      (cur final : RouteSnapshotReplicaState) (inputs : List RouteSnapshotReplicaState)
      → All IsDatedInput (cur ∷ inputs)
      → IsFreshest cur inputs final
      → IsDatedInput final
  final_dated cur final inputs dated h = All-member IsDatedInput (cur ∷ inputs) dated h.sent

  apply_all-IsFreshest_from :
      (inputs : List RouteSnapshotReplicaState) (cur : RouteSnapshotReplicaState)
      → All IsDatedInput (cur ∷ inputs)
      → (final : RouteSnapshotReplicaState) × (apply_all date_parse precedes inputs (some cur)
          ≡ some final)
        × IsFreshest cur inputs final
  unfolding apply_all apply
  apply_all-IsFreshest_from [] cur dated =
      (cur, refl, record { sent = inl refl; fresher = (IsFresher-refl cur dated.0, tt) })
  apply_all-IsFreshest_from (input ∷ rest) cur dated =
      elim (Bool-cases (is_staler date_parse precedes input.snapshot cur.snapshot)) [
        | inl staler ↦
            let (final, found, h) = apply_all-IsFreshest_from rest cur (dated.0, dated.1.1) in
            let fresh =
              is_staler-asym date_parse precedes order input.snapshot cur.snapshot dated.1.0 dated.0
                staler in
            let above =
              is_staler-cotrans date_parse precedes order final.snapshot cur.snapshot input.snapshot
                (final_dated cur final rest (dated.0, dated.1.1) h) dated.0 dated.1.0 h.fresher.0
                fresh in
            (final, rw (apply_all, staler) found, keep_first cur input final rest above h)
        | inr fresh ↦
            let (final, found, h) = apply_all-IsFreshest_from rest input dated.1 in
            let above =
              is_staler-cotrans date_parse precedes order final.snapshot input.snapshot cur.snapshot
                (final_dated input final rest dated.1 h) dated.1.0 dated.0 h.fresher.0 fresh in
            (final, rw (apply_all, fresh) found, take_input cur input final rest above h)
      ]

  -- An empty replica that is sent some snapshots with readable times holds one of them at the end,
  -- and none of them is fresher.
  pub apply_all-IsFreshest :
      (first : RouteSnapshotReplicaState) (inputs : List RouteSnapshotReplicaState)
      → All IsDatedInput (first ∷ inputs)
      → (final : RouteSnapshotReplicaState) × (apply_all date_parse precedes (first ∷ inputs) none
          ≡ some final)
        × IsFreshest first inputs final
  unfolding apply_all apply
  apply_all-IsFreshest first inputs dated = apply_all-IsFreshest_from inputs first dated

  -- Two empty replicas that are sent the same snapshots, with readable times, in any orders and with
  -- any repetitions, both hold a snapshot at the end, with the same time, and neither is staler than
  -- the other.
  pub apply_all-converges :
      (x y : RouteSnapshotReplicaState) (xs ys : List RouteSnapshotReplicaState)
      → All IsDatedInput (x ∷ xs)
      → ((s : RouteSnapshotReplicaState) → Member s (x ∷ xs) → Member s (y ∷ ys))
      → ((s : RouteSnapshotReplicaState) → Member s (y ∷ ys) → Member s (x ∷ xs))
      → (a b : RouteSnapshotReplicaState) × (apply_all date_parse precedes (x ∷ xs) none ≡ some a)
        × (apply_all date_parse precedes (y ∷ ys) none ≡ some b)
        × IsFresher a b
        × IsFresher b a
        × (date_parse a.snapshot.generated_at ≡ date_parse b.snapshot.generated_at)
  apply_all-converges x y xs ys dated to from =
      let dated' : All IsDatedInput (y ∷ ys) =
        All-of_Member IsDatedInput (y ∷ ys)
          (λ s m. All-member IsDatedInput (x ∷ xs) dated (from s m)) in
      let (a, found_a, h) = apply_all-IsFreshest x xs dated in
      let (b, found_b, k) = apply_all-IsFreshest y ys dated' in
      let ab = All-member (IsFresher a) (x ∷ xs) h.fresher (from b k.sent) in
      let ba = All-member (IsFresher b) (y ∷ ys) k.fresher (to a h.sent) in
      let time =
        same_time date_parse precedes order a.snapshot b.snapshot (final_dated x a xs dated h)
          (final_dated y b ys dated' k) ab ba in
      (a, b, found_a, found_b, ab, ba, time)
