-- ===== src/ControlPlane/Nodes/Keys.antt =====
-- The ids of the runtime nodes stay distinct, and what an update leaves under its id.
use odenctl.Prelude.{
  ◌≡◌, refl, subst, inl, inr, String, true, false, some, List, [], ◌∷◌, ◌++◌, map, arith, string_eq,
  ◌==◌, not, Bool-cases,
}
use odenctl.Prelude.Keyed.{has, get, Distinct, Distinct-append, get-append_absent}
use odenctl.ControlPlane.Errors.{conflict, not_found, ok, guard, >>=-eq-ok, ok_injective, guard-ok}
use odenctl.ControlPlane.Nodes.{
  RuntimeNode, node_id, replaced_in, update_rows, create_runtime_node, get_runtime_node,
}

-- A change of a row that leaves the id.
abbrev pub KeepsId : (RuntimeNode → RuntimeNode) → Type 0
KeepsId change = (row : RuntimeNode) → (change row).id ≡ row.id

module _ (id : String) (change : RuntimeNode → RuntimeNode) (keeps : KeepsId change) where
  replaced_in-id : (row : RuntimeNode) → (replaced_in id change row).id ≡ row.id
  replaced_in-id row = elim (Bool-cases (row.id == id)) [
    | inl here ↦ rw here (keeps row)
    | inr other ↦ rw other refl
  ]

  has-map_replaced :
      (k : String) (nodes : List RuntimeNode)
      → has node_id k (map (replaced_in id change) nodes) ≡ has node_id k nodes
  has-map_replaced k [] = refl
  has-map_replaced k (row ∷ rows) = rw (replaced_in-id row, has-map_replaced k rows) refl

  Distinct-map_replaced :
      (nodes : List RuntimeNode)
      → Distinct node_id nodes
      → Distinct node_id (map (replaced_in id change) nodes)
  Distinct-map_replaced [] d = tt
  Distinct-map_replaced (row ∷ rows) d =
      (rw (replaced_in-id row, has-map_replaced row.id rows) d.0, Distinct-map_replaced rows d.1)

  pub update_rows-Distinct :
      (nodes after : List RuntimeNode)
      → Distinct node_id nodes
      → update_rows id change nodes ≡ ok after
      → Distinct node_id after
  unfolding update_rows
  update_rows-Distinct nodes after d h =
      let (u, there, h1) = >>=-eq-ok (guard (has node_id id nodes) not_found) _ h in
      subst (Distinct node_id) (ok_injective h1) (Distinct-map_replaced nodes d)

  get-map_replaced :
      (nodes : List RuntimeNode) (row : RuntimeNode)
      → get node_id id nodes ≡ some row
      → get node_id id (map (replaced_in id change) nodes) ≡ some (change row)
  get-map_replaced [] row h = cc
  get-map_replaced (x ∷ xs) row h = elim (Bool-cases (x.id == id)) [
    | inl here ↦ let same : x ≡ row = ground arith in rw (replaced_in-id x, here, same) refl
    | inr other ↦ rw (replaced_in-id x, other) (get-map_replaced xs row (rw other at h))
  ]

  get-has :
      (nodes : List RuntimeNode) (row : RuntimeNode)
      → get node_id id nodes ≡ some row
      → has node_id id nodes ≡ true
  get-has [] row h = cc
  get-has (x ∷ xs) row h = ground (arith, get-has xs row)

  -- An update of a row that is there returns, and the row is changed.
  pub update_rows-get :
      (nodes : List RuntimeNode) (row : RuntimeNode)
      → get_runtime_node id nodes ≡ some row
      → (after : List RuntimeNode) × (update_rows id change nodes ≡ ok after)
        × (get_runtime_node id after ≡ some (change row))
  unfolding update_rows get_runtime_node
  update_rows-get nodes row h = (
    map (replaced_in id change) nodes,
    rw (get-has nodes row h) refl,
    get-map_replaced nodes row h,
  )

pub create_runtime_node-Distinct :
    (node : RuntimeNode) (nodes after : List RuntimeNode)
    → Distinct node_id nodes
    → create_runtime_node node nodes ≡ ok after
    → Distinct node_id after
unfolding create_runtime_node
create_runtime_node-Distinct node nodes after d h =
    let (u, free, h1) = >>=-eq-ok (guard (not (has node_id node.id nodes)) conflict) _ h in
    let absent = guard-ok conflict (not (has node_id node.id nodes)) free in
    subst (Distinct node_id) (ok_injective h1) (Distinct-append node_id nodes node d (ground arith))

pub create_runtime_node-get :
    (node : RuntimeNode) (nodes : List RuntimeNode)
    → has node_id node.id nodes ≡ false
    → (after : List RuntimeNode) × (create_runtime_node node nodes ≡ ok after)
      × (get_runtime_node node.id after ≡ some node)
unfolding create_runtime_node get_runtime_node
create_runtime_node-get node nodes absent =
    (nodes ++ node ∷ [], rw absent refl, get-append_absent node_id nodes node absent)
