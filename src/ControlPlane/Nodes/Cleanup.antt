-- ===== src/ControlPlane/Nodes/Cleanup.antt =====
-- Which nodes a cleanup removes.
use odenctl.Prelude.{
  ◌≡◌, refl, sym, ap, ◌∙◌, ◌↔◌, inl, inr, ℕ, Bool, true, false, Option, List, [], ◌∷◌, arith,
  string_eq, ◌==◌, not, filter, Member, Member-filter, Member-filter_of, Bool-cases, eq_of_beq,
  beq_refl, any_of_Member,
}
use odenctl.Prelude.Keyed.{Distinct, Distinct-filter}
use odenctl.Contracts.{RuntimeNodeStatus}
use odenctl.ControlPlane.Errors.{ok}
use odenctl.ControlPlane.Routes.{positive_integer}
use odenctl.ControlPlane.Nodes.{
  RuntimeNode, node_id, is_removable, cleanup_statuses, delete_runtime_node, delete_all,
  cleanup_runtime_nodes,
}

abbrev same_node : RuntimeNode → RuntimeNode → Bool
same_node a b = a.id == b.id

-- Rows with one id are one row.
Distinct-unique :
    (nodes : List RuntimeNode) (a b : RuntimeNode)
    → Distinct node_id nodes
    → Member a nodes
    → Member b nodes
    → a.id ≡ b.id
    → a ≡ b
Distinct-unique [] a b d m n e = absurd m
Distinct-unique (x ∷ xs) a b d (inl p) (inl q) e = p ∙ sym q
Distinct-unique (x ∷ xs) a b d (inl p) (inr n) e =
    let hit = any_of_Member (λ y. y.id == x.id) xs b n (rw (← p, e) (beq_refl b.id)) in
    absurd (cc (sym hit ∙ d.0))
Distinct-unique (x ∷ xs) a b d (inr m) (inl q) e =
    let hit = any_of_Member (λ y. y.id == x.id) xs a m (rw (← q, ← e) (beq_refl a.id)) in
    absurd (cc (sym hit ∙ d.0))
Distinct-unique (x ∷ xs) a b d (inr m) (inr n) e = Distinct-unique xs a b d.1 m n e

-- A row stays unless some removed node has its id.
delete_all-Member :
    (removed nodes : List RuntimeNode) (a : RuntimeNode)
    → Member a (delete_all removed nodes)
    → Member a nodes × ((x : RuntimeNode) → Member x removed → (a.id == x.id) ≡ false)
unfolding delete_all delete_runtime_node
delete_all-Member [] nodes a m = (m, λ x n. absurd n)
delete_all-Member (y ∷ removed) nodes a m =
    let (inside, others) = delete_all-Member removed (delete_runtime_node y.id nodes) a m in
    let (before, kept) = Member-filter (λ b. not (node_id b == y.id)) nodes a inside in
    (before, λ x n. elim n [ inl e ↦ rw e (ground arith) | inr later ↦ others x later ])

delete_all-keeps :
    (removed nodes : List RuntimeNode) (a : RuntimeNode)
    → Member a nodes
    → ((x : RuntimeNode) → Member x removed → (a.id == x.id) ≡ false)
    → Member a (delete_all removed nodes)
unfolding delete_all delete_runtime_node
delete_all-keeps [] nodes a m h = m
delete_all-keeps (y ∷ removed) nodes a m h =
    let apart = h y (inl refl) in
    delete_all-keeps removed (delete_runtime_node y.id nodes) a
      (Member-filter_of (λ b. not (node_id b == y.id)) nodes a m (ground arith))
      (λ x n. h x (inr n))

pub delete_all-Distinct :
    (removed nodes : List RuntimeNode)
    → Distinct node_id nodes
    → Distinct node_id (delete_all removed nodes)
unfolding delete_all delete_runtime_node
delete_all-Distinct [] nodes d = d
delete_all-Distinct (y ∷ removed) nodes d =
    delete_all-Distinct removed (delete_runtime_node y.id nodes)
      (Distinct-filter node_id (λ b. not (node_id b == y.id)) nodes d)

-- A row that shares its id with no removed one was not to be removed.
not_removed :
    (test : RuntimeNode → Bool) (nodes : List RuntimeNode) (a : RuntimeNode)
    → Member a nodes
    → ((x : RuntimeNode) → Member x (filter test nodes) → (a.id == x.id) ≡ false)
    → test a ≡ false
not_removed test nodes a m apart = elim (Bool-cases (test a)) [
  | inr stays ↦ stays
  | inl goes ↦ absurd (cc (sym (apart a (Member-filter_of test nodes a m goes)) ∙ beq_refl a.id))
]

other_id :
    (test : RuntimeNode → Bool) (nodes : List RuntimeNode) (a x : RuntimeNode)
    → Distinct node_id nodes
    → Member a nodes
    → test a ≡ false
    → Member x (filter test nodes)
    → (a.id == x.id) ≡ false
other_id test nodes a x d m stays n = elim (Bool-cases (a.id == x.id)) [
  | inr apart ↦ apart
  | inl same ↦
      let (inside, goes) = Member-filter test nodes x n in
      let one = Distinct-unique nodes a x d m inside (eq_of_beq a.id x.id same) in
      absurd (cc (sym goes ∙ ap test (sym one) ∙ stays))
]

-- A cleanup with a positive limit and known statuses, of a table with distinct ids, returns, and
-- keeps exactly the nodes that are in another status than the given ones (offline if none is given)
-- or were seen, or registered if never seen, within the limit; the nodes that it reports are the
-- other ones of the table.
pub cleanup_runtime_nodes-Member :
    (now : ℕ) (older_than : Option ℕ) (statuses_input : Option (List (Option RuntimeNodeStatus)))
    (nodes : List RuntimeNode) (older_than_ms : ℕ) (statuses : List RuntimeNodeStatus)
    (a : RuntimeNode)
    → Distinct node_id nodes
    → positive_integer older_than ≡ ok older_than_ms
    → cleanup_statuses statuses_input ≡ ok statuses
    → let removed = filter (is_removable now older_than_ms statuses) nodes in
      (cleanup_runtime_nodes now older_than statuses_input nodes
        ≡ ok (delete_all removed nodes, removed))
      × (Member a (delete_all removed nodes)
          ↔ (Member a nodes × (is_removable now older_than_ms statuses a ≡ false)))
      × (Member a removed ↔ (Member a nodes × (is_removable now older_than_ms statuses a ≡ true)))
unfolding cleanup_runtime_nodes
cleanup_runtime_nodes-Member now older_than statuses_input nodes older_than_ms statuses a d limit
      wanted =
    let test = is_removable now older_than_ms statuses in
    let removed = filter test nodes in
    (
      rw (limit, wanted) refl,
      (
        λ m.
            let (inside, apart) = delete_all-Member removed nodes a m in
            (inside, not_removed test nodes a inside apart),
        λ (m, stays).
            delete_all-keeps removed nodes a m (λ x n. other_id test nodes a x d m stays n),
      ),
      (Member-filter test nodes a, λ (m, goes). Member-filter_of test nodes a m goes),
    )
