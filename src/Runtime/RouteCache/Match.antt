-- ===== src/Runtime/RouteCache/Match.antt =====
-- What `match` returns: a matching route, the most specific one, and one whenever there is one.
use odenctl.Prelude.{
  ◌≤◌, ◌≡◌, sym, ◌∙◌, ◌⊎◌, inl, inr, Bool, true, false, ◌&&◌, none, some, List, [], ◌∷◌, arith,
  length, find, Member, All-member, find-some, find-none, eq_of_beq, beq_refl, Bool-cases, ◌==◌,
}
use odenctl.Prelude.Sort.{sort, IsSorted, IsTotalPreorder, sort-IsSorted, Member-sort, sort-Member}
use odenctl.Prelude.Text.{Text, text_eq}
use odenctl.Contracts.{RouteSnapshotEntry, RouteSnapshot}
use odenctl.Runtime.RouteCache.{
  RouteMatchInput, normalize_host, normalize_path, path_prefix_matches, route_precedence, entries,
  match_route,
}

-- A route serves a request: same host, and the prefix covers the path.
abbrev pub Serves : RouteSnapshotEntry → RouteMatchInput → Type 0
Serves route input =
    (route.host ≡ normalize_host input.host)
    × (path_prefix_matches (normalize_path input.path) route.path_prefix ≡ true)

-- The first hit of a sorted list stands before every other hit.
find-first :
    {A : Type 0} (before : A → A → Bool) (p : A → Bool) (xs : List A) {a b : A}
    → IsSorted before xs
    → find p xs ≡ some a
    → Member b xs
    → p b ≡ true
    → (b ≡ a) ⊎ (before a b ≡ true)
find-first before p [] s h m e = absurd m
find-first before p (x ∷ xs) {a} {b} s h (inl q) e = inl (ground arith)
find-first before p (x ∷ xs) {a} {b} s h (inr m) e = elim (Bool-cases (p x)) [
  | inl hit ↦
      let here : x ≡ a = ground arith in
      inr (rw (← here) (All-member (λ y. before x y ≡ true) xs s.0 m))
  | inr miss ↦ find-first before p xs s.1 (ground arith) m e
]

serves_test :
    (route : RouteSnapshotEntry) (host path : Text)
    → (route.host == host && path_prefix_matches path route.path_prefix) ≡ true
    → (route.host ≡ host) × (path_prefix_matches path route.path_prefix ≡ true)
serves_test route host path h = elim (Bool-cases (route.host == host)) [
  | inl same ↦ (eq_of_beq route.host host same, ground arith)
  | inr other ↦ ground arith
]

test_serves :
    (route : RouteSnapshotEntry) (host path : Text)
    → route.host ≡ host
    → path_prefix_matches path route.path_prefix ≡ true
    → (route.host == host && path_prefix_matches path route.path_prefix) ≡ true
test_serves route host path e h = rw (← e) (rw (beq_refl route.host) h)

module _ (collates : Text → Text → Bool) where
  -- A match is a route of the snapshot that serves the request.
  pub match_route_sound :
      (snapshot : RouteSnapshot) (input : RouteMatchInput) {route : RouteSnapshotEntry}
      → match_route collates snapshot input ≡ some route
      → Member route snapshot.routes × Serves route input
  unfolding match_route entries
  match_route_sound snapshot input {route} h =
      let (m, e) = find-some _ (sort (route_precedence collates) snapshot.routes) route h in
      (Member-sort _ snapshot.routes route m, serves_test route _ _ e)

  -- Nothing is found only if no route of the snapshot serves the request.
  pub match_route_complete :
      (snapshot : RouteSnapshot) (input : RouteMatchInput)
      → match_route collates snapshot input ≡ none
      → (route : RouteSnapshotEntry) → Member route snapshot.routes
      → ¬ Serves route input
  unfolding match_route entries
  match_route_complete snapshot input h route m s =
      let missed =
        find-none _ (sort (route_precedence collates) snapshot.routes) route h
          (sort-Member _ snapshot.routes route m) in
      cc (missed, test_serves route _ _ s.0 s.1)

  module _ (order : IsTotalPreorder collates) where
    precedence-total :
        (a b : RouteSnapshotEntry)
        → route_precedence collates a b ≡ false
        → route_precedence collates b a ≡ true
    unfolding route_precedence
    precedence-total a b h = ground (arith, order.total a.host b.host, order.total b.host a.host)

    precedence_trans :
        (a b c : RouteSnapshotEntry)
        → route_precedence collates a b ≡ true
        → route_precedence collates b c ≡ true
        → route_precedence collates a c ≡ true
    unfolding route_precedence
    precedence_trans a b c h k = ground (
      arith,
      order.trans a.host b.host c.host,
      order.trans c.host b.host a.host,
      order.trans c.host a.host b.host,
      order.trans b.host c.host a.host,
      order.trans b.host a.host c.host,
      order.trans a.host c.host b.host,
      order.total a.host b.host,
      order.total b.host a.host,
      order.total b.host c.host,
      order.total c.host b.host,
      order.total a.host c.host,
      order.total c.host a.host,
    )

    precedence-IsTotalPreorder : IsTotalPreorder (route_precedence collates)
    precedence-IsTotalPreorder = record { total = precedence-total; trans = precedence_trans }

    collates_refl : (h : Text) → collates h h ≡ true
    collates_refl h = elim (Bool-cases (collates h h)) [ inl e ↦ e | inr e ↦ order.total h h e ]

    precedence-same_host :
        (a b : RouteSnapshotEntry)
        → a.host ≡ b.host
        → route_precedence collates a b ≡ true
        → length b.path_prefix ≤ length a.path_prefix
    unfolding route_precedence
    precedence-same_host a b e h = ground (arith, collates_refl b.host)

    match_route-first :
        (snapshot : RouteSnapshot) (input : RouteMatchInput) {route : RouteSnapshotEntry}
        (other : RouteSnapshotEntry)
        → match_route collates snapshot input ≡ some route
        → Member other snapshot.routes
        → Serves other input
        → (other ≡ route) ⊎ (route_precedence collates route other ≡ true)
    unfolding match_route entries
    match_route-first snapshot input other h m s =
        find-first (route_precedence collates) _ (sort (route_precedence collates) snapshot.routes)
          (sort-IsSorted _ precedence-IsTotalPreorder snapshot.routes) h
          (sort-Member _ snapshot.routes other m) (test_serves other _ _ s.0 s.1)

    -- If the collation of hosts is a total preorder, no route of the snapshot that serves the request
    -- has a longer prefix than the match.
    pub match_route-longest :
        (snapshot : RouteSnapshot) (input : RouteMatchInput) {route : RouteSnapshotEntry}
        (other : RouteSnapshotEntry)
        → match_route collates snapshot input ≡ some route
        → Member other snapshot.routes
        → Serves other input
        → length other.path_prefix ≤ length route.path_prefix
    match_route-longest snapshot input {route} other h m s =
        elim (match_route-first snapshot input other h m s) [
          | inl e ↦ rw e (omega arith)
          | inr p ↦
              let found = match_route_sound snapshot input h in
              precedence-same_host route other (found.1.0 ∙ sym s.0) p
        ]
