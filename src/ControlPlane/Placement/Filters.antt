-- ===== src/ControlPlane/Placement/Filters.antt =====
-- A filter with a test that may throw, and a snapshot cut down to what a filter leaves.
use odenctl.ControlPlane.Errors.{ok_injective}
use odenctl.Prelude.{
  ◌≤◌, ◌≡◌, refl, sym, ap, ◌∙◌, inl, inr, String, Bool, true, List, [], ◌∷◌, arith, length, filter,
  nat_eq, ◌==◌, if◌then◌else◌, Member, Bool-cases, length-filter-le, subst,
}
use odenctl.Contracts.{RouteSnapshotEntry, RouteSnapshot}
use odenctl.ControlPlane.Errors.{Result, ok, >>=-eq-ok}
use odenctl.ControlPlane.Placement.{filter_ok, snapshot_with_routes}

module _ {A : Type 0} (test : A → Result Bool) where
  -- The parts of a filter that returns.
  filter_ok-parts :
      (x : A) (xs ys : List A)
      → filter_ok test (x ∷ xs) ≡ ok ys
      → (keep : Bool) × (rest : List A) × (test x ≡ ok keep)
        × (filter_ok test xs ≡ ok rest)
        × (ys ≡ (if keep then x ∷ rest else rest))
  unfolding filter_ok
  filter_ok-parts x xs ys h =
      let (keep, tested, h1) = >>=-eq-ok (test x) _ h in
      let (rest, filtered, h2) = >>=-eq-ok (filter_ok test xs) _ h1 in
      (keep, rest, tested, filtered, sym (ok_injective h2))

  filter_ok_nil : (ys : List A) → filter_ok test [] ≡ ok ys → ys ≡ []
  unfolding filter_ok
  filter_ok_nil ys h = sym (ok_injective h)

  -- What such a filter leaves was there, and its test held.
  pub filter_ok-Member :
      (xs ys : List A) (a : A)
      → filter_ok test xs ≡ ok ys
      → Member a ys
      → Member a xs × (test a ≡ ok true)
  filter_ok-Member [] ys a h m = absurd (subst (Member a) (filter_ok_nil ys h) m)
  filter_ok-Member (x ∷ xs) ys a h m =
      let (keep, rest, tested, filtered, e) = filter_ok-parts x xs ys h in
      elim (Bool-cases keep) [
        | inl kept ↦
            let e' : ys ≡ x ∷ rest = e ∙ rw kept refl in
            let m' : Member a (x ∷ rest) = subst (Member a) e' m in
            elim m' [
              | inl here ↦ (inl here, ap test here ∙ tested ∙ ap ok kept)
              | inr later ↦ let (k, t) = filter_ok-Member xs rest a filtered later in (inr k, t)
            ]
        | inr gone ↦
            let e' : ys ≡ rest = e ∙ rw gone refl in
            let (k, t) = filter_ok-Member xs rest a filtered (subst (Member a) e' m) in (inr k, t)
      ]

  -- What passes the test stays.
  pub Member-filter_ok :
      (xs ys : List A) (a : A)
      → filter_ok test xs ≡ ok ys
      → Member a xs
      → test a ≡ ok true
      → Member a ys
  Member-filter_ok [] ys a h m t = absurd m
  Member-filter_ok (x ∷ xs) ys a h (inl here) t =
      let (keep, rest, tested, filtered, e) = filter_ok-parts x xs ys h in
      let kept : keep ≡ true = ok_injective (sym tested ∙ ap test (sym here) ∙ t) in
      let e' : ys ≡ x ∷ rest = e ∙ rw kept refl in subst (Member a) (sym e') (inl here)
  Member-filter_ok (x ∷ xs) ys a h (inr later) t =
      let (keep, rest, tested, filtered, e) = filter_ok-parts x xs ys h in
      let m = Member-filter_ok xs rest a filtered later t in
      elim (Bool-cases keep) [
        | inl kept ↦ let e' : ys ≡ x ∷ rest = e ∙ rw kept refl in subst (Member a) (sym e') (inr m)
        | inr gone ↦ let e' : ys ≡ rest = e ∙ rw gone refl in subst (Member a) (sym e') m
      ]

  length-filter_ok-le : (xs ys : List A) → filter_ok test xs ≡ ok ys → length ys ≤ length xs
  length-filter_ok-le [] ys h = rw (filter_ok_nil ys h) (omega arith)
  length-filter_ok-le (x ∷ xs) ys h =
      let (keep, rest, tested, filtered, e) = filter_ok-parts x xs ys h in
      let shorter = length-filter_ok-le xs rest filtered in rw e (ground arith)

  -- A filter that leaves as many elements leaves all of them.
  pub filter_ok-all : (xs ys : List A) → filter_ok test xs ≡ ok ys → length ys ≡ length xs → ys ≡ xs
  filter_ok-all [] ys h n = filter_ok_nil ys h
  filter_ok-all (x ∷ xs) ys h n =
      let (keep, rest, tested, filtered, e) = filter_ok-parts x xs ys h in
      let shorter = length-filter_ok-le xs rest filtered in
      elim (Bool-cases keep) [
        | inl kept ↦
            let e' : ys ≡ x ∷ rest = e ∙ rw kept refl in
            let same : length rest ≡ length xs = omega (arith, ap length e') in
            e' ∙ ap (λ zs. x ∷ zs) (filter_ok-all xs rest filtered same)
        | inr gone ↦ let e' : ys ≡ rest = e ∙ rw gone refl in absurd (omega (arith, ap length e'))
      ]

pub filter-all :
    {A : Type 0} (p : A → Bool) (xs : List A) → length (filter p xs) ≡ length xs → filter p xs ≡ xs
filter-all p [] h = refl
filter-all p (x ∷ xs) h = elim (Bool-cases (p x)) [
  | inl kept ↦ rw kept (ap (λ zs. x ∷ zs) (filter-all p xs (ground arith)))
  | inr gone ↦ ground (arith, length-filter-le p xs)
]

module _ (digest : String → List RouteSnapshotEntry → String) where
  -- The routes of a cut-down snapshot are those that the filter leaves.
  pub snapshot_with_routes_routes :
      (collates : String → String → Bool) (snapshot : RouteSnapshot)
      (routes : List RouteSnapshotEntry)
      → (length routes ≡ length snapshot.routes → routes ≡ snapshot.routes)
      → (snapshot_with_routes collates digest snapshot routes).routes ≡ routes
  unfolding snapshot_with_routes
  snapshot_with_routes_routes collates snapshot routes all =
      elim (Bool-cases (length routes == length snapshot.routes)) [
        | inl same ↦ rw same (sym (all (ground arith)))
        | inr fewer ↦ rw fewer refl
      ]
