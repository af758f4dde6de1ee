-- ===== src/ControlPlane/Admission/Prefixes.antt =====
-- Which URLs lie under a prefix.
use odenctl.Prelude.{
  ◌≡◌, refl, sym, ◌∙◌, ◌↔◌, ◌⊎◌, inl, inr, String, Bool, true, false, ◌||◌, Option, some, [], ◌∷◌,
  ◌++◌, arith, ap, Bool-cases, nat_eq, string_eq, ◌==◌, not, Option-cases, eq_of_beq, beq_refl,
  if◌then◌else◌,
}
use odenctl.Prelude.Text.{
  Text, text_eq, starts_with, ends_with, starts_with-split, starts_with-append, append_slash,
}
use odenctl.ControlPlane.Admission.{Url, allowed_path, covers, url_prefix_allows}

-- Every path is under the root, and a path is under itself. Under a directory, written with or
-- without a slash at its end, is what follows its name and a slash.
pub data Covers (allowed requested : Text) : Type 0 where
  root : (allowed ≡ b'/' ∷ []) ⊎ (allowed ≡ []) → Covers allowed requested
  same : requested ≡ allowed → Covers allowed requested
  below :
      (directory rest : Text)
      → (allowed ≡ directory) ⊎ (allowed ≡ directory ++ b'/' ∷ [])
      → requested ≡ directory ++ (b'/' ∷ rest)
      → Covers allowed requested

pub record IsUnder (allowed requested : Url) : Type 0 where
  pub protocols : allowed.protocol ≡ requested.protocol
  pub hosts : allowed.host ≡ requested.host
  pub paths : Covers allowed.pathname requested.pathname

ends_with-split : (s : Text) → ends_with s b'/' ≡ true → (base : Text) × (s ≡ base ++ b'/' ∷ [])
unfolding ends_with
ends_with-split [] h = cc
ends_with-split (c ∷ []) h = ([], rw (eq_of_beq c b'/' h) refl)
ends_with-split (c ∷ d ∷ s) h =
    let (base, e) = ends_with-split (d ∷ s) h in (c ∷ base, ap (λ t. c ∷ t) e)

split-ends_with : (base : Text) → ends_with (base ++ b'/' ∷ []) b'/' ≡ true
unfolding ends_with
split-ends_with [] = refl
split-ends_with (c ∷ []) = refl
split-ends_with (c ∷ d ∷ base) = split-ends_with (d ∷ base)

-- What begins with the path and one slash lies below it.
starts-Covers : (a r : Text) → starts_with r (allowed_path a) ≡ true → Covers a r
unfolding allowed_path
starts-Covers a r h = elim (Bool-cases (ends_with a b'/')) [
  | inl ended ↦
      let (base, split) = ends_with-split a ended in
      let (rest, e) = starts_with-split r a (rw (allowed_path, ended) at h) in
      below base rest (inr split) (e ∙ ap (λ t. t ++ rest) split ∙ append_slash base rest)
  | inr plain ↦
      let (rest, e) = starts_with-split r (a ++ b'/' ∷ []) (rw (allowed_path, plain) at h) in
      below a rest (inl refl) (e ∙ append_slash a rest)
]

below-starts :
    (a r base rest : Text)
    → (a ≡ base) ⊎ (a ≡ base ++ b'/' ∷ [])
    → r ≡ base ++ (b'/' ∷ rest)
    → starts_with r (allowed_path a) ≡ true
unfolding allowed_path
below-starts a r base rest (inr e) below_it =
    rw (e, allowed_path, split-ends_with base)
      (rw (below_it, ← append_slash base rest) (starts_with-append (base ++ b'/' ∷ []) rest))
below-starts a r base rest (inl e) below_it = elim (Bool-cases (ends_with base b'/')) [
  | inl ended ↦ rw (e, allowed_path, ended) (rw below_it (starts_with-append base (b'/' ∷ rest)))
  | inr plain ↦
      rw (e, allowed_path, plain)
        (rw (below_it, ← append_slash base rest) (starts_with-append (base ++ b'/' ∷ []) rest))
]

or-true : (a b : Bool) → (a || b) ≡ true → (a ≡ true) ⊎ (b ≡ true)
or-true true b h = inl refl
or-true false b h = inr h

tests-true :
    (p h t s : Bool)
    → (if not p || not h then false else if t then true else s) ≡ true
    → (p ≡ true) × (h ≡ true) × ((t ≡ true) ⊎ (s ≡ true))
tests-true true true true s e = (refl, refl, inl refl)
tests-true true true false s e = (refl, refl, inr e)
tests-true true false t s e = cc
tests-true false h t s e = cc

covers-IsUnder : (a r : Url) → covers a r ≡ true → IsUnder a r
unfolding covers
covers-IsUnder a r h =
    let (p, q, rest) =
      tests-true (a.protocol == r.protocol) (a.host == r.host)
        (a.pathname == b'/' ∷ [] || a.pathname == [])
        (r.pathname == a.pathname || starts_with r.pathname (allowed_path a.pathname)) h in
    record {
      protocols = eq_of_beq a.protocol r.protocol p;
      hosts = eq_of_beq a.host r.host q;
      paths = elim rest [
        | inl top ↦ elim (or-true (a.pathname == b'/' ∷ []) (a.pathname == []) top) [
          | inl slash ↦ root (inl (eq_of_beq a.pathname (b'/' ∷ []) slash))
          | inr empty ↦ root (inr (eq_of_beq a.pathname [] empty))
        ]
        | inr inside ↦ elim (or-true (r.pathname == a.pathname) _ inside) [
          | inl equal ↦ same (eq_of_beq r.pathname a.pathname equal)
          | inr start ↦ starts-Covers a.pathname r.pathname start
        ]
      ];
    }

path_tests :
    (a r : Text)
    → Covers a r
    → ((a == b'/' ∷ [] || a == []) ≡ true) ⊎ ((r == a || starts_with r (allowed_path a)) ≡ true)
path_tests a r (root (inl e)) = inl (rw e refl)
path_tests a r (root (inr e)) = inl (rw e refl)
path_tests a r (same e) = inr (rw (e, beq_refl a) refl)
path_tests a r (below base rest at e) =
    let start = below-starts a r base rest at e in inr (ground arith)

IsUnder-covers : (a r : Url) → IsUnder a r → covers a r ≡ true
unfolding covers
IsUnder-covers a r h =
    let p : (a.protocol == r.protocol) ≡ true = rw h.protocols (beq_refl r.protocol) in
    let q : (a.host == r.host) ≡ true = rw h.hosts (beq_refl r.host) in
    elim (path_tests a.pathname r.pathname h.paths) [
      | inl top ↦ rw (covers, p, q, top) refl
      | inr inside ↦ rw (covers, p, q, inside) (ground arith)
    ]

-- `value` is read as a URL under the one that `prefix` is read as.
pub record HasPrefix (parse : String → Option Url) (prefix value : String) : Type 0 where
  pub allowed : Url
  pub requested : Url
  pub read_prefix : parse prefix ≡ some allowed
  pub read_value : parse value ≡ some requested
  pub under : IsUnder allowed requested

-- A URL is allowed under a prefix exactly if both can be read, have the same protocol and the same
-- host with its port, and the path of the prefix is the root or the path itself, or names a
-- directory, with or without a slash at its end, and the path is that directory, a slash and
-- anything after it: `/api` covers `/api/x` and not `/apis`.
pub url_prefix_allows-HasPrefix :
    (parse : String → Option Url) (prefix value : String)
    → (url_prefix_allows parse prefix value ≡ true) ↔ HasPrefix parse prefix value
unfolding url_prefix_allows
url_prefix_allows-HasPrefix parse prefix value = elim (Option-cases (parse prefix)) [
  | inl missing ↦ (
    λ h. absurd (cc (rw (url_prefix_allows, missing) at h)),
    λ k. absurd (cc (sym k.read_prefix ∙ missing)),
  )
  | inr (a, at_a) ↦ elim (Option-cases (parse value)) [
    | inl missing ↦ (
      λ h. absurd (cc (rw (url_prefix_allows, at_a, missing) at h)),
      λ k. absurd (cc (sym k.read_value ∙ missing)),
    )
    | inr (r, at_r) ↦ (
      λ h. record {
        allowed = a;
        requested = r;
        read_prefix = at_a;
        read_value = at_r;
        under = covers-IsUnder a r (rw (url_prefix_allows, at_a, at_r) at h);
      },
      λ k.
          let one : k.allowed ≡ a = cc (sym k.read_prefix ∙ at_a) in
          let two : k.requested ≡ r = cc (sym k.read_value ∙ at_r) in
          rw (url_prefix_allows, at_a, at_r)
            (rw (← one, ← two) (IsUnder-covers k.allowed k.requested k.under)),
    )
  ]
]
