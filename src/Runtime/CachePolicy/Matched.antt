-- ===== src/Runtime/CachePolicy/Matched.antt =====
-- What is known of a request that may be answered from the cache.
use odenctl.Prelude.{
  ◌≤◌, ◌≡◌, ◌⊎◌, ◌∙◌, ◌++◌, Bool-cases, beq_refl, refl, sym, subst, inl, inr, String, true, false,
  ◌||◌, Option, some, List, [], ◌∷◌, length, filter, any, nat_eq, string_eq, ◌==◌, not, arith,
  Member, Member-filter, Member-filter_of, All-member, leb→le, le→leb, leb→gt, eq_of_beq,
}
use odenctl.Prelude.Sort.{sort, IsSorted, IsTotalPreorder, sort-IsSorted, Member-sort, sort-Member}
use odenctl.Prelude.Text.{
  Text, text_eq, codes, starts_with, starts_with-split, starts_with-append, append_slash,
}
use odenctl.Runtime.CachePolicy.{ResponseCacheRule, header_values}
use odenctl.Runtime.CachePolicy.Stored.{bind-some, if-some, or-false, not-false, some_injective}
use odenctl.Runtime.CachePolicy.Requests.{
  ResponseCacheRequest, Url, KeyParts, Match, bypasses, announces_body, is_below, applies, longer,
  first, rule_for, is_plain, key_parts, match_response_cache_request,
}

longer-order : IsTotalPreorder longer
longer-order = record {
  total =
      λ a b h. le→leb _ _ (omega (arith, leb→gt (length b.path_prefix) (length a.path_prefix) h));
  trans = λ a b c h k. le→leb _ _ (
      omega (
        arith,
        leb→le (length b.path_prefix) (length a.path_prefix) h,
        leb→le (length c.path_prefix) (length b.path_prefix) k,
      ));
}

first-Member :
    (rules : List ResponseCacheRule) (rule : ResponseCacheRule)
    → first rules ≡ some rule
    → Member rule rules
first-Member [] rule h = cc
first-Member (x ∷ xs) rule h = inl (cc (sym h))

first-least :
    (rules : List ResponseCacheRule) (rule other : ResponseCacheRule)
    → IsSorted longer rules
    → first rules ≡ some rule
    → Member other rules
    → length other.path_prefix ≤ length rule.path_prefix
first-least [] rule other s h m = cc
first-least (x ∷ xs) rule other s h m =
    let same : x ≡ rule = cc h in
    elim m [
      | inl e ↦ rw (e, same) (omega arith)
      | inr later ↦
          let before = All-member (λ y. longer x y ≡ true) xs s.0 later in
          let le = leb→le (length other.path_prefix) (length x.path_prefix) before in
          subst (λ (r : ResponseCacheRule). length other.path_prefix ≤ length r.path_prefix) same le
    ]

-- The path of the prefix, a path below it, or any path if the prefix is the root.
abbrev pub IsBelow : Text → Text → Type 0
IsBelow prefix path =
    (prefix ≡ b'/' ∷ []) ⊎ ((path ≡ prefix) ⊎ ((rest : Text) × (path ≡ prefix ++ (b'/' ∷ rest))))

-- A rule of the project for the host, and for the path.
pub record IsCovered (project_id : String) (url : Url) (rule : ResponseCacheRule) : Type 0 where
  pub owner : rule.project_id ≡ project_id
  pub same_host : rule.host ≡ url.host
  pub path : IsBelow rule.path_prefix url.pathname

is_below-IsBelow : (prefix path : Text) → is_below prefix path ≡ true → IsBelow prefix path
unfolding is_below
is_below-IsBelow prefix path h = elim (Bool-cases (prefix == b'/' ∷ [])) [
  | inl root ↦ inl (eq_of_beq prefix (b'/' ∷ []) root)
  | inr deep ↦ elim (Bool-cases (path == prefix)) [
    | inl same ↦ inr (inl (eq_of_beq path prefix same))
    | inr below ↦
        let (rest, e) = starts_with-split path (prefix ++ b'/' ∷ []) (ground arith) in
        inr (inr (rest, e ∙ append_slash prefix rest))
  ]
]

IsBelow-is_below : (prefix path : Text) → IsBelow prefix path → is_below prefix path ≡ true
unfolding is_below
IsBelow-is_below prefix path (inl root) = rw root refl
IsBelow-is_below prefix path (inr (inl same)) = rw (same, beq_refl prefix) (ground arith)
IsBelow-is_below prefix path (inr (inr (rest, e))) =
    let start : starts_with path (prefix ++ b'/' ∷ []) ≡ true =
      rw (e, ← append_slash prefix rest) (starts_with-append (prefix ++ b'/' ∷ []) rest) in
    rw start (ground arith)

applies-IsCovered :
    (project_id : String) (url : Url) (rule : ResponseCacheRule)
    → applies project_id url rule ≡ true
    → IsCovered project_id url rule
unfolding applies
applies-IsCovered project_id url rule h = record {
  owner = eq_of_beq rule.project_id project_id (ground arith);
  same_host = eq_of_beq rule.host url.host (ground arith);
  path = is_below-IsBelow rule.path_prefix url.pathname (ground arith);
}

IsCovered-applies :
    (project_id : String) (url : Url) (rule : ResponseCacheRule)
    → IsCovered project_id url rule
    → applies project_id url rule ≡ true
unfolding applies
IsCovered-applies project_id url rule h =
    rw
      (
        h.owner,
        h.same_host,
        beq_refl project_id,
        beq_refl url.host,
        IsBelow-is_below rule.path_prefix url.pathname h.path,
      )
      refl

-- The rule covers the URL for the project, and no rule with a longer prefix does.
pub record IsBest (rules : List ResponseCacheRule) (project_id : String) (url : Url)
    (rule : ResponseCacheRule) : Type 0 where
  pub listed : Member rule rules
  pub covered : IsCovered project_id url rule
  pub longest :
      (other : ResponseCacheRule)
      → Member other rules
      → IsCovered project_id url other
      → length other.path_prefix ≤ length rule.path_prefix

rule_for-IsBest :
    (rules : List ResponseCacheRule) (project_id : String) (url : Url) (rule : ResponseCacheRule)
    → rule_for rules project_id url ≡ some rule
    → IsBest rules project_id url rule
unfolding rule_for
rule_for-IsBest rules project_id url rule h =
    let test = applies project_id url in
    let chosen = filter test rules in
    let inside = Member-sort longer chosen rule (first-Member (sort longer chosen) rule h) in
    let (listed, applying) = Member-filter test rules rule inside in
    record {
      listed = listed;
      covered = applies-IsCovered project_id url rule applying;
      longest = λ other m a.
          first-least (sort longer chosen) rule other (sort-IsSorted longer longer-order chosen) h (
            sort-Member longer chosen other
              (Member-filter_of test rules other m (IsCovered-applies project_id url other a)));
    }

pub record IsMatched (parse : String → Option Url) (digest : KeyParts → String)
    (rules : List ResponseCacheRule) (input : ResponseCacheRequest) (match : Match) : Type 0 where
  pub project_id : String
  pub url : Url
  pub of_project : input.project_id ≡ some project_id
  pub reads : (input.method == "GET" || input.method == "HEAD") ≡ true
  pub empty_body : input.body_bytes ≡ 0
  pub unconditional : any bypasses input.headers ≡ false
  pub read_url : parse input.uri ≡ some url
  pub plain : is_plain url ≡ true
  pub best : IsBest rules project_id url match.rule
  pub keyed : match.key ≡ digest (key_parts project_id match.rule input)

pub match_response_cache_request-IsMatched :
    (parse : String → Option Url) (digest : KeyParts → String) (rules : List ResponseCacheRule)
    (input : ResponseCacheRequest) (match : Match)
    → match_response_cache_request parse digest rules input ≡ some match
    → IsMatched parse digest rules input match
unfolding match_response_cache_request
match_response_cache_request-IsMatched parse digest rules input match h =
    let (project_id, of_project, h1) = bind-some input.project_id _ match h in
    let (bad, h2) =
      if-some
        (project_id == ""
          || not (input.method == "GET" || input.method == "HEAD")
          || not (input.body_bytes == 0))
        _ match h1 in
    let (asks, h3) =
      if-some
        (any bypasses input.headers
          || announces_body (header_values input.headers (codes "content-length")))
        _ match h2 in
    let (url, read, h4) = bind-some (parse input.uri) _ match h3 in
    let (odd, h5) = if-some (not (is_plain url)) _ match h4 in
    let (rule, chosen, h6) = bind-some (rule_for rules project_id url) _ match h5 in
    let made : record { key = digest (key_parts project_id rule input); rule = rule } ≡ match =
      some_injective h6 in
    let (two, body) =
      or-false (project_id == "" || not (input.method == "GET" || input.method == "HEAD")) _ bad in
    let (named, method) = or-false (project_id == "") _ two in
    subst (IsMatched parse digest rules input) made (record {
      project_id = project_id;
      url = url;
      of_project = of_project;
      reads = not-false _ method;
      empty_body = eq_of_beq input.body_bytes 0 (not-false _ body);
      unconditional = (or-false (any bypasses input.headers) _ asks).0;
      read_url = read;
      plain = not-false _ odd;
      best = rule_for-IsBest rules project_id url rule chosen;
      keyed = refl;
    })
