-- ===== src/Runtime/CachePolicy/Shared.antt =====
-- Which requests one entry of the cache answers.
use odenctl.Prelude.{
  ◌≡◌, ◌∙◌, ap, sym, refl, inl, inr, String, Option, some, List, [], ◌∷◌, map, Member,
}
use odenctl.Prelude.Text.{Text, codes}
use odenctl.Runtime.CachePolicy.{ResponseCacheRule, header_values}
use odenctl.Runtime.CachePolicy.Requests.{
  ResponseCacheRequest, Url, KeyParts, Match, forwarding_headers, key_parts,
  match_response_cache_request,
}
use odenctl.Runtime.CachePolicy.Matched.{IsMatched, match_response_cache_request-IsMatched}

-- Two requests that one entry may answer: of one project, deployment, component and URI, with the
-- same values of the headers that the rule varies by and of those of forwarding.
pub record Shares (rule : ResponseCacheRule) (a b : ResponseCacheRequest) : Type 0 where
  pub project : a.project_id ≡ b.project_id
  pub deployment : a.deployment_id ≡ b.deployment_id
  pub component : a.component_identity ≡ b.component_identity
  pub address : a.uri ≡ b.uri
  pub varied :
      (name : Text)
      → Member name rule.vary_headers
      → header_values a.headers name ≡ header_values b.headers name
  pub hosts : header_values a.headers (codes "host") ≡ header_values b.headers (codes "host")
  pub forwarded_hosts :
      header_values a.headers (codes "x-forwarded-host")
      ≡ header_values b.headers (codes "x-forwarded-host")
  pub forwarded_protocols :
      header_values a.headers (codes "x-forwarded-proto")
      ≡ header_values b.headers (codes "x-forwarded-proto")
  pub forwarding :
      header_values a.headers (codes "forwarded") ≡ header_values b.headers (codes "forwarded")

-- lists with equal images have equal images of each element
map-at :
    {A : Type 0} (f g : Text → A) (xs : List Text) (x : Text)
    → map f xs ≡ map g xs
    → Member x xs
    → f x ≡ g x
map-at f g [] x h m = absurd m
map-at f g (y ∷ ys) x h (inl e) = rw e (cc h)
map-at f g (y ∷ ys) x h (inr m) = map-at f g ys x (cc h) m

key_parts-Shares :
    (p q : String) (rule other : ResponseCacheRule) (a b : ResponseCacheRequest)
    → a.project_id ≡ some p
    → b.project_id ≡ some q
    → key_parts p rule a ≡ key_parts q other b
    → (rule ≡ other) × Shares rule a b
unfolding key_parts
key_parts-Shares p q rule other a b of_a of_b h =
    let same : rule ≡ other = ap (λ k. k.rule) h in
    let vary : map (header_values a.headers) rule.vary_headers
        ≡ map (header_values b.headers) rule.vary_headers =
      ap (λ k. k.vary) h
      ∙ ap (λ (r : ResponseCacheRule). map (header_values b.headers) r.vary_headers) (sym same) in
    let forwards : (name : Text)
        → Member name forwarding_headers
        → header_values a.headers name ≡ header_values b.headers name =
      λ name m.
        map-at (header_values a.headers) (header_values b.headers) forwarding_headers name
          (ap (λ k. k.forwarded) h) m in
    (
      same,
      record {
        project = rw (of_a, of_b) (ap (λ k. some k.project_id) h);
        deployment = ap (λ k. k.deployment_id) h;
        component = ap (λ k. k.component_identity) h;
        address = ap (λ k. k.uri) h;
        varied = λ name m.
            map-at (header_values a.headers) (header_values b.headers) rule.vary_headers name vary
              m;
        hosts = forwards (codes "host") (inl refl);
        forwarded_hosts = forwards (codes "x-forwarded-host") (inr (inl refl));
        forwarded_protocols = forwards (codes "x-forwarded-proto") (inr (inr (inl refl)));
        forwarding = forwards (codes "forwarded") (inr (inr (inr (inl refl))));
      },
    )

-- If the digest tells apart the parts that two requests can have with the rules, and both are matched
-- with one key, they are of one project, deployment, component and URI, have the same values of every header that the rule varies
-- by and of the headers of forwarding, and were matched with the same rule. Each is a `GET` or `HEAD`
-- without a body and without a header that asks for something else than the cached response, and the
-- rule belongs to the project and the host of its plain http(s) URL, has its path or a path above it,
-- and no rule that does has a longer prefix.
pub match_response_cache_request-Shares :
    (parse : String → Option Url) (digest : KeyParts → String) (rules : List ResponseCacheRule)
    (a b : ResponseCacheRequest) (m n : Match)
    → ((p q : String) (r s : ResponseCacheRule)
        → a.project_id ≡ some p
        → b.project_id ≡ some q
        → Member r rules
        → Member s rules
        → digest (key_parts p r a) ≡ digest (key_parts q s b)
        → key_parts p r a ≡ key_parts q s b)
    → match_response_cache_request parse digest rules a ≡ some m
    → match_response_cache_request parse digest rules b ≡ some n
    → m.key ≡ n.key
    → (m.rule ≡ n.rule)
      × Shares m.rule a b
      × IsMatched parse digest rules a m
      × IsMatched parse digest rules b n
match_response_cache_request-Shares parse digest rules a b m n tells at_a at_b same =
    let of_a = match_response_cache_request-IsMatched parse digest rules a m at_a in
    let of_b = match_response_cache_request-IsMatched parse digest rules b n at_b in
    let parts =
      tells of_a.project_id of_b.project_id m.rule n.rule of_a.of_project of_b.of_project
        of_a.best.listed of_b.best.listed (sym of_a.keyed ∙ same ∙ of_b.keyed) in
    let (rule, shared) =
      key_parts-Shares of_a.project_id of_b.project_id m.rule n.rule a b of_a.of_project
        of_b.of_project parts in
    (rule, shared, of_a, of_b)
