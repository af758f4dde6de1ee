-- ===== src/Tests/Policy.antt =====
-- A response is prepared for the cache and served; a request is matched.
use odenctl.Prelude.{
  inl, inr, Member, nat_eq, ◌==◌, if◌then◌else◌, ℕ, ◌<◌, ◌≡◌, refl, String, true, false, Option,
  none, some, List, [], ◌∷◌, arith, string_eq,
}
use odenctl.Prelude.Text.{codes}
use odenctl.Runtime.ResponseCache.{Prepared, Entry, serve}
use odenctl.Runtime.CachePolicy.{ResponseCacheRule, Directive, parse_directive, ttl_of}
use odenctl.Runtime.CachePolicy.Entries.{
  InvokeComponentResponse, Platform, prepare_response_cache_entry,
}
use odenctl.Runtime.CachePolicy.Stored.{some_injective, directives_in, serve-age_below}
use odenctl.Runtime.CachePolicy.Requests.{
  ResponseCacheRequest, Url, KeyParts, key_parts, match_response_cache_request,
}
use odenctl.Runtime.CachePolicy.Matched.{IsMatched}
use odenctl.Runtime.CachePolicy.Shared.{Shares, match_response_cache_request-Shares}

abbrev platform : Platform
platform = record {
  is_valid_header = λ h. true;
  date_parse = λ text. none;
  utc_text = λ n. codes "now";
  number_text = λ n. codes "2";
}

abbrev rule : ResponseCacheRule
rule = record {
  project_id = "p";
  host = "a";
  path_prefix = codes "/img";
  max_ttl_seconds = 60;
  vary_headers = codes "accept" ∷ [];
}

abbrev wider_rule : ResponseCacheRule
wider_rule = record rule { path_prefix = codes "/"; max_ttl_seconds = 5 }

abbrev response : InvokeComponentResponse
response = record {
  status = 200;
  headers =
      record {
        name = codes "Cache-Control";
        value = codes "Public, max-age = \"90\" , s-maxage=70";
      }
      ∷ record { name = codes "Vary"; value = codes "Accept" }
      ∷ record { name = codes "Te"; value = codes "x" }
      ∷ record { name = codes "Age"; value = codes "7" }
      ∷ [];
  body = 1 ∷ 2 ∷ [];
}

directive-parses :
    parse_directive (codes " Max-Age = \"90\"")
    ≡ some (record { name = codes "max-age"; value = some (codes "90") })
unfolding parse_directive
directive-parses = refl

directive_refused : parse_directive (codes "max-age=9 0") ≡ none
unfolding parse_directive
directive_refused = refl

-- loaded from time 1000 to time 3000
abbrev prepared : Prepared
prepared = record {
  status = 200;
  headers =
      record {
        name = codes "cache-control";
        value = codes "Public, max-age = \"90\" , s-maxage=70";
      }
      ∷ record { name = codes "vary"; value = codes "Accept" }
      ∷ record { name = codes "date"; value = codes "now" }
      ∷ record { name = codes "content-length"; value = codes "2" }
      ∷ [];
  body = 1 ∷ 2 ∷ [];
  initial_age_ms = 9000;
  expires_at = 54000;
  stored_at = 3000;
}

prepared-ok : prepare_response_cache_entry platform response rule 1000 3000 ≡ some prepared
unfolding prepare_response_cache_entry
prepared-ok = refl

abbrev stored : Entry
stored = record {
  key = "k";
  project_id = some "p";
  deployment_id = "d";
  size = 100;
  content = prepared;
}

serve-age_below_example :
    ((serve stored false 53999).age < 60)
    × ((ttl : ℕ) × (directives : List Directive) × (directives_in response ≡ some directives)
        × (ttl_of directives ≡ some ttl)
        × ((serve stored false 53999).age < ttl))
serve-age_below_example =
    serve-age_below platform response rule 1000 3000 stored false 53999 prepared-ok (omega arith)
      refl

abbrev url : Url
url = record {
  protocol = "https:";
  host = "a";
  pathname = codes "/img/x";
  username = "";
  password = "";
  hash = "";
}

abbrev request : ResponseCacheRequest
request = record {
  project_id = some "p";
  deployment_id = "d";
  component_identity = "c";
  method = "GET";
  uri = "https://a/img/x";
  headers = record { name = codes "Accept"; value = codes "image/png" } ∷ [];
  body_bytes = 0;
}

abbrev parse : String → Option Url
parse uri = some url

abbrev digest : KeyParts → String
digest parts = if parts.rule.max_ttl_seconds == 60 then "narrow" else "wide"

abbrev rules : List ResponseCacheRule
rules = wider_rule ∷ rule ∷ []

-- the same request with a header that the rule does not vary by
abbrev traced : ResponseCacheRequest
traced = record request {
  headers = record { name = codes "X-Trace"; value = codes "1" } ∷ request.headers;
}

matched :
    match_response_cache_request parse digest rules request
    ≡ some (record { key = "narrow"; rule = rule })
unfolding match_response_cache_request
matched = refl

traced-matched :
    match_response_cache_request parse digest rules traced
    ≡ some (record { key = "narrow"; rule = rule })
unfolding match_response_cache_request
traced-matched = refl

tells :
    (p q : String) (r s : ResponseCacheRule)
    → request.project_id ≡ some p
    → traced.project_id ≡ some q
    → Member r rules
    → Member s rules
    → digest (key_parts p r request) ≡ digest (key_parts q s traced)
    → key_parts p r request ≡ key_parts q s traced
unfolding key_parts
tells p q r s of_a of_b (inl e) (inl f) same =
    rw (← some_injective of_a, ← some_injective of_b, e, f) refl
tells p q r s of_a of_b (inl e) (inr (inl f)) same = absurd (cc (rw (e, f, digest) at same))
tells p q r s of_a of_b (inr (inl e)) (inl f) same = absurd (cc (rw (e, f, digest) at same))
tells p q r s of_a of_b (inr (inl e)) (inr (inl f)) same =
    rw (← some_injective of_a, ← some_injective of_b, e, f) refl
tells p q r s of_a of_b (inr (inr e)) n same = absurd e
tells p q r s of_a of_b (inl e) (inr (inr f)) same = absurd f
tells p q r s of_a of_b (inr (inl e)) (inr (inr f)) same = absurd f

match_response_cache_request-Shares_example :
    (rule ≡ rule)
    × Shares rule request traced
    × IsMatched parse digest rules request (record { key = "narrow"; rule = rule })
    × IsMatched parse digest rules traced (record { key = "narrow"; rule = rule })
match_response_cache_request-Shares_example =
    match_response_cache_request-Shares parse digest rules request traced
      (record { key = "narrow"; rule = rule }) (record { key = "narrow"; rule = rule }) tells
      matched traced-matched refl
