-- ===== src/Runtime/CachePolicy/Requests.antt =====
-- Which requests may be answered from the cache, and under which key: `matchResponseCacheRequest`
-- of runtime/response-cache-policy.ts. The parser of URLs (`none` where it throws) and the digest of
-- the JSON text of the parts of a key are parameters.
use odenctl.Prelude.{
  ℕ, String, Bool, true, false, ◌&&◌, ◌||◌, Option, none, some, List, [], ◌∷◌, ◌++◌, length, filter,
  any, every, map, leb, nat_eq, string_eq, ◌==◌, not, if◌then◌else◌,
}
use odenctl.Prelude.Sort.{sort}
use odenctl.Prelude.Text.{Text, text_eq, codes, to_lower_case, starts_with}
use odenctl.Runtime.ResponseCache.{Header}
use odenctl.Runtime.CachePolicy.{ResponseCacheRule, is_one_of, header_values}

pub record ResponseCacheRequest : Type 0 where
  pub project_id : Option String
  pub deployment_id : String
  pub component_identity : String
  pub method : String
  pub uri : String
  pub headers : List Header
  pub body_bytes : ℕ

pub record Url : Type 0 where
  pub protocol : String
  pub host : String
  pub pathname : Text
  pub username : String
  pub password : String
  pub hash : String

-- the parts of a key, in the order of the source
pub record KeyParts : Type 0 where
  pub project_id : String
  pub deployment_id : String
  pub component_identity : String
  pub uri : String
  pub rule : ResponseCacheRule
  pub vary : List (List Text)
  pub forwarded : List (List Text)

abbrev pub bypass_headers : List Text
bypass_headers =
    codes "authorization"
    ∷ codes "proxy-authorization"
    ∷ codes "cookie"
    ∷ codes "range"
    ∷ codes "if-range"
    ∷ codes "if-match"
    ∷ codes "if-none-match"
    ∷ codes "if-modified-since"
    ∷ codes "if-unmodified-since"
    ∷ codes "cache-control"
    ∷ codes "pragma"
    ∷ codes "upgrade"
    ∷ codes "transfer-encoding"
    ∷ []

abbrev pub forwarding_headers : List Text
forwarding_headers =
    codes "host" ∷ codes "x-forwarded-host" ∷ codes "x-forwarded-proto" ∷ codes "forwarded" ∷ []

unfoldable pub bypasses : Header → Bool
unfolding to_lower_case
bypasses h = is_one_of bypass_headers (to_lower_case h.name)

-- more than one `content-length`, or one that is not zeros
unfoldable pub announces_body : List Text → Bool
announces_body [] = false
announces_body ([] ∷ []) = true
announces_body ((c ∷ cs) ∷ []) = not (every (λ d. d == b'0') (c ∷ cs))
announces_body (value ∷ next ∷ rest) = true

-- the path is that of the rule or below it
unfoldable pub is_below : Text → Text → Bool
unfolding starts_with
is_below prefix path =
    prefix == b'/' ∷ [] || path == prefix || starts_with path (prefix ++ b'/' ∷ [])

unfoldable pub applies : String → Url → ResponseCacheRule → Bool
unfolding is_below
applies project_id url rule =
    rule.project_id == project_id && rule.host == url.host && is_below rule.path_prefix url.pathname

-- the comparison of the sort gives at most 0
abbrev pub longer : ResponseCacheRule → ResponseCacheRule → Bool
longer a b = leb (length b.path_prefix) (length a.path_prefix)

abbrev pub first : List ResponseCacheRule → Option ResponseCacheRule
first [] = none
first (rule ∷ rules) = some rule

unfoldable pub rule_for : List ResponseCacheRule → String → Url → Option ResponseCacheRule
unfolding sort applies
rule_for rules project_id url = first (sort longer (filter (applies project_id url) rules))

-- a scheme and parts of the URL for which there is no caching
abbrev pub is_plain : Url → Bool
is_plain url =
    (url.protocol == "http:" || url.protocol == "https:")
    && url.username == ""
    && url.password == ""
    && url.hash == ""

unfoldable pub key_parts : String → ResponseCacheRule → ResponseCacheRequest → KeyParts
unfolding header_values
key_parts project_id rule input = record {
  project_id = project_id;
  deployment_id = input.deployment_id;
  component_identity = input.component_identity;
  uri = input.uri;
  rule = rule;
  vary = map (header_values input.headers) rule.vary_headers;
  forwarded = map (header_values input.headers) forwarding_headers;
}

pub record Match : Type 0 where
  pub key : String
  pub rule : ResponseCacheRule

module _ (parse : String → Option Url) (digest : KeyParts → String) where
  unfoldable pub match_response_cache_request :
      List ResponseCacheRule → ResponseCacheRequest → Option Match
  unfolding bypasses header_values announces_body rule_for key_parts
  match_response_cache_request rules input = elim input.project_id [
    | none ↦ none
    | some project_id ↦
        if project_id == ""
          || not (input.method == "GET" || input.method == "HEAD")
          || not (input.body_bytes == 0)
        then none
        else if any bypasses input.headers
            || announces_body (header_values input.headers (codes "content-length"))
        then none
        else elim (parse input.uri) [
          | none ↦ none
          | some url ↦ if not (is_plain url) then none else elim (rule_for rules project_id url) [
            | none ↦ none
            | some rule ↦
                some (record { key = digest (key_parts project_id rule input); rule = rule })
          ]
        ]
  ]
