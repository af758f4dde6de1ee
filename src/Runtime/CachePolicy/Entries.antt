-- ===== src/Runtime/CachePolicy/Entries.antt =====
-- What may be stored of a response: `prepareResponseCacheEntry` of
-- runtime/response-cache-policy.ts. The parameters are the tests of header names and values of
-- node:http, `Date.parse` (`none` for NaN; times before 1970 are left out) and the texts of a date
-- and of a number. A time is its number of milliseconds.
use odenctl.Prelude.{
  ℕ, ◌+◌, ◌-◌, ◌*◌, max, min, Bool, true, false, ◌&&◌, ◌||◌, Option, none, some, List, [], ◌∷◌,
  ◌++◌, length, filter, any, every, map, leb, nat_eq, ◌==◌, not, if◌then◌else◌,
}
use odenctl.Prelude.Text.{Text, text_eq, codes, trim, to_lower_case, starts_with}
use odenctl.Runtime.ResponseCache.{Header, Prepared}
use odenctl.Runtime.CachePolicy.{
  ResponseCacheRule, is_one_of, header_values, join, split, parse_directives, ttl_of, seconds,
}

pub record InvokeComponentResponse : Type 0 where
  pub status : ℕ
  pub headers : List Header
  pub body : List ℕ

abbrev pub hop_headers : List Text
hop_headers =
    codes "connection"
    ∷ codes "keep-alive"
    ∷ codes "proxy-authenticate"
    ∷ codes "proxy-authorization"
    ∷ codes "te"
    ∷ codes "trailer"
    ∷ codes "transfer-encoding"
    ∷ codes "upgrade"
    ∷ []

-- headers that keep a response out of the cache
abbrev pub refusing_headers : List Text
refusing_headers =
    codes "set-cookie" ∷ codes "content-range" ∷ codes "connection" ∷ codes "trailer" ∷ []

-- headers that are not saved as they came
abbrev pub dropped_headers : List Text
dropped_headers =
    codes "age"
    ∷ codes "date"
    ∷ codes "content-length"
    ∷ codes "traceparent"
    ∷ codes "tracestate"
    ∷ codes "server-timing"
    ∷ []

unfoldable pub is_saved : Header → Bool
unfolding starts_with
is_saved h =
    not (is_one_of hop_headers h.name)
    && not (starts_with h.name (codes "x-oden-"))
    && not (is_one_of dropped_headers h.name)

unfoldable pub lower_header : Header → Header
unfolding to_lower_case
lower_header h = record h { name = to_lower_case h.name }

-- the names of `vary` that the rule does not know
unfoldable pub varies_beyond : List Text → List Header → Bool
unfolding header_values join split trim to_lower_case
varies_beyond known headers =
    let vary = join (header_values headers (codes "vary")) in
    if vary == []
    then false
    else any (λ name. not (is_one_of known (to_lower_case (trim name)))) (split vary)

-- a `content-length` that is missing, or one that is the length of the body
unfoldable pub length_agrees : List Text → ℕ → Bool
unfolding seconds
length_agrees [] n = true
length_agrees (value ∷ []) n = elim (seconds value) [ none ↦ false | some m ↦ m == n ]
length_agrees (value ∷ next ∷ rest) n = false

-- no value is `fallback`, one is read, two are refused
unfoldable pub single : (Text → Option ℕ) → ℕ → List Text → Option ℕ
single read fallback [] = some fallback
single read fallback (value ∷ []) = read value
single read fallback (value ∷ next ∷ rest) = none

-- what the policy needs to know of the outside
pub record Platform : Type 0 where
  pub is_valid_header : Header → Bool
  pub date_parse : Text → Option ℕ
  pub utc_text : ℕ → Text
  pub number_text : ℕ → Text

-- the age of the response when it came in
abbrev pub initial_age : ℕ → ℕ → ℕ → ℕ → ℕ
initial_age request_time response_time date age =
    max (response_time - date) (age * 1000 + (response_time - request_time))

module _ (platform : Platform) where
  abbrev pub saved_headers : List Header → ℕ → ℕ → List Header
  saved_headers headers date body_bytes =
      filter is_saved headers
      ++ record { name = codes "date"; value = platform.utc_text date }
        ∷ record { name = codes "content-length"; value = platform.number_text body_bytes }
        ∷ []

  -- once the headers have passed: the entry, if the response is still fresh
  unfoldable pub fresh_entry :
      InvokeComponentResponse → List Header → ℕ → ℕ → ℕ → ℕ → Option Prepared
  fresh_entry response headers lifetime_ms date initial_age_ms response_time =
      if leb lifetime_ms initial_age_ms
      then none
      else some (record {
        status = 200;
        headers = saved_headers headers date (length response.body);
        body = response.body;
        initial_age_ms = initial_age_ms;
        expires_at = response_time + (lifetime_ms - initial_age_ms);
        stored_at = response_time;
      })

  unfoldable pub prepare_response_cache_entry :
      InvokeComponentResponse → ResponseCacheRule → ℕ → ℕ → Option Prepared
  unfolding is_saved lower_header header_values join split parse_directives ttl_of varies_beyond
      length_agrees single seconds fresh_entry
  prepare_response_cache_entry response rule request_time response_time =
      let headers = map lower_header response.headers in
      if not (response.status == 200) || not (every platform.is_valid_header response.headers)
      then none
      else if any (λ (h : Header). is_one_of refusing_headers h.name) headers
      then none
      else elim (parse_directives []
          (split (join (header_values headers (codes "cache-control"))))) [
            | none ↦ none
            | some directives ↦ elim (ttl_of directives) [
              | none ↦ none
              | some ttl ↦
                  if varies_beyond rule.vary_headers headers
                    || not (
                        length_agrees (header_values headers (codes "content-length"))
                          (length response.body))
                  then none
                  else elim (single platform.date_parse response_time
                      (header_values headers (codes "date"))) [
                        | none ↦ none
                        | some date ↦
                            elim (single seconds 0 (header_values headers (codes "age"))) [
                              | none ↦ none
                              | some age ↦
                                  fresh_entry response headers (min ttl rule.max_ttl_seconds * 1000)
                                    date (initial_age request_time response_time date age)
                                    response_time
                            ]
                      ]
            ]
          ]
