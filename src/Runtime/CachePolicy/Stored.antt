-- ===== src/Runtime/CachePolicy/Stored.antt =====
-- What is known of a response that may be stored, and of the age at which it is served.
use odenctl.Prelude.{
  ℕ, ◌+◌, ◌*◌, ◌≤◌, ◌<◌, min, ◌≡◌, refl, subst, Bool, true, false, ◌||◌, Option, none, some, List,
  [], any, every, map, leb, nat_eq, ◌==◌, not, arith, if◌then◌else◌, eq_of_beq, leb→gt,
}
use odenctl.Prelude.Text.{text_eq, codes}
use odenctl.Runtime.ResponseCache.{Header, Prepared, Entry, serve}
use odenctl.Runtime.CachePolicy.{
  ResponseCacheRule, Directive, is_one_of, header_values, join, split, parse_directives, ttl_of,
  seconds, has_directive, refusing_directives,
}
use odenctl.Runtime.CachePolicy.Entries.{
  InvokeComponentResponse, Platform, lower_header, refusing_headers, varies_beyond, single,
  initial_age, fresh_entry, prepare_response_cache_entry,
}

module _ {ℓ κ} {A : Type ℓ} {B : Type κ} where
  pub bind-some :
      (o : Option A) (f : A → Option B) (b : B)
      → (elim o [ none ↦ none | some a ↦ f a ]) ≡ some b
      → (a : A) × (o ≡ some a) × (f a ≡ some b)
  bind-some none f b h = cc
  bind-some (some a) f b h = (a, refl, h)

module _ {ℓ} {A : Type ℓ} where
  pub if-some :
      (b : Bool) (o : Option A) (a : A)
      → (if b then none else o) ≡ some a
      → (b ≡ false) × (o ≡ some a)
  if-some true o a h = cc
  if-some false o a h = (refl, h)

pub or-false : (a b : Bool) → (a || b) ≡ false → (a ≡ false) × (b ≡ false)
or-false true b h = cc
or-false false b h = (refl, h)

pub not-false : (b : Bool) → not b ≡ false → b ≡ true
not-false true h = refl
not-false false h = cc

-- The lower-case headers of the response, and the directives they hold.
abbrev pub directives_in : InvokeComponentResponse → Option (List Directive)
directives_in response =
    parse_directives []
      (split (join (header_values (map lower_header response.headers) (codes "cache-control"))))

-- A response that may be stored, and the times of its entry.
pub record IsStorable (response : InvokeComponentResponse) (rule : ResponseCacheRule)
    (response_time : ℕ) (p : Prepared) : Type 0 where
  pub directives : List Directive
  pub ttl : ℕ
  pub succeeded : response.status ≡ 200
  pub no_cookie :
      any (λ (h : Header). is_one_of refusing_headers h.name) (map lower_header response.headers)
      ≡ false
  pub parsed : directives_in response ≡ some directives
  pub public : any (λ name. has_directive name directives) refusing_directives ≡ false
  pub lasting : ttl_of directives ≡ some ttl
  pub known_vary : varies_beyond rule.vary_headers (map lower_header response.headers) ≡ false
  pub stored_now : p.stored_at ≡ response_time
  pub fresh : p.initial_age_ms < min ttl rule.max_ttl_seconds * 1000
  pub until : p.expires_at + p.initial_age_ms ≡ response_time + min ttl rule.max_ttl_seconds * 1000
  pub same_body : p.body ≡ response.body

ttl_of-public :
    (directives : List Directive) (ttl : ℕ)
    → ttl_of directives ≡ some ttl
    → any (λ name. has_directive name directives) refusing_directives ≡ false
unfolding ttl_of
ttl_of-public directives ttl h =
    (if-some (any (λ name. has_directive name directives) refusing_directives) _ ttl h).0

pub some_injective {ℓ} : {A : Type ℓ} {a b : A} → some a ≡ some b → a ≡ b
some_injective h = cc

module _ (platform : Platform) where
  -- the entry has the times and the body
  fresh_entry-times :
      (response : InvokeComponentResponse) (headers : List Header)
      (lifetime_ms date age response_time : ℕ) (p : Prepared)
      → fresh_entry platform response headers lifetime_ms date age response_time ≡ some p
      → (p.stored_at ≡ response_time)
        × (p.initial_age_ms < lifetime_ms)
        × (p.expires_at + p.initial_age_ms ≡ response_time + lifetime_ms)
        × (p.body ≡ response.body)
  unfolding fresh_entry
  fresh_entry-times response headers lifetime_ms date age response_time p h =
      let (young, e) = if-some (leb lifetime_ms age) _ p h in
      let below = leb→gt lifetime_ms age young in
      let same = some_injective e in
      subst
        (λ (q : Prepared).
          (q.stored_at ≡ response_time)
          × (q.initial_age_ms < lifetime_ms)
          × (q.expires_at + q.initial_age_ms ≡ response_time + lifetime_ms)
          × (q.body ≡ response.body))
        same (refl, below, omega arith, refl)

  -- What may be stored of a response is its whole body, and then the response has status 200, no
  -- `set-cookie`, `content-range`, `connection` or `trailer` header, a `cache-control` that parses
  -- without a repeated directive and has none of `no-store`, `private`, `no-cache`,
  -- `stale-while-revalidate` and `stale-if-error`, a lifetime for shared caches, and varies only by
  -- headers of the rule. The entry is younger than the lesser of that lifetime and the limit of the
  -- rule, and expires when it has reached it.
  pub prepare_response_cache_entry-IsStorable :
      (response : InvokeComponentResponse) (rule : ResponseCacheRule)
      (request_time response_time : ℕ) (p : Prepared)
      → prepare_response_cache_entry platform response rule request_time response_time ≡ some p
      → IsStorable response rule response_time p
  unfolding prepare_response_cache_entry
  prepare_response_cache_entry-IsStorable response rule request_time response_time p h =
      let headers = map lower_header response.headers in
      let (bad, h1) =
        if-some
          (not (response.status == 200) || not (every platform.is_valid_header response.headers)) _
          p h in
      let (cookie, h2) =
        if-some (any (λ (x : Header). is_one_of refusing_headers x.name) headers) _ p h1 in
      let (directives, parsed, h3) = bind-some (directives_in response) _ p h2 in
      let (ttl, lasting, h4) = bind-some (ttl_of directives) _ p h3 in
      let (vary, h5) = if-some (varies_beyond rule.vary_headers headers || _) _ p h4 in
      let (date, at, h6) =
        bind-some (single platform.date_parse response_time (header_values headers (codes "date")))
          _ p h5 in
      let (age, old, h7) =
        bind-some (single seconds 0 (header_values headers (codes "age"))) _ p h6 in
      let (stored, fresh, until, body) =
        fresh_entry-times response headers (min ttl rule.max_ttl_seconds * 1000) date
          (initial_age request_time response_time date age) response_time p h7 in
      record {
        directives = directives;
        ttl = ttl;
        succeeded = eq_of_beq response.status 200 (not-false _ (or-false _ _ bad).0);
        no_cookie = cookie;
        parsed = parsed;
        public = ttl_of-public directives ttl lasting;
        lasting = lasting;
        known_vary = (or-false _ _ vary).0;
        stored_now = stored;
        fresh = fresh;
        until = until;
        same_body = body;
      }

  -- An entry for a stored response, served at any time from its storing to before its expiry, gives
  -- an age in seconds below the limit of the rule and below the lifetime that the response allows to
  -- shared caches.
  pub serve-age_below :
      (response : InvokeComponentResponse) (rule : ResponseCacheRule)
      (request_time response_time : ℕ) (entry : Entry) (is_head : Bool) (time : ℕ)
      → prepare_response_cache_entry platform response rule request_time response_time
        ≡ some entry.content
      → response_time ≤ time
      → leb entry.content.expires_at time ≡ false
      → ((serve entry is_head time).age < rule.max_ttl_seconds)
        × ((ttl : ℕ) × (directives : List Directive) × (directives_in response ≡ some directives)
            × (ttl_of directives ≡ some ttl)
            × ((serve entry is_head time).age < ttl))
  serve-age_below response rule request_time response_time entry is_head time h later alive =
      let s =
        prepare_response_cache_entry-IsStorable response rule request_time response_time
          entry.content h in
      let below = leb→gt entry.content.expires_at time alive in
      (
        omega (arith, s.fresh, s.until, s.stored_now),
        (s.ttl, s.directives, s.parsed, s.lasting, omega (arith, s.fresh, s.until, s.stored_now)),
      )
