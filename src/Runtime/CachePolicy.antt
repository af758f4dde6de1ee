-- ===== src/Runtime/CachePolicy.antt =====
-- The headers that runtime/response-cache-policy.ts reads, and the directives of `cache-control`.
use odenctl.Prelude.{
  ℕ, zero, suc, ◌+◌, ◌-◌, ◌*◌, max, min, String, Bool, true, false, ◌&&◌, ◌||◌, Option, none, some,
  List, [], ◌∷◌, ◌++◌, length, filter, find, any, every, map, ltb, leb, nat_eq, ◌==◌, not,
  if◌then◌else◌, is_some, or_else,
}
use odenctl.Prelude.Text.{
  Text, text_eq, codes, is_space, trim, trim_start, to_lower_case, lower_code, starts_with,
}
use odenctl.Runtime.ResponseCache.{Header}
pub mod Entries
pub mod Stored
pub mod Requests
pub mod Matched
pub mod Shared

pub record ResponseCacheRule : Type 0 where
  pub project_id : String
  pub host : String
  pub path_prefix : Text
  pub max_ttl_seconds : ℕ
  pub vary_headers : List Text

abbrev pub is_one_of : List Text → Text → Bool
is_one_of names name = any (λ n. n == name) names

unfoldable pub header_values : List Header → Text → List Text
unfolding to_lower_case
header_values headers name =
    map (λ (h : Header). h.value) (filter (λ (h : Header). to_lower_case h.name == name) headers)

abbrev pub is_digit : ℕ → Bool
is_digit c = leb b'0' c && leb c b'9'

-- the number that decimal digits after `n` spell
unfoldable pub number_from : ℕ → Text → ℕ
number_from n [] = n
number_from n (c ∷ cs) = number_from (10 * n + (c - b'0')) cs

-- the greatest number of seconds is that of MAX_SAFE_INTEGER / 1000
unfoldable pub seconds : Text → Option ℕ
unfolding number_from
seconds [] = none
seconds (c ∷ cs) =
    let value = number_from 0 (c ∷ cs) in
    if every is_digit (c ∷ cs) && leb value 9007199254740 then some value else none

-- `values.join(",")`
unfoldable pub join : List Text → Text
join [] = []
join (t ∷ []) = t
join (t ∷ u ∷ ts) = t ++ b',' ∷ join (u ∷ ts)

-- one code unit more in the first part
abbrev pub cons_first : ℕ → List Text → List Text
cons_first c [] = (c ∷ []) ∷ []
cons_first c (part ∷ parts) = (c ∷ part) ∷ parts

-- `text.split(",")`
unfoldable pub split : Text → List Text
split [] = [] ∷ []
split (c ∷ cs) = let parts = split cs in if c == b',' then [] ∷ parts else cons_first c parts

pub record Directive : Type 0 where
  pub name : Text
  pub value : Option Text

abbrev pub is_name_char : ℕ → Bool
is_name_char c = (leb b'a' (lower_code c) && leb (lower_code c) b'z') || c == b'-'

unfoldable pub take_while : (ℕ → Bool) → Text → Text
take_while p [] = []
take_while p (c ∷ cs) = let rest = take_while p cs in if p c then c ∷ rest else []

unfoldable pub drop_while : (ℕ → Bool) → Text → Text
drop_while p [] = []
drop_while p (c ∷ cs) = let rest = drop_while p cs in if p c then rest else c ∷ cs

-- all but the last code unit, if that is a quote
unfoldable pub unquote : Text → Option Text
unquote [] = none
unquote (c ∷ []) = if c == b'"' then some [] else none
unquote (c ∷ d ∷ cs) = elim (unquote (d ∷ cs)) [ none ↦ none | some rest ↦ some (c ∷ rest) ]

-- `\d+` without quotes
unfoldable pub digits : Text → Option Text
digits [] = none
digits (c ∷ cs) = if every is_digit (c ∷ cs) then some (c ∷ cs) else none

-- `\d+|"\d+"`, without the quotes
unfoldable pub directive_value : Text → Option Text
unfolding digits unquote
directive_value [] = none
directive_value (c ∷ cs) =
    if c == b'"'
    then (elim (unquote cs) [ none ↦ none | some inner ↦ digits inner ])
    else digits (c ∷ cs)

-- `(?:\s*=\s*value)?`, at the end of the trimmed text
unfoldable pub directive_rest : Text → Text → Option Directive
unfolding directive_value trim_start
directive_rest name [] = some (record { name = name; value = none })
directive_rest name (c ∷ cs) =
    if c == b'='
    then (elim (directive_value (trim_start cs)) [
      | none ↦ none
      | some value ↦ some (record { name = name; value = some value })
    ])
    else none

-- the regular expression of a directive, with the name in lower case
unfoldable pub parse_directive : Text → Option Directive
unfolding trim trim_start take_while drop_while to_lower_case directive_rest
parse_directive part =
    let text = trim part in
    let name = take_while is_name_char text in
    if name == []
    then none
    else directive_rest (to_lower_case name) (trim_start (drop_while is_name_char text))

abbrev pub has_directive : Text → List Directive → Bool
has_directive name = any (λ (d : Directive). d.name == name)

-- the loop over the parts, with the directives so far: a part that does not parse, or a second
-- directive of a name, gives up
unfoldable pub parse_directives : List Directive → List Text → Option (List Directive)
unfolding parse_directive
parse_directives seen [] = some seen
parse_directives seen (part ∷ parts) = elim (parse_directive part) [
  | none ↦ none
  | some d ↦ elim (has_directive d.name seen) [
    | true ↦ none
    | false ↦ parse_directives (seen ++ d ∷ []) parts
  ]
]

-- `directives.get(name)`, where `undefined` stands for no value too
unfoldable pub directive_of : Text → List Directive → Option Text
directive_of name directives = elim (find (λ (d : Directive). d.name == name) directives) [
  | none ↦ none
  | some d ↦ d.value
]

abbrev pub refusing_directives : List Text
refusing_directives =
    codes "no-store"
    ∷ codes "private"
    ∷ codes "no-cache"
    ∷ codes "stale-while-revalidate"
    ∷ codes "stale-if-error"
    ∷ []

-- `directives.has(name) && (value === undefined || seconds(value) === undefined)`
unfoldable pub has_bad_seconds : List Directive → Text → Bool
unfolding directive_of seconds
has_bad_seconds directives name =
    has_directive name directives && (elim (directive_of name directives) [
      | none ↦ true
      | some value ↦ not (is_some (seconds value))
    ])

-- the lifetime in seconds that the directives of a shared cache allow, which is not 0
unfoldable pub ttl_of : List Directive → Option ℕ
unfolding directive_of seconds has_bad_seconds
ttl_of directives =
    let shared = has_directive (codes "s-maxage") directives in
    let value = directive_of (if shared then codes "s-maxage" else codes "max-age") directives in
    if any (λ name. has_directive name directives) refusing_directives
    then none
    else if is_some (directive_of (codes "public") directives)
        || any (has_bad_seconds directives) (codes "max-age" ∷ codes "s-maxage" ∷ [])
    then none
    else if not shared && not (has_directive (codes "public") directives)
    then none
    else (elim value [
      | none ↦ none
      | some text ↦ elim (seconds text) [
        | none ↦ none
        | some zero ↦ none
        | some (suc n) ↦ some (suc n)
      ]
    ])
