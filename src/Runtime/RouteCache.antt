-- ===== src/Runtime/RouteCache.antt =====
-- The route cache of runtime/supervisor.ts (`createRouteCache` and its helpers): the routes of a
-- snapshot in order of precedence, and the first of them that matches a request.
-- `localeCompare` of the host names is a parameter: `collates a b` is `a.localeCompare(b) <= 0`.
use odenctl.Prelude.{
  ℕ, Bool, true, false, ◌&&◌, ◌||◌, Option, List, [], ◌∷◌, ◌++◌, length, find, leb, nat_eq, ◌==◌,
  if◌then◌else◌, not,
}
use odenctl.Prelude.Sort.{sort}
use odenctl.Prelude.Text.{Text, text_eq, starts_with, ends_with, trim, to_lower_case}
use odenctl.Contracts.{RouteSnapshotEntry, RouteSnapshot}
pub mod Match

pub record RouteMatchInput : Type 0 where
  pub host : Text
  pub path : Text

abbrev pub is_digit : ℕ → Bool
is_digit c = leb b'0' c && leb c b'9'

all_digits : Text → Bool
all_digits [] = true
all_digits (c ∷ cs) = is_digit c && all_digits cs

-- `/^\d+$/` on what follows the colon
pub is_port : Text → Bool
unfolding all_digits
is_port [] = false
is_port (c ∷ cs) = is_digit c && all_digits cs

-- `.replace(/:\d+$/, "")`
pub strip_port : Text → Text
unfolding is_port
strip_port [] = []
strip_port (c ∷ cs) = let rest = strip_port cs in if c == b':' && is_port cs then [] else c ∷ rest

unfoldable pub normalize_host : Text → Text
unfolding trim to_lower_case strip_port
normalize_host host = strip_port (to_lower_case (trim host))

unfoldable pub normalize_path : Text → Text
unfolding starts_with
normalize_path [] = b'/' ∷ []
normalize_path path = if not (starts_with path (b'/' ∷ [])) then b'/' ∷ path else path

unfoldable pub path_prefix_matches : Text → Text → Bool
unfolding starts_with ends_with
path_prefix_matches path prefix =
    if prefix == b'/' ∷ []
    then true
    else if path == prefix
    then true
    else starts_with path (if ends_with prefix b'/' then prefix else prefix ++ b'/' ∷ [])

module _ (collates : Text → Text → Bool) where
  -- `routePrecedence(left, right) <= 0`
  unfoldable pub route_precedence : RouteSnapshotEntry → RouteSnapshotEntry → Bool
  route_precedence left right =
      if not (collates right.host left.host)
      then true
      else if not (collates left.host right.host)
      then false
      else leb (length right.path_prefix) (length left.path_prefix)

  -- `createRouteCache(snapshot).entries()`
  unfoldable pub entries : RouteSnapshot → List RouteSnapshotEntry
  unfolding route_precedence sort
  entries snapshot = sort route_precedence snapshot.routes

  -- `createRouteCache(snapshot).match(input)`
  unfoldable pub match_route : RouteSnapshot → RouteMatchInput → Option RouteSnapshotEntry
  unfolding entries normalize_host normalize_path path_prefix_matches
  match_route snapshot input =
      let host = normalize_host input.host in
      let path = normalize_path input.path in
      find (λ route. route.host == host && path_prefix_matches path route.path_prefix)
        (entries snapshot)
