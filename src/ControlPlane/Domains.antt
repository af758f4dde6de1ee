-- ===== src/ControlPlane/Domains.antt =====
-- Custom domains: createCustomDomain, deleteCustomDomain, verifyCustomDomainOwnership,
-- requestCustomDomainTlsProvisioning and completeCustomDomainTlsProvisioning of
-- control-plane/service.ts over the table of control-plane/repository.ts. The clock, a new id and a
-- new token are arguments; failures of the database and audit events are left out. An argument has
-- the type that its interface gives, but for the TXT records, of which any value may be no text.
use odenctl.Prelude.{
  ℕ, String, Bool, true, false, ◌&&◌, ◌||◌, Option, none, some, List, [], ◌∷◌, ◌++◌, length, filter,
  find, any, map, ltb, leb, string_eq, nat_eq, ◌==◌, not, if◌then◌else◌,
}
use odenctl.Prelude.Text.{Text, text_eq, codes, trim}
use odenctl.ControlPlane.Errors.{
  validation, not_found, conflict, Result, ok, err, ◌>>=◌, ◌>>◌, guard, require,
}
use odenctl.ControlPlane.Routes.{RoutePointer, normalize_host}
use odenctl.ControlPlane.Routes
pub mod Rows
pub mod Runs
pub mod Ownership
pub mod Unverified

pub data CustomDomainStatus : Type 0 where
  pending_verification verified tls_pending active tls_failed : CustomDomainStatus

pub data CustomDomainTlsStatus : Type 0 where
  no_tls pending provisioned failed : CustomDomainTlsStatus

pub record CustomDomain : Type 0 where
  pub id : String
  pub project_id : String
  pub host : Text
  pub status : CustomDomainStatus
  pub verification_token : Text
  pub verification_record_name : Text
  pub verification_record_value : Text
  pub tls_status : CustomDomainTlsStatus
  pub tls_provider : Option Text
  pub tls_request_id : Option Text
  pub tls_error : Option Text
  pub created_at : String
  pub updated_at : String
  pub verified_at : Option String
  pub tls_provisioned_at : Option String

pub record DomainRepository : Type 0 where
  pub projects : List String
  pub custom_domains : List CustomDomain
  pub routes : List RoutePointer

abbrev pub is_active : CustomDomainStatus → Bool
is_active active = true
is_active _ = false

-- what `enforceRouteCustomDomain` reads of a domain
abbrev pub domain_view : CustomDomain → Routes.CustomDomain
domain_view d = record { host = d.host; project_id = d.project_id; is_active = is_active d.status }

unfoldable pub verification_record_name : Text → Text
verification_record_name host = codes "_odenctl-challenge." ++ host

unfoldable pub verification_record_value : Text → Text
verification_record_value token = codes "odenctl-domain-verification=" ++ token

unfoldable pub require_domain_project : DomainRepository → String → Result (Unit {0})
require_domain_project r id = guard (any (λ p. p == id) r.projects) not_found

unfoldable pub get_custom_domain : DomainRepository → String → Option CustomDomain
get_custom_domain r id = find (λ d. d.id == id) r.custom_domains

unfoldable pub require_custom_domain : DomainRepository → String → Result CustomDomain
unfolding get_custom_domain
require_custom_domain r id = require (get_custom_domain r id) not_found

-- the primary key and the unique host
abbrev pub clashes : CustomDomain → CustomDomain → Bool
clashes d row = row.id == d.id || row.host == d.host

unfoldable pub insert_custom_domain : CustomDomain → DomainRepository → Result DomainRepository
insert_custom_domain d r = do
  guard (not (any (clashes d) r.custom_domains)) conflict
  ok (record r { custom_domains = r.custom_domains ++ d ∷ [] })

-- the columns that the `update` sets
abbrev pub updated_row : CustomDomain → CustomDomain → CustomDomain
updated_row d row = record row {
  status = d.status;
  tls_status = d.tls_status;
  tls_provider = d.tls_provider;
  tls_request_id = d.tls_request_id;
  tls_error = d.tls_error;
  updated_at = d.updated_at;
  verified_at = d.verified_at;
  tls_provisioned_at = d.tls_provisioned_at;
}

abbrev pub updated_in : CustomDomain → CustomDomain → CustomDomain
updated_in d row = if row.id == d.id then updated_row d row else row

unfoldable pub update_custom_domain : CustomDomain → DomainRepository → Result DomainRepository
update_custom_domain d r = do
  guard (any (λ row. row.id == d.id) r.custom_domains) not_found
  ok (record r { custom_domains = map (updated_in d) r.custom_domains })

unfoldable pub remove_custom_domain : String → DomainRepository → Result DomainRepository
unfolding get_custom_domain
remove_custom_domain id r = do
  found ← require (get_custom_domain r id) not_found
  ok (record r { custom_domains = filter (λ row. not (row.id == id)) r.custom_domains })

unfoldable pub create_custom_domain :
    String → String → Text → String → Text → DomainRepository → Result DomainRepository
unfolding require_domain_project normalize_host insert_custom_domain verification_record_name
    verification_record_value
create_custom_domain now new_id token project_id host_input r = do
  require_domain_project r project_id
  host ← normalize_host host_input
  insert_custom_domain
      (record {
        id = new_id;
        project_id = project_id;
        host = host;
        status = pending_verification;
        verification_token = token;
        verification_record_name = verification_record_name host;
        verification_record_value = verification_record_value token;
        tls_status = no_tls;
        tls_provider = none;
        tls_request_id = none;
        tls_error = none;
        created_at = now;
        updated_at = now;
        verified_at = none;
        tls_provisioned_at = none;
      })
      r

-- the routes of the host, of any project: of a foreign route too the call throws `validation`
unfoldable pub delete_custom_domain : String → DomainRepository → Result DomainRepository
unfolding require_custom_domain remove_custom_domain
delete_custom_domain id r = do
  domain ← require_custom_domain r id
  guard (not (any (λ route. route.host == domain.host) r.routes)) validation
  remove_custom_domain domain.id r

-- an element that is no text is `none`
unfoldable pub txt_record_values : List (Option Text) → Result (List Text)
unfolding trim
txt_record_values [] = ok []
txt_record_values (none ∷ items) = err validation
txt_record_values (some item ∷ items) = do rest ← txt_record_values items; ok (trim item ∷ rest)

abbrev pub verified_row : String → CustomDomain → CustomDomain
verified_row now domain = record domain {
  status = verified;
  verified_at = some now;
  updated_at = now;
}

unfoldable pub verify_custom_domain_ownership :
    String → String → Option (List (Option Text)) → DomainRepository → Result DomainRepository
unfolding require_custom_domain txt_record_values update_custom_domain
verify_custom_domain_ownership now id txt_records r = do
  domain ← require_custom_domain r id
  items ← require txt_records validation
  records ← txt_record_values items
  guard (any (λ value. value == domain.verification_record_value) records) validation
  update_custom_domain (verified_row now domain) r

abbrev pub is_control : ℕ → Bool
is_control c = leb c 0x1f || c == 0x7f

unfoldable pub normalize_provider : Text → Result Text
unfolding trim
normalize_provider value =
    let normalized = trim value in
    if length normalized == 0 || ltb 120 (length normalized) || any is_control normalized
    then err validation
    else ok normalized

-- `...(input.x ? { x: normalizeProvider(input.x) } : {})`: the empty text is falsy
unfoldable pub replaced_provider : Option Text → Option Text → Result (Option Text)
unfolding normalize_provider
replaced_provider none old = ok old
replaced_provider (some []) old = ok old
replaced_provider (some (c ∷ cs)) old = do value ← normalize_provider (c ∷ cs); ok (some value)

unfoldable pub optional_non_empty : Option Text → Result (Option Text)
unfolding normalize_provider
optional_non_empty none = ok none
optional_non_empty (some text) = do value ← normalize_provider text; ok (some value)

abbrev pub may_request_tls : CustomDomainStatus → Bool
may_request_tls verified = true
may_request_tls tls_failed = true
may_request_tls active = true
may_request_tls _ = false

abbrev pub requested_row : String → Option Text → Option Text → CustomDomain → CustomDomain
requested_row now tls_provider tls_request_id domain = record domain {
  status = tls_pending;
  tls_status = pending;
  tls_provider = tls_provider;
  tls_request_id = tls_request_id;
  tls_error = none;
  updated_at = now;
}

unfoldable pub request_custom_domain_tls_provisioning :
    String → String → Option Text → Option Text → DomainRepository → Result DomainRepository
unfolding require_custom_domain replaced_provider update_custom_domain
request_custom_domain_tls_provisioning now id provider request_id r = do
  domain ← require_custom_domain r id
  guard (may_request_tls domain.status) validation
  tls_provider ← replaced_provider provider domain.tls_provider
  tls_request_id ← replaced_provider request_id domain.tls_request_id
  update_custom_domain (requested_row now tls_provider tls_request_id domain) r

-- the columns that the outcome of the request decides
unfoldable pub completed : String → Bool → Option Text → CustomDomain → Result CustomDomain
unfolding optional_non_empty
completed now true error domain = ok (record domain {
  status = active;
  tls_status = provisioned;
  tls_error = none;
  updated_at = now;
  tls_provisioned_at = some now;
})
completed now false error domain = do
  tls_error ← optional_non_empty error
  ok (record domain {
    status = tls_failed;
    tls_status = failed;
    tls_error = tls_error;
    updated_at = now;
  })

-- `is_ok` is `none` for a value that is no Boolean
unfoldable pub complete_custom_domain_tls_provisioning :
    String
    → String
    → Option Bool
    → Option Text
    → Option Text
    → Option Text
    → DomainRepository
    → Result DomainRepository
unfolding require_custom_domain replaced_provider completed update_custom_domain
complete_custom_domain_tls_provisioning now id is_ok provider request_id error r = do
  domain ← require_custom_domain r id
  succeeded ← require is_ok validation
  tls_provider ← replaced_provider provider domain.tls_provider
  tls_request_id ← replaced_provider request_id domain.tls_request_id
  final ←
      completed now succeeded error
        (record domain { tls_provider = tls_provider; tls_request_id = tls_request_id })
  update_custom_domain final r
