-- ===== src/Tests/Domains.antt =====
-- A custom domain is created, verified and served; another is completed without a verification.
use odenctl.Prelude.{◌≡◌, refl, ◌⊎◌, true, Option, none, some, List, [], ◌∷◌, map}
use odenctl.Prelude.Text.{Text, codes}
use odenctl.ControlPlane.Errors.{ok}
use odenctl.ControlPlane.Routes.{enforce_route_custom_domain}
use odenctl.ControlPlane.Domains.{
  CustomDomain, DomainRepository, pending_verification, tls_pending, active, no_tls,
  get_custom_domain, verified_row, replaced_provider,
}
use odenctl.ControlPlane.Domains.Rows.{IsSound}
use odenctl.ControlPlane.Domains.Runs.{
  Command, create, verify, request_tls, complete_tls, perform, run, run-IsSound_domains,
}
use odenctl.ControlPlane.Domains.Ownership.{Explains, perform-Explains}
use odenctl.ControlPlane.Domains.Unverified.{gate_view, complete_tls-unverified}

abbrev new_domain : CustomDomain
new_domain = record {
  id = "d1";
  project_id = "p";
  host = codes "a.test";
  status = pending_verification;
  verification_token = codes "t";
  verification_record_name = codes "_odenctl-challenge.a.test";
  verification_record_value = codes "odenctl-domain-verification=t";
  tls_status = no_tls;
  tls_provider = none;
  tls_request_id = none;
  tls_error = none;
  created_at = "t1";
  updated_at = "t1";
  verified_at = none;
  tls_provisioned_at = none;
}

abbrev no_domains : DomainRepository
no_domains = record { projects = "p" ∷ []; custom_domains = []; routes = [] }

abbrev one_domain : DomainRepository
one_domain = record no_domains { custom_domains = new_domain ∷ [] }

abbrev shown : Option (List (Option Text))
shown = some (some (codes " odenctl-domain-verification=t ") ∷ [])

abbrev calls : List Command
calls =
    create "t1" "d1" (codes "t") "p" (codes "A.test")
    ∷ create "t1" "d2" (codes "u") "p" (codes "a.test")
    ∷ request_tls "t2" "d1" none none
    ∷ verify "t3" "d1" shown
    ∷ request_tls "t4" "d1" (some (codes "acme")) none
    ∷ []

-- the second creation and the first TLS request are refused
calls-statuses :
    map (λ (d : CustomDomain). d.status) (run no_domains calls).custom_domains ≡ tls_pending ∷ []
unfolding run
calls-statuses = refl

no_domains-IsSound : IsSound no_domains
no_domains-IsSound = record { consistent = tt; distinct = tt }

run-IsSound_domains_example : IsSound (run no_domains calls)
run-IsSound_domains_example = run-IsSound_domains calls no_domains no_domains-IsSound

one_domain-IsSound : IsSound one_domain
unfolding run
one_domain-IsSound =
    run-IsSound_domains (create "t1" "d1" (codes "t") "p" (codes "A.test") ∷ []) no_domains
      no_domains-IsSound

abbrev one_verified : DomainRepository
one_verified = record no_domains { custom_domains = verified_row "t3" new_domain ∷ [] }

verify-ok : perform (verify "t3" "d1" shown) one_domain ≡ ok one_verified
unfolding perform
verify-ok = refl

found_before : get_custom_domain one_domain "d1" ≡ some new_domain
unfolding get_custom_domain
found_before = refl

found_after : get_custom_domain one_verified "d1" ≡ some (verified_row "t3" new_domain)
unfolding get_custom_domain
found_after = refl

perform-Explains_example :
    ((verified_row "t3" new_domain).status ≡ pending_verification)
    ⊎ Explains new_domain (verify "t3" "d1" shown)
perform-Explains_example =
    perform-Explains (verify "t3" "d1" shown) one_domain one_verified "d1" new_domain
      (verified_row "t3" new_domain) verify-ok found_before found_after refl

abbrev named_provider : Option Text
named_provider = some (codes "acme")

named-ok : replaced_provider named_provider none ≡ ok named_provider
unfolding replaced_provider
named-ok = refl

kept-ok : replaced_provider none none ≡ ok none
unfolding replaced_provider
kept-ok = refl

complete_tls-unverified_example :
    (r' : DomainRepository) × (d' : CustomDomain) × (perform
        (complete_tls "t2" "d1" (some true) named_provider none none)
        one_domain
      ≡ ok r')
    × (get_custom_domain r' "d1" ≡ some d')
    × (d'.host ≡ codes "a.test")
    × (d'.status ≡ active)
    × (d'.verified_at ≡ none)
    × (enforce_route_custom_domain (gate_view [] r') "p" (codes "a.test") ≡ ok tt)
complete_tls-unverified_example =
    complete_tls-unverified "t2" "d1" named_provider none none named_provider none [] one_domain
      new_domain one_domain-IsSound found_before refl named-ok kept-ok
