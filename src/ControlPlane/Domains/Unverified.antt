-- ===== src/ControlPlane/Domains/Unverified.antt =====
-- A report that the TLS of a domain succeeded is taken in every status.
use odenctl.Prelude.{
  ◌≡◌, refl, ap, ◌∙◌, inl, inr, String, Bool, true, false, Option, none, some, List, [], ◌∷◌, any,
  map, find, arith, string_eq, ◌==◌, Member, Bool-cases, find-some, any_of_Member, beq_refl,
  beq_comm,
}
use odenctl.Prelude.Text.{Text, text_eq}
use odenctl.ControlPlane.Errors.{ok}
use odenctl.ControlPlane.Routes.{RouteRepository, Deployment, enforce_route_custom_domain}
use odenctl.ControlPlane.Domains.{
  CustomDomain, DomainRepository, pending_verification, active, provisioned, updated_in,
  update_custom_domain, complete_custom_domain_tls_provisioning, require_custom_domain,
  get_custom_domain, replaced_provider, completed, clashes, domain_view, is_active,
}
use odenctl.ControlPlane.Domains.Rows.{
  IsSound, Distinct, Distinct-map, get_custom_domain-IsConsistent,
}
use odenctl.ControlPlane.Domains.Ownership.{has_id, find-updated}
use odenctl.ControlPlane.Domains.Runs.{complete_tls, perform}

-- the tables that `enforceRouteCustomDomain` reads, with the domains of `r`
abbrev pub gate_view : List Deployment → DomainRepository → RouteRepository
gate_view deployments r = record {
  projects = r.projects;
  deployments = deployments;
  domains = map domain_view r.custom_domains;
  routes = r.routes;
}

any-false_of_Member :
    (p : CustomDomain → Bool) (rows : List CustomDomain) (d : CustomDomain)
    → any p rows ≡ false
    → Member d rows
    → p d ≡ false
any-false_of_Member p [] d h m = absurd m
any-false_of_Member p (row ∷ rows) d h (inl e) = rw e (ground arith)
any-false_of_Member p (row ∷ rows) d h (inr m) = any-false_of_Member p rows d (ground arith) m

-- A domain found by its id is the one of its host.
find-host :
    (id : String) (rows : List CustomDomain) (d : CustomDomain)
    → Distinct rows
    → find (has_id id) rows ≡ some d
    → find (λ v. v.host == d.host) (map domain_view rows) ≡ some (domain_view d)
find-host id [] d apart h = cc
find-host id (row ∷ rows) d apart h = elim (Bool-cases (row.id == id)) [
  | inl here ↦
      let same : row ≡ d = ground arith in
      let at_host : (row.host == d.host) ≡ true = rw same (beq_refl d.host) in
      rw (at_host, same) refl
  | inr other ↦
      let later : find (has_id id) rows ≡ some d = rw other at h in
      let inside = (find-some (has_id id) rows d later).0 in
      let clash = any-false_of_Member (clashes row) rows d apart.0 inside in
      let at_host : (row.host == d.host) ≡ false = ground (arith, beq_comm row.host d.host) in
      rw at_host (find-host id rows d apart.1 later)
]

-- the row after a successful report that names this provider and request id
abbrev pub completed_domain : String → Option Text → Option Text → CustomDomain → CustomDomain
completed_domain now tls_provider tls_request_id d = record d {
  status = active;
  tls_status = provisioned;
  tls_provider = tls_provider;
  tls_request_id = tls_request_id;
  tls_error = none;
  updated_at = now;
  tls_provisioned_at = some now;
}

abbrev pub after_completion : CustomDomain → DomainRepository → DomainRepository
after_completion d r = record r { custom_domains = map (updated_in d) r.custom_domains }

known_id :
    (id : String) (rows : List CustomDomain) (d : CustomDomain)
    → find (has_id id) rows ≡ some d
    → any (λ row. row.id == d.id) rows ≡ true
known_id id rows d h =
    any_of_Member (λ row. row.id == d.id) rows d (find-some (has_id id) rows d h).0 (beq_refl d.id)

opened :
    (r : DomainRepository) (id : String) (d : CustomDomain)
    → get_custom_domain r id ≡ some d
    → find (has_id id) r.custom_domains ≡ some d
unfolding get_custom_domain
opened r id d h = h

completed-get :
    (id : String) (r : DomainRepository) (d d' : CustomDomain)
    → d'.id ≡ d.id
    → get_custom_domain r id ≡ some d
    → get_custom_domain (after_completion d' r) id ≡ some (updated_in d' d)
unfolding get_custom_domain
completed-get id r d d' same h = find-updated d' id r.custom_domains d h

-- A successful report of a known domain, with a provider and a request id that are proper.
completion-ok :
    (now id : String) (provider request_id error tls_provider tls_request_id : Option Text)
    (r : DomainRepository) (d : CustomDomain)
    → get_custom_domain r id ≡ some d
    → replaced_provider provider d.tls_provider ≡ ok tls_provider
    → replaced_provider request_id d.tls_request_id ≡ ok tls_request_id
    → perform (complete_tls now id (some true) provider request_id error) r
      ≡ ok (after_completion (completed_domain now tls_provider tls_request_id d) r)
unfolding perform complete_custom_domain_tls_provisioning require_custom_domain completed
    update_custom_domain
completion-ok now id provider request_id error tls_provider tls_request_id r d h p q =
    rw h (rw (p, q, known_id id r.custom_domains d (opened r id d h)) refl)

gate-ok :
    (r : RouteRepository) (d : CustomDomain)
    → find (λ v. v.host == d.host) r.domains ≡ some (domain_view d)
    → is_active d.status ≡ true
    → enforce_route_custom_domain r d.project_id d.host ≡ ok tt
unfolding enforce_route_custom_domain
gate-ok r d h live = rw (enforce_route_custom_domain, h) (rw (beq_refl d.project_id, live) refl)

-- In a sound table, for a domain that waits for its verification, a report that its TLS succeeded is
-- taken, whatever error it names, if the provider and the request id that it names are missing or
-- proper texts. The domain is active then, though nobody has shown its TXT record and it has no
-- verification time, and a route of its project for its host passes the check on custom domains.
pub complete_tls-unverified :
    (now id : String) (provider request_id error tls_provider tls_request_id : Option Text)
    (deployments : List Deployment) (r : DomainRepository) (d : CustomDomain)
    → IsSound r
    → get_custom_domain r id ≡ some d
    → d.status ≡ pending_verification
    → replaced_provider provider d.tls_provider ≡ ok tls_provider
    → replaced_provider request_id d.tls_request_id ≡ ok tls_request_id
    → (r' : DomainRepository) × (d' : CustomDomain) × (perform
          (complete_tls now id (some true) provider request_id error)
          r
        ≡ ok r')
      × (get_custom_domain r' id ≡ some d')
      × (d'.host ≡ d.host)
      × (d'.status ≡ active)
      × (d'.verified_at ≡ none)
      × (enforce_route_custom_domain (gate_view deployments r') d.project_id d.host ≡ ok tt)
complete_tls-unverified now id provider request_id error tls_provider tls_request_id deployments r d
      sound h waits p q =
    let d' = completed_domain now tls_provider tls_request_id d in
    let r' = after_completion d' r in
    let same : updated_in d' d ≡ d' = rw (beq_refl d.id) refl in
    let there : get_custom_domain r' id ≡ some d' = completed-get id r d d' refl h ∙ ap some same in
    let at_host =
      find-host id r'.custom_domains d' (Distinct-map d' r.custom_domains sound.distinct)
        (opened r' id d' there) in
    (
      r',
      d',
      completion-ok now id provider request_id error tls_provider tls_request_id r d h p q,
      there,
      refl,
      refl,
      ((get_custom_domain-IsConsistent r id d sound h).fresh waits).1,
      gate-ok (gate_view deployments r') d' at_host refl,
    )
