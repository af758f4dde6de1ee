-- ===== src/ControlPlane/Domains/Runs.antt =====
-- Sequences of calls on the custom domains.
use odenctl.Prelude.{
  ◌≡◌, refl, subst, String, Bool, true, false, Option, List, [], ◌∷◌, any, string_eq, nat_eq, ◌==◌,
  not,
}
use odenctl.Prelude.Text.{Text, text_eq}
use odenctl.ControlPlane.Errors.{
  validation, not_found, Result, ok, err, guard, require, >>=-eq-ok, ok_injective, require-ok,
}
use odenctl.ControlPlane.Routes.{normalize_host}
use odenctl.ControlPlane.Domains.{
  CustomDomain, DomainRepository, create_custom_domain, delete_custom_domain, txt_record_values,
  verify_custom_domain_ownership, replaced_provider, may_request_tls, completed, optional_non_empty,
  request_custom_domain_tls_provisioning, complete_custom_domain_tls_provisioning,
  require_custom_domain, require_domain_project, get_custom_domain, verified_row, requested_row,
}
use odenctl.ControlPlane.Domains.Rows.{
  IsConsistent, IsSound, insert_custom_domain-IsSound, update_custom_domain-IsSound,
  remove_custom_domain-IsSound, get_custom_domain-IsConsistent,
}

-- a call with its arguments, the clock first
pub data Command : Type 0 where
  create : String → String → Text → String → Text → Command
  delete : String → Command
  verify : String → String → Option (List (Option Text)) → Command
  request_tls : String → String → Option Text → Option Text → Command
  complete_tls : String → String → Option Bool → Option Text → Option Text → Option Text → Command

unfoldable pub perform : Command → DomainRepository → Result DomainRepository
unfolding create_custom_domain delete_custom_domain verify_custom_domain_ownership
    request_custom_domain_tls_provisioning complete_custom_domain_tls_provisioning
perform (create now new_id token project_id host) r =
    create_custom_domain now new_id token project_id host r
perform (delete id) r = delete_custom_domain id r
perform (verify now id records) r = verify_custom_domain_ownership now id records r
perform (request_tls now id provider request_id) r =
    request_custom_domain_tls_provisioning now id provider request_id r
perform (complete_tls now id is_ok provider request_id error) r =
    complete_custom_domain_tls_provisioning now id is_ok provider request_id error r

-- a call that throws changes nothing
abbrev pub after_call : DomainRepository → Result DomainRepository → DomainRepository
after_call r (ok r') = r'
after_call r (err code) = r

unfoldable pub run : DomainRepository → List Command → DomainRepository
unfolding perform
run r [] = r
run r (command ∷ commands) = run (after_call r (perform command r)) commands

found-IsConsistent :
    (r : DomainRepository) (id : String) (d : CustomDomain)
    → IsSound r
    → require_custom_domain r id ≡ ok d
    → IsConsistent d
unfolding require_custom_domain
found-IsConsistent r id d sound h =
    get_custom_domain-IsConsistent r id d sound (require-ok not_found (get_custom_domain r id) h)

completed-IsConsistent :
    (now : String) (succeeded : Bool) (error : Option Text) (d final : CustomDomain)
    → IsConsistent d
    → completed now succeeded error d ≡ ok final
    → IsConsistent final
unfolding completed
completed-IsConsistent now true error d final old h = subst IsConsistent (ok_injective h) (record {
  challenge = old.challenge;
  named = old.named;
  fresh = λ e. absurd (cc e);
  owned = λ e. absurd (cc e);
  waiting = λ e. absurd (cc e);
  live = λ e. (refl, refl);
  broken = λ e. absurd (cc e);
})
completed-IsConsistent now false error d final old h =
    let (tls_error, read, h1) = >>=-eq-ok (optional_non_empty error) _ h in
    subst IsConsistent (ok_injective h1) (record {
      challenge = old.challenge;
      named = old.named;
      fresh = λ e. absurd (cc e);
      owned = λ e. absurd (cc e);
      waiting = λ e. absurd (cc e);
      live = λ e. absurd (cc e);
      broken = λ e. refl;
    })

perform-IsSound :
    (command : Command) (r r' : DomainRepository)
    → IsSound r
    → perform command r ≡ ok r'
    → IsSound r'
unfolding perform create_custom_domain delete_custom_domain verify_custom_domain_ownership
    request_custom_domain_tls_provisioning complete_custom_domain_tls_provisioning
perform-IsSound (create now new_id token project_id host_input) r r' sound h =
    let (u, known, h1) = >>=-eq-ok (require_domain_project r project_id) _ h in
    let (host, normal, h2) = >>=-eq-ok (normalize_host host_input) _ h1 in
    insert_custom_domain-IsSound _ r
      (record {
        challenge = refl;
        named = refl;
        fresh = λ e. (refl, refl);
        owned = λ e. absurd (cc e);
        waiting = λ e. absurd (cc e);
        live = λ e. absurd (cc e);
        broken = λ e. absurd (cc e);
      })
      sound h2
perform-IsSound (delete id) r r' sound h =
    let (d, found, h1) = >>=-eq-ok (require_custom_domain r id) _ h in
    let (u, free, h2) =
      >>=-eq-ok (guard (not (any (λ route. route.host == d.host) r.routes)) validation) _ h1 in
    remove_custom_domain-IsSound d.id r sound h2
perform-IsSound (verify now id txt_records) r r' sound h =
    let (d, found, h1) = >>=-eq-ok (require_custom_domain r id) _ h in
    let (items, given, h2) = >>=-eq-ok (require txt_records validation) _ h1 in
    let (records, read, h3) = >>=-eq-ok (txt_record_values items) _ h2 in
    let (u, there, h4) =
      >>=-eq-ok (guard (any (λ v. v == d.verification_record_value) records) validation) _ h3 in
    let old = found-IsConsistent r id d sound found in
    update_custom_domain-IsSound (verified_row now d) r
      (record {
        challenge = old.challenge;
        named = old.named;
        fresh = λ e. absurd (cc e);
        owned = λ e. refl;
        waiting = λ e. absurd (cc e);
        live = λ e. absurd (cc e);
        broken = λ e. absurd (cc e);
      })
      sound h4
perform-IsSound (request_tls now id provider request_id) r r' sound h =
    let (d, found, h1) = >>=-eq-ok (require_custom_domain r id) _ h in
    let (u, may, h2) = >>=-eq-ok (guard (may_request_tls d.status) validation) _ h1 in
    let (p, p_ok, h3) = >>=-eq-ok (replaced_provider provider d.tls_provider) _ h2 in
    let (q, q_ok, h4) = >>=-eq-ok (replaced_provider request_id d.tls_request_id) _ h3 in
    let old = found-IsConsistent r id d sound found in
    update_custom_domain-IsSound (requested_row now p q d) r
      (record {
        challenge = old.challenge;
        named = old.named;
        fresh = λ e. absurd (cc e);
        owned = λ e. absurd (cc e);
        waiting = λ e. refl;
        live = λ e. absurd (cc e);
        broken = λ e. absurd (cc e);
      })
      sound h4
perform-IsSound (complete_tls now id is_ok provider request_id error) r r' sound h =
    let (d, found, h1) = >>=-eq-ok (require_custom_domain r id) _ h in
    let (succeeded, given, h2) = >>=-eq-ok (require is_ok validation) _ h1 in
    let (p, p_ok, h3) = >>=-eq-ok (replaced_provider provider d.tls_provider) _ h2 in
    let (q, q_ok, h4) = >>=-eq-ok (replaced_provider request_id d.tls_request_id) _ h3 in
    let (final, done, h5) =
      >>=-eq-ok (completed now succeeded error (record d { tls_provider = p; tls_request_id = q }))
        _ h4 in
    let old = found-IsConsistent r id d sound found in
    update_custom_domain-IsSound final r
      (completed-IsConsistent now succeeded error
        (record d { tls_provider = p; tls_request_id = q }) final
        (record {
          challenge = old.challenge;
          named = old.named;
          fresh = old.fresh;
          owned = old.owned;
          waiting = old.waiting;
          live = old.live;
          broken = old.broken;
        })
        done)
      sound h5

after_call-IsSound :
    (command : Command) (r : DomainRepository)
    → IsSound r
    → (result : Result DomainRepository) → perform command r ≡ result
    → IsSound (after_call r result)
after_call-IsSound command r sound (ok r') h = perform-IsSound command r r' sound h
after_call-IsSound command r sound (err code) h = sound

-- From a sound table, after any sequence of calls, those that throw included: no two domains share
-- an id or a host; each TXT record to publish belongs to the token and the host of its domain; a
-- domain that waits for its verification has no TLS and no verification time, a verified one has
-- such a time, an active one has TLS provisioned at some time, and the status of the others agrees
-- with the TLS status.
pub run-IsSound_domains :
    (commands : List Command) (r : DomainRepository) → IsSound r → IsSound (run r commands)
unfolding run
run-IsSound_domains [] r sound = sound
run-IsSound_domains (command ∷ commands) r sound =
    run-IsSound_domains commands (after_call r (perform command r))
      (after_call-IsSound command r sound (perform command r) refl)
