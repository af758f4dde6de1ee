-- ===== src/ControlPlane/Domains/Ownership.antt =====
-- Who may take traffic for a host: how a domain leaves `pending_verification`, and the gate of the
-- routes (`enforceRouteCustomDomain`) after it did.
use odenctl.Prelude.{
  ◌≡◌, refl, sym, subst, ap, ◌∙◌, ◌⊎◌, inl, inr, String, Bool, true, false, Option, none, some,
  List, [], ◌∷◌, ◌++◌, any, map, filter, find, not, arith, string_eq, ◌==◌, Member, Bool-cases,
  find-some, eq_of_beq, Member-filter, any-witness,
}
use odenctl.Prelude.Text.{Text, text_eq}
use odenctl.ControlPlane.Errors.{
  validation, not_found, conflict, ok, guard, require, >>=-eq-ok, ok_injective, require-ok,
  guard-ok,
}
use odenctl.ControlPlane.Routes.{normalize_host}
use odenctl.ControlPlane.Domains.{
  CustomDomain, CustomDomainStatus, DomainRepository, pending_verification, updated_in,
  update_custom_domain, remove_custom_domain, insert_custom_domain, create_custom_domain,
  delete_custom_domain, verify_custom_domain_ownership, request_custom_domain_tls_provisioning,
  complete_custom_domain_tls_provisioning, require_custom_domain, require_domain_project,
  get_custom_domain, txt_record_values, replaced_provider, may_request_tls, completed, clashes,
  verified_row, requested_row, optional_non_empty,
}
use odenctl.ControlPlane.Domains.Runs.{
  Command, create, delete, verify, request_tls, complete_tls, perform,
}

abbrev status_of : CustomDomain → CustomDomainStatus
status_of d = d.status

abbrev id_of : CustomDomain → String
id_of d = d.id

abbrev pub has_id : String → CustomDomain → Bool
has_id id d = d.id == id

find-append_some :
    {A : Type 0} (p : A → Bool) (xs : List A) (a b : A)
    → find p xs ≡ some a
    → find p (xs ++ b ∷ []) ≡ some a
find-append_some p [] a b h = cc
find-append_some p (x ∷ xs) a b h = ground (arith, find-append_some p xs a b)

pub find-updated :
    (x : CustomDomain) (id : String) (rows : List CustomDomain) (d : CustomDomain)
    → find (has_id id) rows ≡ some d
    → find (has_id id) (map (updated_in x) rows) ≡ some (updated_in x d)
find-updated x id [] d h = cc
find-updated x id (row ∷ rows) d h = elim (Bool-cases (row.id == id)) [
  | inl here ↦
      let same : row ≡ d = ground arith in
      let kept : (updated_in x row).id ≡ row.id = ground arith in rw (kept, here, same) refl
  | inr other ↦
      let kept : (updated_in x row).id ≡ row.id = ground arith in
      rw (kept, other) (find-updated x id rows d (rw other at h))
]

find-filter :
    {A : Type 0} (p q : A → Bool) (xs : List A) (a b : A)
    → find p xs ≡ some a
    → find p (filter q xs) ≡ some b
    → q a ≡ true
    → a ≡ b
find-filter p q [] a b h k t = cc
find-filter p q (x ∷ xs) a b h k t = ground (arith, find-filter p q xs a b)

some_injective {ℓ} : {A : Type ℓ} {a b : A} → some a ≡ some b → a ≡ b
some_injective h = cc

-- What an update leaves under an id.
update_custom_domain-get :
    (x : CustomDomain) (r r' : DomainRepository) (id : String) (d d' : CustomDomain)
    → update_custom_domain x r ≡ ok r'
    → get_custom_domain r id ≡ some d
    → get_custom_domain r' id ≡ some d'
    → d' ≡ updated_in x d
unfolding update_custom_domain get_custom_domain
update_custom_domain-get x r r' id d d' h before now =
    let (u, found, h1) =
      >>=-eq-ok (guard (any (λ row. row.id == x.id) r.custom_domains) not_found) _ h in
    let after : get_custom_domain r' id ≡ some (updated_in x d) =
      subst (λ s. get_custom_domain s id ≡ some (updated_in x d)) (ok_injective h1)
        (find-updated x id r.custom_domains d before) in
    some_injective (sym now ∙ after)

-- Of the calls, these may take a domain out of `pending_verification`: one that was shown the
-- record with the domain's value, and a report on the TLS of the domain.
abbrev pub Explains : CustomDomain → Command → Type 0
Explains d (verify now id (some items)) =
    (id ≡ d.id)
    × ((records : List Text) × (txt_record_values items ≡ ok records)
        × Member d.verification_record_value records)
Explains d (complete_tls now id is_ok provider request_id error) = id ≡ d.id
Explains d _ = ⊥

id_of_found :
    (r : DomainRepository) (id : String) (d : CustomDomain)
    → get_custom_domain r id ≡ some d
    → d.id ≡ id
unfolding get_custom_domain
id_of_found r id d h = eq_of_beq d.id id (find-some (has_id id) r.custom_domains d h).1

required :
    (r : DomainRepository) (id : String) (d : CustomDomain)
    → require_custom_domain r id ≡ ok d
    → get_custom_domain r id ≡ some d
unfolding require_custom_domain
required r id d h = require-ok not_found (get_custom_domain r id) h

-- An update of the row `found` at `key`, seen at `id`: nothing, or it is the row itself.
update-seen :
    (x found : CustomDomain) (r r' : DomainRepository) (key id : String) (d d' : CustomDomain)
    → x.id ≡ found.id
    → require_custom_domain r key ≡ ok found
    → update_custom_domain x r ≡ ok r'
    → get_custom_domain r id ≡ some d
    → get_custom_domain r' id ≡ some d'
    → (d'.status ≡ d.status) ⊎ ((key ≡ d.id) × (found ≡ d))
update-seen x found r r' key id d d' same at_key h before after =
    let e = update_custom_domain-get x r r' id d d' h before after in
    elim (Bool-cases (d.id == x.id)) [
      | inr other ↦
          let kept : (updated_in x d).status ≡ d.status = rw other refl in
          inl (ap status_of e ∙ kept)
      | inl here ↦
          let key_id : key ≡ id =
            sym (id_of_found r key found (required r key found at_key))
            ∙ sym same
            ∙ sym (eq_of_beq d.id x.id here)
            ∙ id_of_found r id d before in
          inr (
            key_id ∙ sym (id_of_found r id d before),
            some_injective (sym (required r key found at_key) ∙ rw key_id before),
          )
    ]

insert_custom_domain-get :
    (x : CustomDomain) (r r' : DomainRepository) (id : String) (d d' : CustomDomain)
    → insert_custom_domain x r ≡ ok r'
    → get_custom_domain r id ≡ some d
    → get_custom_domain r' id ≡ some d'
    → d' ≡ d
unfolding insert_custom_domain get_custom_domain
insert_custom_domain-get x r r' id d d' h before now =
    let (u, free, h1) = >>=-eq-ok (guard (not (any (clashes x) r.custom_domains)) conflict) _ h in
    let after : get_custom_domain r' id ≡ some d =
      subst (λ s. get_custom_domain s id ≡ some d) (ok_injective h1)
        (find-append_some (has_id id) r.custom_domains d x before) in
    some_injective (sym now ∙ after)

remove_custom_domain-get :
    (key : String) (r r' : DomainRepository) (id : String) (d d' : CustomDomain)
    → remove_custom_domain key r ≡ ok r'
    → get_custom_domain r id ≡ some d
    → get_custom_domain r' id ≡ some d'
    → d' ≡ d
unfolding remove_custom_domain get_custom_domain
remove_custom_domain-get key r r' id d d' h before now =
    let kept = λ (row : CustomDomain). not (row.id == key) in
    let (x, found, h1) = >>=-eq-ok (require (get_custom_domain r key) not_found) _ h in
    let now' : find (has_id id) (filter kept r.custom_domains) ≡ some d' =
      subst (λ s. get_custom_domain s id ≡ some d') (sym (ok_injective h1)) now in
    let (inside, same) = find-some (has_id id) (filter kept r.custom_domains) d' now' in
    let apart = (Member-filter kept r.custom_domains d' inside).1 in
    let ids : d.id ≡ d'.id = id_of_found r id d before ∙ sym (eq_of_beq d'.id id same) in
    sym (find-filter (has_id id) kept r.custom_domains d d' before now' (rw ids apart))

completed-id :
    (now : String) (succeeded : Bool) (error : Option Text) (d final : CustomDomain)
    → completed now succeeded error d ≡ ok final
    → final.id ≡ d.id
unfolding completed
completed-id now true error d final h = ap id_of (sym (ok_injective h))
completed-id now false error d final h =
    let (tls_error, read, h1) = >>=-eq-ok (optional_non_empty error) _ h in
    ap id_of (sym (ok_injective h1))

-- A call that returns and after which a domain that waited for its verification does so no longer
-- was given, for this domain, TXT records that contain the value to publish, or was a report on its
-- TLS: creation, deletion and a TLS request never do it.
pub perform-Explains :
    (command : Command) (r r' : DomainRepository) (id : String) (d d' : CustomDomain)
    → perform command r ≡ ok r'
    → get_custom_domain r id ≡ some d
    → get_custom_domain r' id ≡ some d'
    → d.status ≡ pending_verification
    → (d'.status ≡ pending_verification) ⊎ Explains d command
unfolding perform create_custom_domain delete_custom_domain verify_custom_domain_ownership
    request_custom_domain_tls_provisioning complete_custom_domain_tls_provisioning
perform-Explains (create now new_id token project_id host_input) r r' id d d' h before after p =
    let (u, known, h1) = >>=-eq-ok (require_domain_project r project_id) _ h in
    let (host, normal, h2) = >>=-eq-ok (normalize_host host_input) _ h1 in
    inl (ap status_of (insert_custom_domain-get _ r r' id d d' h2 before after) ∙ p)
perform-Explains (delete key) r r' id d d' h before after p =
    let (x, found, h1) = >>=-eq-ok (require_custom_domain r key) _ h in
    let (u, free, h2) =
      >>=-eq-ok (guard (not (any (λ route. route.host == x.host) r.routes)) validation) _ h1 in
    inl (ap status_of (remove_custom_domain-get x.id r r' id d d' h2 before after) ∙ p)
perform-Explains (verify now key none) r r' id d d' h before after p =
    let (x, found, h1) = >>=-eq-ok (require_custom_domain r key) _ h in absurd (cc h1)
perform-Explains (verify now key (some items)) r r' id d d' h before after p =
    let (x, found, h1) = >>=-eq-ok (require_custom_domain r key) _ h in
    let (records, read, h3) = >>=-eq-ok (txt_record_values items) _ h1 in
    let (u, there, h4) =
      >>=-eq-ok (guard (any (λ v. v == x.verification_record_value) records) validation) _ h3 in
    elim (update-seen (verified_row now x) x r r' key id d d' refl found h4 before after) [
      | inl same ↦ inl (same ∙ p)
      | inr (keyed, here) ↦
          let shown =
            guard-ok validation (any (λ v. v == x.verification_record_value) records) there in
          let (v, inside, e) = any-witness (λ v. v == x.verification_record_value) records shown in
          let value : v ≡ d.verification_record_value =
            eq_of_beq v x.verification_record_value e
            ∙ ap (λ (y : CustomDomain). y.verification_record_value) here in
          inr (keyed, (records, read, rw (← value) inside))
    ]
perform-Explains (request_tls now key provider request_id) r r' id d d' h before after p =
    let (x, found, h1) = >>=-eq-ok (require_custom_domain r key) _ h in
    let (u, may, h2) = >>=-eq-ok (guard (may_request_tls x.status) validation) _ h1 in
    let (a, a_ok, h3) = >>=-eq-ok (replaced_provider provider x.tls_provider) _ h2 in
    let (b, b_ok, h4) = >>=-eq-ok (replaced_provider request_id x.tls_request_id) _ h3 in
    elim (update-seen (requested_row now a b x) x r r' key id d d' refl found h4 before after) [
      | inl same ↦ inl (same ∙ p)
      | inr (keyed, here) ↦
          let able = guard-ok validation (may_request_tls x.status) may in
          let waits : x.status ≡ pending_verification = ap status_of here ∙ p in
          absurd (cc (rw waits at able))
    ]
perform-Explains (complete_tls now key is_ok provider request_id error) r r' id d d' h before after
      p =
    let (x, found, h1) = >>=-eq-ok (require_custom_domain r key) _ h in
    let (succeeded, given, h2) = >>=-eq-ok (require is_ok validation) _ h1 in
    let (a, a_ok, h3) = >>=-eq-ok (replaced_provider provider x.tls_provider) _ h2 in
    let (b, b_ok, h4) = >>=-eq-ok (replaced_provider request_id x.tls_request_id) _ h3 in
    let (final, done, h5) =
      >>=-eq-ok (completed now succeeded error (record x { tls_provider = a; tls_request_id = b }))
        _ h4 in
    elim (update-seen final x r r' key id d d' (completed-id now succeeded error _ final done) found
      h5 before after) [ inl same ↦ inl (same ∙ p) | inr (keyed, here) ↦ inr keyed ]
