-- ===== src/ControlPlane/Domains/Rows.antt =====
-- The table of custom domains: its keys are distinct and each row is in a state that the methods
-- can explain.
use odenctl.Prelude.{
  ◌≡◌, refl, subst, ◌∙◌, inl, inr, String, Bool, true, false, none, some, List, [], ◌∷◌, ◌++◌,
  arith, map, filter, any, string_eq, ◌==◌, not, is_some, All, Bool-cases, beq_comm, find-some,
  All-member,
}
use odenctl.Prelude.Keyed.{All-filter, All-append}
use odenctl.Prelude.Text.{text_eq}
use odenctl.ControlPlane.Errors.{
  conflict, not_found, ok, guard, require, >>=-eq-ok, ok_injective, guard-ok,
}
use odenctl.ControlPlane.Domains.{
  CustomDomain, DomainRepository, pending_verification, verified, tls_pending, active, tls_failed,
  no_tls, pending, provisioned, failed, clashes, updated_row, updated_in, insert_custom_domain,
  update_custom_domain, remove_custom_domain, get_custom_domain, verification_record_name,
  verification_record_value,
}

pub record IsConsistent (d : CustomDomain) : Type 0 where
  pub challenge : d.verification_record_value ≡ verification_record_value d.verification_token
  pub named : d.verification_record_name ≡ verification_record_name d.host
  pub fresh : d.status ≡ pending_verification → (d.tls_status ≡ no_tls) × (d.verified_at ≡ none)
  pub owned : d.status ≡ verified → is_some d.verified_at ≡ true
  pub waiting : d.status ≡ tls_pending → d.tls_status ≡ pending
  pub live :
      d.status ≡ active → (d.tls_status ≡ provisioned) × (is_some d.tls_provisioned_at ≡ true)
  pub broken : d.status ≡ tls_failed → d.tls_status ≡ failed

-- No two rows share an id or a host.
abbrev pub Distinct : List CustomDomain → Type 0
Distinct [] = Unit
Distinct (d ∷ ds) = (any (clashes d) ds ≡ false) × Distinct ds

pub record IsSound (r : DomainRepository) : Type 0 where
  pub consistent : All IsConsistent r.custom_domains
  pub distinct : Distinct r.custom_domains

updated_row-IsConsistent :
    (d row : CustomDomain) → IsConsistent d → IsConsistent row → IsConsistent (updated_row d row)
updated_row-IsConsistent d row new old = record {
  challenge = old.challenge;
  named = old.named;
  fresh = new.fresh;
  owned = new.owned;
  waiting = new.waiting;
  live = new.live;
  broken = new.broken;
}

updated_in-IsConsistent :
    (d row : CustomDomain) → IsConsistent d → IsConsistent row → IsConsistent (updated_in d row)
updated_in-IsConsistent d row new old = elim (Bool-cases (row.id == d.id)) [
  | inl same ↦ rw same (updated_row-IsConsistent d row new old)
  | inr other ↦ rw other old
]

map-IsConsistent :
    (d : CustomDomain) (rows : List CustomDomain)
    → IsConsistent d
    → All IsConsistent rows
    → All IsConsistent (map (updated_in d) rows)
map-IsConsistent d [] new h = tt
map-IsConsistent d (row ∷ rows) new h =
    (updated_in-IsConsistent d row new h.0, map-IsConsistent d rows new h.1)

-- An update touches neither key.
clashes-updated_in :
    (d row other : CustomDomain) → clashes other (updated_in d row) ≡ clashes other row
clashes-updated_in d row other = ground arith

updated_in-clashes :
    (d row other : CustomDomain) → clashes (updated_in d row) other ≡ clashes row other
updated_in-clashes d row other = ground arith

any-map_updated :
    (d other : CustomDomain) (rows : List CustomDomain)
    → any (clashes (updated_in d other)) (map (updated_in d) rows) ≡ any (clashes other) rows
any-map_updated d other [] = refl
any-map_updated d other (row ∷ rows) =
    rw
      (
        clashes-updated_in d row (updated_in d other),
        updated_in-clashes d other row,
        any-map_updated d other rows,
      )
      refl

pub Distinct-map :
    (d : CustomDomain) (rows : List CustomDomain)
    → Distinct rows
    → Distinct (map (updated_in d) rows)
Distinct-map d [] h = tt
Distinct-map d (row ∷ rows) h = (any-map_updated d row rows ∙ h.0, Distinct-map d rows h.1)

any-filter :
    {A : Type 0} (p q : A → Bool) (xs : List A) → any p xs ≡ false → any p (filter q xs) ≡ false
any-filter p q [] h = refl
any-filter p q (x ∷ xs) h = ground (arith, any-filter p q xs)

Distinct-filter :
    (p : CustomDomain → Bool) (rows : List CustomDomain) → Distinct rows → Distinct (filter p rows)
Distinct-filter p [] h = tt
Distinct-filter p (row ∷ rows) h = elim (Bool-cases (p row)) [
  | inl kept ↦ rw kept (any-filter (clashes row) p rows h.0, Distinct-filter p rows h.1)
  | inr gone ↦ rw gone (Distinct-filter p rows h.1)
]

clashes_comm : (d row : CustomDomain) → clashes d row ≡ clashes row d
clashes_comm d row = rw (beq_comm row.id d.id, beq_comm row.host d.host) refl

any-append :
    {A : Type 0} (p : A → Bool) (xs : List A) (a : A)
    → any p xs ≡ false
    → p a ≡ false
    → any p (xs ++ a ∷ []) ≡ false
any-append p [] a h q = ground arith
any-append p (x ∷ xs) a h q = ground (arith, any-append p xs a)

Distinct-append :
    (rows : List CustomDomain) (d : CustomDomain)
    → Distinct rows
    → any (clashes d) rows ≡ false
    → Distinct (rows ++ d ∷ [])
Distinct-append [] d h new = (refl, tt)
Distinct-append (row ∷ rows) d h new = (
  any-append (clashes row) rows d h.0 (clashes_comm row d ∙ (ground arith)),
  Distinct-append rows d h.1 (ground arith),
)

pub insert_custom_domain-IsSound :
    (d : CustomDomain) (r : DomainRepository) {r' : DomainRepository}
    → IsConsistent d
    → IsSound r
    → insert_custom_domain d r ≡ ok r'
    → IsSound r'
unfolding insert_custom_domain
insert_custom_domain-IsSound d r new sound h =
    let (u, free, h1) = >>=-eq-ok (guard (not (any (clashes d) r.custom_domains)) conflict) _ h in
    let apart = guard-ok conflict (not (any (clashes d) r.custom_domains)) free in
    subst IsSound (ok_injective h1) (record {
      consistent = All-append IsConsistent r.custom_domains d sound.consistent new;
      distinct = Distinct-append r.custom_domains d sound.distinct (ground arith);
    })

pub update_custom_domain-IsSound :
    (d : CustomDomain) (r : DomainRepository) {r' : DomainRepository}
    → IsConsistent d
    → IsSound r
    → update_custom_domain d r ≡ ok r'
    → IsSound r'
unfolding update_custom_domain
update_custom_domain-IsSound d r new sound h =
    let (u, found, h1) =
      >>=-eq-ok (guard (any (λ row. row.id == d.id) r.custom_domains) not_found) _ h in
    subst IsSound (ok_injective h1) (record {
      consistent = map-IsConsistent d r.custom_domains new sound.consistent;
      distinct = Distinct-map d r.custom_domains sound.distinct;
    })

pub remove_custom_domain-IsSound :
    (id : String) (r : DomainRepository) {r' : DomainRepository}
    → IsSound r
    → remove_custom_domain id r ≡ ok r'
    → IsSound r'
unfolding remove_custom_domain
remove_custom_domain-IsSound id r sound h =
    let (d, found, h1) = >>=-eq-ok (require (get_custom_domain r id) not_found) _ h in
    subst IsSound (ok_injective h1) (record {
      consistent =
          All-filter IsConsistent (λ row. not (row.id == id)) r.custom_domains sound.consistent;
      distinct = Distinct-filter (λ row. not (row.id == id)) r.custom_domains sound.distinct;
    })

-- The row that a call reads is one of the table.
pub get_custom_domain-IsConsistent :
    (r : DomainRepository) (id : String) (d : CustomDomain)
    → IsSound r
    → get_custom_domain r id ≡ some d
    → IsConsistent d
unfolding get_custom_domain
get_custom_domain-IsConsistent r id d sound h =
    All-member IsConsistent r.custom_domains sound.consistent
      (find-some (λ x. x.id == id) r.custom_domains d h).0
