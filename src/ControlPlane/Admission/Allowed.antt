-- ===== src/ControlPlane/Admission/Allowed.antt =====
-- What an admitted deployment is, and that the checks decide it.
use odenctl.Prelude.{
  ◌≡◌, ◌≢◌, ◌≤◌, refl, ◌⊎◌, inl, inr, ℕ, String, Bool, true, false, ◌&&◌, ◌||◌, Option, none, some,
  List, [], ◌∷◌, arith, leb, string_eq, nat_eq, ◌==◌, not, is_some, Member, All, any-witness,
  any_of_Member, eq_of_beq, beq_refl, beq_of_ne, ne_of_beq, leb→le, le→leb,
}
use odenctl.Contracts.{ArtifactSignature}
use odenctl.ControlPlane.Errors.{validation, Result, ok, err, ◌>>◌, guard}
use odenctl.ControlPlane.Admission.{includes, check_listed, check_key, check_size, each}

-- A check passes if `P` holds and throws `validation` if it does not.
abbrev pub Decides : Result (Unit {0}) → Type 0 → Type 0
Decides check P = ((check ≡ ok tt) × P) ⊎ ((check ≡ err validation) × (P → ⊥))

pub Decides-guard :
    (b : Bool) (P : Type 0) → (b ≡ true → P) → (P → b ≡ true) → Decides (guard b validation) P
Decides-guard true P to from = inl (refl, to refl)
Decides-guard false P to from = inr (refl, λ p. absurd (cc (from p)))

pub Decides-map :
    (check : Result (Unit {0})) (P Q : Type 0)
    → Decides check P
    → (P → Q)
    → (Q → P)
    → Decides check Q
Decides-map check P Q (inl (e, p)) to from = inl (e, to p)
Decides-map check P Q (inr (e, n)) to from = inr (e, λ q. n (from q))

pub Decides-seq :
    (first second : Result (Unit {0})) (P Q : Type 0)
    → Decides first P
    → Decides second Q
    → Decides (first >> second) (P × Q)
Decides-seq first second P Q (inl (e, p)) (inl (f, q)) = inl (rw e f, (p, q))
Decides-seq first second P Q (inl (e, p)) (inr (f, n)) = inr (rw e f, λ h. n h.1)
Decides-seq first second P Q (inr (e, n)) d = inr (rw e refl, λ h. n h.0)

pub Decides-each :
    {A : Type 0} (check : A → Result (Unit {0})) (P : A → Type 0)
    → ((a : A) → Decides (check a) (P a))
    → (items : List A) → Decides (each check items) (All P items)
unfolding each
Decides-each check P d [] = inl (refl, tt)
Decides-each check P d (item ∷ items) =
    Decides-seq (check item) (each check items) (P item) (All P items) (d item)
      (Decides-each check P d items)

-- The policy says nothing, or lists the id.
abbrev pub IsListed : Option (List String) → String → Type 0
IsListed none id = Unit
IsListed (some allowed) id = Member id allowed

abbrev pub IsSmall : Option ℕ → ℕ → Type 0
IsSmall none size = Unit
IsSmall (some limit) size = size ≤ limit

-- The policy says nothing, or there is a signature by a listed key.
abbrev pub IsKeyed : Option (List String) → Option ArtifactSignature → Type 0
IsKeyed none signature = Unit
IsKeyed (some allowed) none = ⊥
IsKeyed (some allowed) (some signature) = (signature.key_id ≢ "") × Member signature.key_id allowed

abbrev pub IsSigned : Bool → Option ArtifactSignature → Type 0
IsSigned false signature = Unit
IsSigned true none = ⊥
IsSigned true (some signature) = Unit

includes-Member :
    (allowed : List String) (id : String) → includes allowed id ≡ true → Member id allowed
includes-Member allowed id h =
    let (a, m, e) = any-witness (λ a. a == id) allowed h in
    let same : a ≡ id = eq_of_beq a id e in rw (← same) m

Member-includes :
    (allowed : List String) (id : String) → Member id allowed → includes allowed id ≡ true
Member-includes allowed id m = any_of_Member (λ a. a == id) allowed id m (beq_refl id)

pub check_listed-Decides :
    (allowed : Option (List String)) (id : String)
    → Decides (check_listed allowed id) (IsListed allowed id)
unfolding check_listed
check_listed-Decides none id = inl (refl, tt)
check_listed-Decides (some allowed) id =
    Decides-guard (includes allowed id) (Member id allowed) (includes-Member allowed id)
      (Member-includes allowed id)

pub check_size-Decides :
    (limit : Option ℕ) (size : ℕ) → Decides (check_size limit size) (IsSmall limit size)
unfolding check_size
check_size-Decides none size = inl (refl, tt)
check_size-Decides (some limit) size =
    Decides-guard (leb size limit) (size ≤ limit) (leb→le size limit) (le→leb size limit)

pub check_key-Decides :
    (allowed : Option (List String)) (signature : Option ArtifactSignature)
    → Decides (check_key allowed signature) (IsKeyed allowed signature)
unfolding check_key
check_key-Decides none signature = inl (refl, tt)
check_key-Decides (some allowed) none = inr (refl, λ h. h)
check_key-Decides (some allowed) (some signature) =
    let id = signature.key_id in
    Decides-guard (not (id == "") && includes allowed id) ((id ≢ "") × Member id allowed)
      (λ h. (ne_of_beq id "" (ground arith), includes-Member allowed id (ground arith)))
      (λ (named, m). rw (beq_of_ne id "" named, Member-includes allowed id m) refl)

pub signature-Decides :
    (wanted : Bool) (signature : Option ArtifactSignature)
    → Decides (guard (not wanted || is_some signature) validation) (IsSigned wanted signature)
signature-Decides false signature = inl (refl, tt)
signature-Decides true none = inr (refl, λ h. h)
signature-Decides true (some signature) = inl (refl, tt)
