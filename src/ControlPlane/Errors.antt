-- ===== src/ControlPlane/Errors.antt =====
-- control-plane/errors.ts: a function that may throw a `ControlPlaneError` returns a `Result`. The
-- texts of the messages are not modelled.
use odenctl.Prelude.{ℕ, ◌≡◌, refl, Bool, true, false, Option, none, some, arith}

pub data ControlPlaneErrorCode : Type 0 where
  validation not_found conflict : ControlPlaneErrorCode

-- a value, or the code of the error that is thrown
pub data Result {ℓ} (T : Type ℓ) : Type ℓ where
  err : ControlPlaneErrorCode → Result T
  ok : T → Result T

-- `if (!condition) throw ...`
abbrev pub guard : Bool → ControlPlaneErrorCode → Result (Unit {0})
guard false code = err code
guard true code = ok tt

-- `if (!value) throw ...`
abbrev pub require {ℓ} : {T : Type ℓ} → Option T → ControlPlaneErrorCode → Result T
require (some value) code = ok value
require none code = err code

unfoldable pub code_to_status : ControlPlaneErrorCode → ℕ
code_to_status validation = 400
code_to_status not_found = 404
code_to_status conflict = 409

infixl 5 ◌>>=◌ ◌>>◌
abbrev pub ◌>>=◌ {ℓ κ} : {S : Type ℓ} {T : Type κ} → Result S → (S → Result T) → Result T
err code >>= next = err code
ok value >>= next = next value

abbrev pub ◌>>◌ {ℓ} : {T : Type ℓ} → Result (Unit {0}) → Result T → Result T
check >> next = check >>= λ done. next

-- A sequence that returns: so did its first call, and the rest on what that returned.
pub >>=-eq-ok {ℓ κ} :
    {S : Type ℓ} {T : Type κ} (first : Result S) (next : S → Result T) {last : T}
    → (first >>= next) ≡ ok last
    → (value : S) × (first ≡ ok value) × (next value ≡ ok last)
>>=-eq-ok (err code) next h = cc
>>=-eq-ok (ok value) next h = (value, refl, h)

pub ok_injective {ℓ} : {A : Type ℓ} {a b : A} → ok a ≡ ok b → a ≡ b
ok_injective h = cc

-- A check that passed.
pub require-ok {ℓ} :
    {A : Type ℓ} (code : ControlPlaneErrorCode) (o : Option A) {a : A}
    → require o code ≡ ok a
    → o ≡ some a
require-ok code none h = cc
require-ok code (some b) h = ground arith

pub guard-ok :
    (code : ControlPlaneErrorCode) (b : Bool) {u : Unit {0}} → guard b code ≡ ok u → b ≡ true
guard-ok code true h = refl
guard-ok code false h = cc
