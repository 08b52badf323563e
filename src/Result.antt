-- ===== src/Result.antt =====
-- The exceptions that the program raises and catches, and computations that may raise.
use my_auth.Prelude.{Bool, true, false, ◌≡◌, refl, ◌⊎◌, inl, inr}

pub data Error : Type 0 where
  value_error overflow_error integrity_error runtime_error permission_error operational_error :
      Error
  challenge_not_found credential_not_found mutation_denied user_handle_mismatch : Error
  user_conflict credential_conflict counter_conflict capability_not_found : Error
  configuration_error protocol_error webauthn_error type_error attribute_error : Error

pub data Result {ℓ} (A : Type ℓ) : Type ℓ where
  ok : A → Result A
  err : Error → Result A

abbrev pub is_ok {ℓ} : {A : Type ℓ} → Result A → Bool
is_ok (ok a) = true
is_ok (err e) = false

infixl 5 ◌>>=◌ ◌>>◌
abbrev pub ◌>>=◌ {ℓ κ} : {A : Type ℓ} {B : Type κ} → Result A → (A → Result B) → Result B
ok value >>= next = next value
err e >>= next = err e

abbrev pub ◌>>◌ {ℓ} : {B : Type ℓ} → Result (Unit {0}) → Result B → Result B
ok done >> k = k
err e >> k = err e

-- `if b: raise e`
abbrev pub raise_if : Bool → Error → Result (Unit {0})
raise_if true e = err e
raise_if false e = ok tt

pub Result-cases {ℓ} :
    {A : Type ℓ} (r : Result A) → ((a : A) × (r ≡ ok a)) ⊎ ((e : Error) × (r ≡ err e))
Result-cases (ok a) = inl (a, refl)
Result-cases (err e) = inr (e, refl)

-- A sequence that gives a value: its first part gave one, and so did the rest from there.
pub bind_ok {ℓ κ} :
    {A : Type ℓ} {B : Type κ} (r : Result A) (f : A → Result B) {b : B}
    → r >>= f ≡ ok b
    → (a : A) × (r ≡ ok a) × (f a ≡ ok b)
bind_ok (ok a) f h = (a, refl, h)
bind_ok (err e) f h = absurd (cc)

pub raise_if-ok : (b : Bool) (e : Error) → raise_if b e ≡ ok tt → b ≡ false
raise_if-ok true e h = absurd (cc)
raise_if-ok false e h = refl

-- What follows a check ran, since the check passed.
pub guard_ok {ℓ} :
    {A : Type ℓ} (b : Bool) (e : Error) (next : Result A) {a : A}
    → raise_if b e >> next ≡ ok a
    → (b ≡ false) × (next ≡ ok a)
guard_ok true e next h = absurd (cc)
guard_ok false e next h = (refl, h)

pub then_ok {ℓ} :
    {A : Type ℓ} (r : Result (Unit {0})) (next : Result A) {a : A}
    → r >> next ≡ ok a
    → (r ≡ ok tt) × (next ≡ ok a)
then_ok (ok done) next h = (refl, h)
then_ok (err e) next h = absurd (cc)

pub ok_injective {ℓ} : {A : Type ℓ} {a b : A} → ok a ≡ ok b → a ≡ b
ok_injective h = cc
