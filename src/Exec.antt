-- ===== src/Exec.antt =====
-- Methods that change an object and may raise: what was written before the raise stays written, so
-- the object comes back beside the error too.
use my_auth.Prelude.{refl, ◌≡◌}
use my_auth.Result.{Error, Result, ok, err}

abbrev pub Exec {ℓ} : Type ℓ → Type ℓ → Type ℓ
Exec S A = S → S × Result A

module _ {ℓ} {S A : Type ℓ} where
  abbrev pub pure : A → Exec S A
  pure a s = (s, ok a)

  abbrev pub raise : Error → Exec S A
  raise e s = (s, err e)

  -- A computation that does not touch the object.
  abbrev pub lift : Result A → Exec S A
  lift r s = (s, r)

abbrev pub modify {ℓ} : {S : Type ℓ} → (S → S) → Exec S (Unit {ℓ})
modify f s = (f s, ok tt)

module _ {ℓ} {S A B : Type ℓ} where
  abbrev resume : S × Result A → (A → Exec S B) → S × Result B
  resume (s, ok a) f = f a s
  resume (s, err e) f = (s, err e)

  infixl 5 ◌>>=◌ ◌>>◌
  abbrev pub ◌>>=◌ : Exec S A → (A → Exec S B) → Exec S B
  ◌>>=◌ m f s = resume (m s) f

  abbrev pub ◌>>◌ : Exec S A → Exec S B → Exec S B
  ◌>>◌ m k = m >>= λ _. k

-- A sequence that gives a value: its first part gave one, and so did the rest from there.
pub bind_ok {ℓ} :
    {S A B : Type ℓ} (s : S) (r : Result A) (f : A → Exec S B) {t : S} {b : B}
    → resume (s, r) f ≡ (t, ok b)
    → (a : A) × (r ≡ ok a) × (f a s ≡ (t, ok b))
bind_ok s (ok a) f h = (a, refl, h)
bind_ok s (err e) f h = absurd (cc)
