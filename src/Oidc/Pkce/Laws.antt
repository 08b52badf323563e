-- ===== src/Oidc/Pkce/Laws.antt =====
-- When a verifier's challenge is defined, and when two digests compare equal.
use my_auth.Equality.{list_eq, nat_eq, option_eq, beq_self, list_beq_iff}
use my_auth.Result.{ok}
use my_auth.Prelude.{refl, ltb, [], arith, ◌∷◌, true, List, Bool, ◌≡◌, all}
use my_auth.Text.{Text, Bytes}
use my_auth.Oidc.Pkce.{
  validate_code_verifier, create_s256_code_challenge, compare_digest, matches_code_verifier,
  is_unreserved,
}

pub create-validate :
    (sha256 : Bytes → Bytes) (verifier : Text) {c : Text}
    → create_s256_code_challenge sha256 verifier ≡ ok c
    → validate_code_verifier verifier ≡ ok verifier
unfolding create_s256_code_challenge validate_code_verifier
create-validate sha256 verifier h = ground arith

pub validate-same :
    (verifier : Text) {v : Text} → validate_code_verifier verifier ≡ ok v → v ≡ verifier
unfolding validate_code_verifier
validate-same verifier h = ground arith

pub compare_digest-equal : (a b : Text) → compare_digest a b ≡ ok true → a ≡ b
unfolding compare_digest
compare_digest-equal a b h = ground (arith, list_beq_iff a b)

all_mono {ℓ} :
    {A : Type ℓ} (p q : A → Bool) (xs : List A)
    → ((x : A) → p x ≡ true → q x ≡ true)
    → all p xs ≡ true
    → all q xs ≡ true
unfolding all
all_mono p q [] f h = refl
all_mono p q (x ∷ xs) f h = ground (arith, f x, all_mono p q xs f)

-- A challenge of the PKCE alphabet is ASCII, and so compares equal to itself.
pub compare_digest_self : (a : Text) → matches_code_verifier a ≡ true → compare_digest a a ≡ ok true
unfolding compare_digest matches_code_verifier
compare_digest_self a h =
    ground (arith, beq_self a, all_mono is_unreserved (λ c. ltb c 128) a (λ c u. ground arith))
