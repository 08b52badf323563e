-- ===== src/Oidc/Code/Redeem/Laws.antt =====
-- Exactly when a redemption succeeds, and that a refused one leaves the code as it was.
use my_auth.Equality.{nat_eq, option_eq, list_eq, list_beq_iff}
use my_auth.Prelude.{ap, Bool-cases, inl, refl, inr, ◌<◌, true, arith, false, ◌≡◌, Bool, ℕ}
use my_auth.Result.{Result-cases, ok, err, Error, Result}
use my_auth.Text.{codes, Text, Bytes}
use my_auth.Oidc.Code.{AuthorizationCode}
use my_auth.Oidc.Code.Redeem.{redeem, is_unusable, redeem_compared, redeem_actual}
use my_auth.Oidc.Pkce.{
  matches_code_verifier, create_s256_code_challenge, compare_digest, validate_code_verifier,
}
use my_auth.Oidc.Pkce.Laws.{
  create-validate, validate-same, compare_digest-equal, compare_digest_self,
}

module _ {User : Type 0} where
  -- What holds when a code was redeemed.
  pub record Redeemed (sha256 : Bytes → Bytes) (client_id redirect_uri code_verifier : Text)
      (now : ℕ) (code redeemed : AuthorizationCode User) : Type 0 where
    pub fresh : code.redeemed ≡ false
    pub unexpired : now < code.expires_at
    pub client : code.client_id ≡ client_id
    pub redirect : code.redirect_uri ≡ redirect_uri
    pub method : code.code_challenge_method ≡ codes "S256"
    pub proof : create_s256_code_challenge sha256 code_verifier ≡ ok code.code_challenge
    pub marked : redeemed ≡ record code { redeemed = true }

  redeem_compared-ok :
      (actual : Text) (r : Result Bool) (code d : AuthorizationCode User) {subject : Text}
      → compare_digest actual code.code_challenge ≡ r
      → redeem_compared r code ≡ (d, ok subject)
      → (actual ≡ code.code_challenge)
        × (d ≡ record code { redeemed = true })
        × (subject ≡ code.subject)
  unfolding redeem_compared
  redeem_compared-ok actual (ok true) code d e h =
      (compare_digest-equal actual code.code_challenge e, ground arith, ground arith)
  redeem_compared-ok actual (ok false) code d e h = absurd (ground arith)
  redeem_compared-ok actual (err x) code d e h = absurd (ground arith)

  pub redeem-Redeemed :
      (sha256 : Bytes → Bytes) (client_id redirect_uri code_verifier : Text) (now : ℕ)
      (code : AuthorizationCode User) {d : AuthorizationCode User} {subject : Text}
      → redeem sha256 client_id redirect_uri code_verifier now code ≡ (d, ok subject)
      → Redeemed sha256 client_id redirect_uri code_verifier now code d × (subject ≡ code.subject)
  unfolding redeem redeem_actual
  redeem-Redeemed sha256 client_id redirect_uri code_verifier now code {d} h =
      elim (Result-cases (validate_code_verifier code_verifier)) [
        | inr (x, e) ↦ absurd (ground arith)
        | inl (verifier, e) ↦
            let same : verifier ≡ code_verifier = validate-same code_verifier e in
            elim (Result-cases (create_s256_code_challenge sha256 verifier)) [
              | inr (x, f) ↦ absurd (ground arith)
              | inl (actual, f) ↦ elim (Bool-cases (is_unusable client_id redirect_uri now code)) [
                | inl bad ↦ absurd (ground arith)
                | inr good ↦
                    let done = redeem_compared-ok actual _ code d refl (ground arith) in
                    (
                      record {
                        fresh = ground arith;
                        unexpired = ground arith;
                        client = ground (arith, list_beq_iff code.client_id client_id);
                        redirect = ground (arith, list_beq_iff code.redirect_uri redirect_uri);
                        method =
                            ground (arith, list_beq_iff code.code_challenge_method (codes "S256"));
                        proof = rw (← same, f) (ap ok done.0);
                        marked = done.1;
                      },
                      done.2,
                    )
              ]
            ]
      ]

  redeem_compared-err :
      (r : Result Bool) (code d : AuthorizationCode User) {x : Error}
      → redeem_compared r code ≡ (d, err x)
      → d ≡ code
  unfolding redeem_compared
  redeem_compared-err (ok true) code d h = absurd (ground arith)
  redeem_compared-err (ok false) code d h = ground arith
  redeem_compared-err (err x) code d h = ground arith

  -- A refused redemption leaves the code as it was.
  pub redeem-refused :
      (sha256 : Bytes → Bytes) (client_id redirect_uri code_verifier : Text) (now : ℕ)
      (code : AuthorizationCode User) {d : AuthorizationCode User} {x : Error}
      → redeem sha256 client_id redirect_uri code_verifier now code ≡ (d, err x)
      → d ≡ code
  unfolding redeem redeem_actual
  redeem-refused sha256 client_id redirect_uri code_verifier now code {d} {x} h =
      elim (Result-cases (validate_code_verifier code_verifier)) [
        | inr (y, e) ↦ ground arith
        | inl (verifier, e) ↦ elim (Result-cases (create_s256_code_challenge sha256 verifier)) [
          | inr (y, f) ↦ ground arith
          | inl (actual, f) ↦ elim (Bool-cases (is_unusable client_id redirect_uri now code)) [
            | inl bad ↦ ground arith
            | inr good ↦
                redeem_compared-err (compare_digest actual code.code_challenge) code d {x = x}
                  (ground arith)
          ]
        ]
      ]

  -- The right client with the right verifier redeems a usable code.
  pub redeem-right :
      (sha256 : Bytes → Bytes) (client_id redirect_uri code_verifier : Text) (now : ℕ)
      (code : AuthorizationCode User)
      → create_s256_code_challenge sha256 code_verifier ≡ ok code.code_challenge
      → matches_code_verifier code.code_challenge ≡ true
      → is_unusable client_id redirect_uri now code ≡ false
      → redeem sha256 client_id redirect_uri code_verifier now code
        ≡ (record code { redeemed = true }, ok code.subject)
  unfolding redeem redeem_actual redeem_compared
  redeem-right sha256 client_id redirect_uri code_verifier now code proof alphabet good =
      rw
        (
          create-validate sha256 code_verifier proof,
          proof,
          good,
          compare_digest_self code.code_challenge alphabet,
        )
        refl
