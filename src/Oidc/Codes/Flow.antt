-- ===== src/Oidc/Codes/Flow.antt =====
-- A code's whole way: issued, saved, and consumed with the verifier of its challenge.
use my_auth.Oidc.Codes.Consume.{consume-right}
use my_auth.Oidc.Code.Redeem.{is_unusable}
use my_auth.Dict.Laws.{get-put}
use my_auth.Dict.Sweep.{remove_all-IsUnique}
use my_auth.Dict.Unique.{put-IsUnique, IsUnique}
use my_auth.Dict.{keys_where, get}
use my_auth.Oidc.Codes.{is_stale, consume, with_code, Store, save, cleanup}
use my_auth.Equality.{beq_self, list_beq_iff, list_eq, option_eq, nat_eq, ◌==◌}
use my_auth.Result.{ok}
use my_auth.Oidc.Pkce.{create_s256_code_challenge, matches_code_verifier, validate_code_challenge}
use my_auth.Int.{ℤ}
use my_auth.Prelude.{
  sym, ap, ◌∙◌, refl, some, arith, ◌+◌, ◌≤◌, ◌<◌, any, true, false, Option, ◌≡◌, ℕ, List,
}
use my_auth.Text.{Bytes, codes, is_empty, Text}
use my_auth.Oidc.Code.{AuthorizationCode, issue}

module _ {User : Type 0} where
  -- What holds of an issued code.
  pub record Issued (client_id redirect_uri subject : Text) (nonce code_challenge : Text) (now : ℕ)
      (code : AuthorizationCode User) : Type 0 where
    pub client : code.client_id ≡ client_id
    pub redirect : code.redirect_uri ≡ redirect_uri
    pub whose : code.subject ≡ subject
    pub named : is_empty subject ≡ false
    pub challenge : code.code_challenge ≡ code_challenge
    pub alphabet : matches_code_verifier code.code_challenge ≡ true
    pub method : code.code_challenge_method ≡ codes "S256"
    pub openid : any (λ s. s == codes "openid") code.scope ≡ true
    pub replay : (code.nonce ≡ nonce) × (is_empty nonce ≡ false)
    pub lives : now < code.expires_at
    pub short : code.expires_at ≤ now + 600
    pub fresh : code.redeemed ≡ false

  module _ (client_id redirect_uri subject : Text) (scope : List Text) (nonce code_challenge : Text)
      (now : ℕ) (code_challenge_method : Text) (lifetime_seconds : ℤ) (auth_time : Option ℤ)
      (acr : Option Text) (amr : List Text) (user : Option User) (value : Option Text)
      (token : Text) where
    -- An issued code lives for one to six hundred seconds, is for the openid scope, has a subject and a
    -- nonce, and holds a challenge of the PKCE alphabet with the method S256.
    pub issue-Issued :
        {code : AuthorizationCode User}
        → issue client_id redirect_uri subject scope nonce code_challenge now code_challenge_method
            lifetime_seconds auth_time acr amr user value token
          ≡ ok code
        → Issued client_id redirect_uri subject nonce code_challenge now code
    unfolding issue validate_code_challenge
    issue-Issued {code} h = record {
      client = ground arith;
      redirect = ground arith;
      whose = ground arith;
      named = ground arith;
      challenge = ground arith;
      alphabet = ground arith;
      method = ground (arith, list_beq_iff code_challenge_method (codes "S256"));
      openid = ground arith;
      replay = (ground arith, ground arith);
      lives = ground arith;
      short = ground arith;
      fresh = ground arith;
    }

  saved :
      (code : AuthorizationCode User) (now : ℕ) (s : Store User)
      → (save code now s).1 ≡ ok tt
      → (save code now s).0 ≡ with_code code now (cleanup now s)
  unfolding save
  saved code now s h = ground arith

  save-IsUnique :
      (code : AuthorizationCode User) (now : ℕ) (s : Store User)
      → IsUnique s.codes
      → (save code now s).1 ≡ ok tt
      → IsUnique (save code now s).0.codes
  unfolding cleanup
  save-IsUnique code now s u h = rw (saved code now s h) (
      put-IsUnique (cleanup now s).codes code.value code
        (remove_all-IsUnique (keys_where (is_stale now) s.codes) s.codes u))

  save-get :
      (code : AuthorizationCode User) (now : ℕ) (s : Store User)
      → (save code now s).1 ≡ ok tt
      → get (save code now s).0.codes code.value ≡ some code
  save-get code now s h =
      rw
        (
          saved code now s h,
          get-put (cleanup now s).codes code.value code.value code,
          beq_self code.value,
        )
        refl

  module _ (sha256 : Bytes → Bytes) (client_id redirect_uri subject : Text) (scope : List Text)
      (nonce code_challenge : Text) (now : ℕ) (code_challenge_method : Text) (lifetime_seconds : ℤ)
      (auth_time : Option ℤ) (acr : Option Text) (amr : List Text) (user : Option User)
      (value : Option Text) (token : Text) where
    -- A code that was issued and saved is consumed, until it expires, by the client and at the
    -- redirect URI that it was issued for, with the verifier whose S256 challenge it holds; the answer
    -- is the code with its subject, marked as redeemed.
    pub consume-save-issue :
        (code_verifier : Text) (later : ℕ) (s : Store User) {code : AuthorizationCode User}
        → IsUnique s.codes
        → create_s256_code_challenge sha256 code_verifier ≡ ok code_challenge
        → issue client_id redirect_uri subject scope nonce code_challenge now code_challenge_method
            lifetime_seconds auth_time acr amr user value token
          ≡ ok code
        → (save code now s).1 ≡ ok tt
        → later < code.expires_at
        → ((consume sha256 code.value client_id redirect_uri code_verifier later
              (save code now s).0).1
            ≡ ok (record code { redeemed = true }))
          × (code.subject ≡ subject)
    consume-save-issue code_verifier later s {code} u proof h stored in_time =
        let i =
          issue-Issued client_id redirect_uri subject scope nonce code_challenge now
            code_challenge_method lifetime_seconds auth_time acr amr user value token h in
        (
          consume-right sha256 code.value client_id redirect_uri code_verifier later
              (save code now s).0 code (save-IsUnique code now s u stored)
              (save-get code now s stored) (proof ∙ ap ok (sym i.challenge)) i.alphabet (usable i),
          i.whose,
        )
      where
        usable :
            Issued client_id redirect_uri subject nonce code_challenge now code
            → is_unusable client_id redirect_uri later code ≡ false
        usable i = ground (
          arith,
          i.fresh,
          i.client,
          i.redirect,
          i.method,
          beq_self client_id,
          beq_self redirect_uri,
          beq_self (codes "S256"),
        )
