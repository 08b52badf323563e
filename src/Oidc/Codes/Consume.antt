-- ===== src/Oidc/Codes/Consume.antt =====
-- What a consumption of the memory code store does when it succeeds and when it does not.
use my_auth.Oidc.Pkce.{matches_code_verifier, create_s256_code_challenge}
use my_auth.Dict.Unique.{IsUnique}
use my_auth.Dict.Laws.{get-remove}
use my_auth.Equality.{beq_self, option_eq, list_eq, nat_eq}
use my_auth.Dict.Sweep.{get-sweep, get-remove_all-none, get-remove_all-some}
use my_auth.Dict.{keys_where, remove, get}
use my_auth.Result.{permission_error, err, ok, Result}
use my_auth.Text.{Bytes, Text}
use my_auth.Prelude.{false, true, refl, sym, ap, none, arith, some, Option, ◌≡◌, ℕ}
use my_auth.Oidc.Code.{AuthorizationCode}
use my_auth.Oidc.Code.Redeem.{redeem, is_unusable}
use my_auth.Oidc.Code.Redeem.Laws.{Redeemed, redeem-Redeemed, redeem-right}
use my_auth.Oidc.Codes.{
  available, get_code, Store, cleanup, consume, consume_found, consume_redeemed, is_stale,
}

module _ {User : Type 0} where
  -- What holds when a code was consumed.
  pub record CodeConsumed (sha256 : Bytes → Bytes)
      (value client_id redirect_uri code_verifier : Text) (now : ℕ) (s t : Store User)
      (code : AuthorizationCode User) : Type 0 where
    pub before : AuthorizationCode User
    pub found : get s.codes value ≡ some before
    pub redeemed : Redeemed sha256 client_id redirect_uri code_verifier now before code
    pub gone : get t.codes value ≡ none

  consume_redeemed-ok :
      (value : Text) (s t : Store User) (code d : AuthorizationCode User) (r : Result Text)
      → consume_redeemed value s (d, r) ≡ (t, ok code)
      → (subject : Text) × (r ≡ ok subject) × (d ≡ code) × (t.codes ≡ remove s.codes value)
  unfolding consume_redeemed
  consume_redeemed-ok value s t code d (ok subject) h =
      (subject, refl, ground arith, ap (λ p. (p.0).codes) (sym h))
  consume_redeemed-ok value s t code d (err x) h = absurd (ground arith)

  consume_found-ok :
      (sha256 : Bytes → Bytes) (value client_id redirect_uri code_verifier : Text) (now : ℕ)
      (s u : Store User) (found : Option (AuthorizationCode User)) {t : Store User}
      {code : AuthorizationCode User}
      → ((c : AuthorizationCode User) → found ≡ some c → get s.codes value ≡ some c)
      → consume_found sha256 value client_id redirect_uri code_verifier now found u ≡ (t, ok code)
      → CodeConsumed sha256 value client_id redirect_uri code_verifier now s t code
  unfolding consume_found
  consume_found-ok sha256 value client_id redirect_uri code_verifier now s u none old h =
      absurd (ground arith)
  consume_found-ok sha256 value client_id redirect_uri code_verifier now s u (some c) {t} {code} old
        h =
      let r = redeem sha256 client_id redirect_uri code_verifier now c in
      let (subject, e, same, rest) = consume_redeemed-ok value u t code r.0 r.1 h in
      let whole : r ≡ (code, ok subject) = ground arith in
      record {
        before = c;
        found = old c refl;
        redeemed = (redeem-Redeemed sha256 client_id redirect_uri code_verifier now c whole).0;
        gone = rw (rest, get-remove u.codes value value, beq_self value) refl;
      }

  cleanup-found :
      (now : ℕ) (s : Store User) (value : Text) (c : AuthorizationCode User)
      → get (cleanup now s).codes value ≡ some c
      → get s.codes value ≡ some c
  unfolding cleanup
  cleanup-found now s value c h =
      get-remove_all-some (keys_where (is_stale now) s.codes) s.codes value c h

  cleanup-gone :
      (now : ℕ) (s : Store User) (value : Text)
      → get s.codes value ≡ none
      → get (cleanup now s).codes value ≡ none
  unfolding cleanup
  cleanup-gone now s value h =
      get-remove_all-none (keys_where (is_stale now) s.codes) s.codes value h

  -- A code is only consumed by the client it was issued to, at the redirect URI it was issued for,
  -- with the verifier of its challenge, unredeemed and before it expires; it leaves the store.
  pub consume-CodeConsumed :
      (sha256 : Bytes → Bytes) (value client_id redirect_uri code_verifier : Text) (now : ℕ)
      (s : Store User) {t : Store User} {code : AuthorizationCode User}
      → consume sha256 value client_id redirect_uri code_verifier now s ≡ (t, ok code)
      → CodeConsumed sha256 value client_id redirect_uri code_verifier now s t code
  unfolding consume
  consume-CodeConsumed sha256 value client_id redirect_uri code_verifier now s h =
      consume_found-ok sha256 value client_id redirect_uri code_verifier now s (cleanup now s) _
        (λ c e. cleanup-found now s value c e) h

  -- A consumed code cannot be consumed again, nor looked up, by anybody at any time.
  pub consume-consume :
      (sha256 : Bytes → Bytes) (value client_id redirect_uri code_verifier : Text) (now : ℕ)
      (other_client other_redirect other_verifier : Text) (later : ℕ) (s : Store User)
      {t : Store User} {code : AuthorizationCode User}
      → consume sha256 value client_id redirect_uri code_verifier now s ≡ (t, ok code)
      → ((consume sha256 value other_client other_redirect other_verifier later t).1
          ≡ err permission_error)
        × ((get_code value other_client later t).1 ≡ none)
  unfolding consume consume_found get_code available
  consume-consume sha256 value client_id redirect_uri code_verifier now other_client other_redirect
        other_verifier later s {t} h =
      let c = consume-CodeConsumed sha256 value client_id redirect_uri code_verifier now s h in
      let gone = cleanup-gone later t value c.gone in (rw gone refl, rw gone refl)

  -- A code that is stored, usable and issued with the PKCE alphabet is consumed by its client with the
  -- right verifier: the call answers with the code, now marked as redeemed.
  pub consume-right :
      (sha256 : Bytes → Bytes) (value client_id redirect_uri code_verifier : Text) (now : ℕ)
      (s : Store User) (code : AuthorizationCode User)
      → IsUnique s.codes
      → get s.codes value ≡ some code
      → create_s256_code_challenge sha256 code_verifier ≡ ok code.code_challenge
      → matches_code_verifier code.code_challenge ≡ true
      → is_unusable client_id redirect_uri now code ≡ false
      → (consume sha256 value client_id redirect_uri code_verifier now s).1
        ≡ ok (record code { redeemed = true })
  unfolding consume consume_found consume_redeemed cleanup
  consume-right sha256 value client_id redirect_uri code_verifier now s code u found proof alphabet
        good =
      let kept : get (cleanup now s).codes value ≡ some code =
        (ground (arith, get-sweep (is_stale now) s.codes value u)) in
      rw
        (
          kept,
          redeem-right sha256 client_id redirect_uri code_verifier now code proof alphabet good,
        )
        refl
