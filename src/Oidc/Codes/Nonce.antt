-- ===== src/Oidc/Codes/Nonce.antt =====
-- A nonce counts as used from the moment its code is saved until the code would have expired, also
-- when the code was consumed before.
use my_auth.Dict.Laws.{get-put}
use my_auth.Equality.{beq_self, nat_eq, list_eq, option_eq}
use my_auth.Equality.{pair_eq}
use my_auth.Oidc.Code.Redeem.{redeem}
use my_auth.Dict.Sweep.{get-sweep, drop_if}
use my_auth.Dict.{get}
use my_auth.Result.{err, ok, Result}
use my_auth.Dict.Unique.{IsUnique}
use my_auth.Prelude.{arith, suc, refl, leb, max, none, ltb, ◌≤◌, some, ◌≡◌, Option, ℕ}
use my_auth.Text.{Bytes, Text}
use my_auth.Oidc.Code.{AuthorizationCode}
use my_auth.Oidc.Codes.{
  Store, cleanup, save, consume, consume_found, consume_redeemed, has_nonce, is_over,
}

over_after :
    (now later : ℕ) (found : Option ℕ)
    → now ≤ later
    → is_over later (drop_if (λ t. leb t now) found) ≡ is_over later found
over_after now later none h = refl
over_after now later (some t) h = ground arith

module _ {User : Type 0} where
  -- From the moment a code was saved its nonce counts as used for its client exactly until the code
  -- expires, and for the second of the save at least.
  pub has_nonce-save :
      (code : AuthorizationCode User) (now current : ℕ) (s : Store User)
      → (save code now s).1 ≡ ok tt
      → (has_nonce code.client_id code.nonce current (save code now s).0).1
        ≡ ltb current (max code.expires_at (suc now))
  unfolding save has_nonce
  has_nonce-save code now current s h = ground (
    arith,
    get-put (cleanup now s).nonce_expiry (code.client_id, code.nonce) (code.client_id, code.nonce)
        (max code.expires_at (suc now)),
    beq_self {A = Text × Text} (code.client_id, code.nonce),
  )

  consume_redeemed-nonce :
      (value : Text) (s : Store User) (p : AuthorizationCode User × Result Text)
      → (consume_redeemed value s p).0.nonce_expiry ≡ s.nonce_expiry
  unfolding consume_redeemed
  consume_redeemed-nonce value s (code, ok subject) = refl
  consume_redeemed-nonce value s (code, err x) = refl

  consume_found-nonce :
      (sha256 : Bytes → Bytes) (value client_id redirect_uri code_verifier : Text) (now : ℕ)
      (found : Option (AuthorizationCode User)) (s : Store User)
      → (consume_found sha256 value client_id redirect_uri code_verifier now found s).0.nonce_expiry
        ≡ s.nonce_expiry
  unfolding consume_found
  consume_found-nonce sha256 value client_id redirect_uri code_verifier now none s = refl
  consume_found-nonce sha256 value client_id redirect_uri code_verifier now (some c) s =
      consume_redeemed-nonce value s (redeem sha256 client_id redirect_uri code_verifier now c)

  -- A consumption, whether it succeeds or not, makes no nonce forgotten that is still remembered: what
  -- is answered for a nonce at that time or later is the same as without the consumption.
  pub has_nonce-consume :
      (sha256 : Bytes → Bytes) (value client_id redirect_uri code_verifier : Text) (now : ℕ)
      (nonce_client nonce : Text) (later : ℕ) (s : Store User)
      → IsUnique s.nonce_expiry
      → now ≤ later
      → (has_nonce nonce_client nonce later
          (consume sha256 value client_id redirect_uri code_verifier now s).0).1
        ≡ (has_nonce nonce_client nonce later s).1
  unfolding has_nonce consume cleanup
  has_nonce-consume sha256 value client_id redirect_uri code_verifier now nonce_client nonce later s
        u h =
      rw
        (
          consume_found-nonce sha256 value client_id redirect_uri code_verifier now
              (get (cleanup now s).codes value) (cleanup now s),
          get-sweep (λ t. leb t now) s.nonce_expiry (nonce_client, nonce) u,
        )
        (ground (arith, over_after now later (get s.nonce_expiry (nonce_client, nonce)) h))
