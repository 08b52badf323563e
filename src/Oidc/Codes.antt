-- ===== src/Oidc/Codes.antt =====
-- my_auth/oidc.py, `MemoryAuthorizationCodeStore`: the issued codes by value, and until when a
-- client's nonce counts as used. A method runs under the store's lock; the code that `get` hands out
-- is read as the value that it has then.
pub mod Consume
pub mod Nonce
pub mod Once
pub mod Flow
use my_auth.Oidc.Code.Redeem.{is_expired, redeem}
use my_auth.Equality.{◌==◌, list_eq, nat_eq, option_eq}
use my_auth.Result.{protocol_error, permission_error, ok, err, Result}
use my_auth.Exec.{Exec}
use my_auth.Prelude.{
  ◌||◌, false, none, is_some, not, suc, true, some, leb, if◌then◌else◌, ◌&&◌, max, Bool, Option, ℕ,
}
use my_auth.Dict.{remove, get, put, remove_all, Dict, keys_where}
use my_auth.Text.{Bytes, Text}
use my_auth.Oidc.Code.{AuthorizationCode}
use my_auth.Equality.{pair_eq}

pub record Store (User : Type 0) : Type 0 where
  pub codes : Dict Text (AuthorizationCode User)
  pub nonce_expiry : Dict (Text × Text) ℕ

-- expires_at is None or expires_at <= current
abbrev pub is_over : ℕ → Option ℕ → Bool
is_over current none = true
is_over current (some expires_at) = leb expires_at current

module _ {User : Type 0} where
  -- code.is_expired(now=now) and not code.redeemed
  abbrev pub is_stale : ℕ → AuthorizationCode User → Bool
  is_stale now code = is_expired now code && not code.redeemed

  unfoldable pub cleanup : ℕ → Store User → Store User
  unfolding keys_where remove_all
  cleanup now s = record {
    codes = remove_all (keys_where (is_stale now) s.codes) s.codes;
    nonce_expiry = remove_all (keys_where (λ t. leb t now) s.nonce_expiry) s.nonce_expiry;
  }

  -- self._codes[code.value] = code, and its nonce
  abbrev pub with_code : AuthorizationCode User → ℕ → Store User → Store User
  with_code code now s = record {
    codes = put s.codes code.value code;
    nonce_expiry = put s.nonce_expiry (code.client_id, code.nonce) (max code.expires_at (suc now));
  }

  unfoldable pub save : AuthorizationCode User → ℕ → Exec (Store User) (Unit {0})
  unfolding cleanup
  save code now s =
      if is_some (get (cleanup now s).codes code.value)
      then (cleanup now s, err protocol_error)
      else (with_code code now (cleanup now s), ok tt)

  -- The code that was looked up, unless it is another client's, redeemed or expired.
  unfoldable pub available :
      Text → ℕ → Option (AuthorizationCode User) → Option (AuthorizationCode User)
  available client_id now none = none
  available client_id now (some code) =
      if not (code.client_id == client_id) || code.redeemed || is_expired now code
      then none
      else some code

  unfoldable pub get_code :
      Text → Text → ℕ → Store User → Store User × Option (AuthorizationCode User)
  unfolding cleanup available
  get_code value client_id now s =
      (cleanup now s, available client_id now (get (cleanup now s).codes value))

  -- `redeem` changes the stored object; without an exception the code leaves the store.
  unfoldable pub consume_redeemed :
      Text
      → Store User
      → AuthorizationCode User × Result Text
      → Store User × Result (AuthorizationCode User)
  consume_redeemed value s (code, ok subject) = (record s { codes = remove s.codes value }, ok code)
  consume_redeemed value s (code, err e) = (record s { codes = put s.codes value code }, err e)

  module _ (sha256 : Bytes → Bytes) where
    unfoldable pub consume_found :
        Text
        → Text
        → Text
        → Text
        → ℕ
        → Option (AuthorizationCode User)
        → Exec (Store User) (AuthorizationCode User)
    unfolding redeem consume_redeemed
    consume_found value client_id redirect_uri code_verifier now none s = (s, err permission_error)
    consume_found value client_id redirect_uri code_verifier now (some code) s =
        consume_redeemed value s (redeem sha256 client_id redirect_uri code_verifier now code)

    unfoldable pub consume :
        Text → Text → Text → Text → ℕ → Exec (Store User) (AuthorizationCode User)
    unfolding cleanup consume_found
    consume value client_id redirect_uri code_verifier now s =
        consume_found value client_id redirect_uri code_verifier now
          (get (cleanup now s).codes value) (cleanup now s)

  unfoldable pub has_nonce : Text → Text → ℕ → Store User → Store User × Bool
  has_nonce client_id nonce current s =
      if is_over current (get s.nonce_expiry (client_id, nonce))
      then (record s { nonce_expiry = remove s.nonce_expiry (client_id, nonce) }, false)
      else (s, true)
