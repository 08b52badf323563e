-- ===== src/Oidc/Tokens/Revoked.antt =====
-- What a revocation changes for the look-up of tokens.
use my_auth.Dict.Laws.{get-put}
use my_auth.Equality.{nat_eq, list_eq, option_eq, beq_self, ◌==◌}
use my_auth.Dict.{get}
use my_auth.Result.{ok}
use my_auth.Prelude.{refl, ap, true, if◌then◌else◌, Bool, some, none, false, ◌≡◌, Option, ℕ}
use my_auth.Text.{is_empty, Text, Bytes}
use my_auth.Oidc.Tokens.{
  revoke_key, TokenRecord, Tokens, live, token_key, get_access_token, revoke_access_token,
  revoke_found, look_up,
}

module _ {User : Type 0} where
  revoked_live :
      (key : Text) (current : ℕ) (found : Option (TokenRecord User)) (s : Tokens User)
      → get s key ≡ found
      → live current (get (revoke_found key found s).0 key) ≡ none
  unfolding live revoke_found
  revoked_live key current none s e = rw e refl
  revoked_live key current (some r) s e =
      rw (get-put s key key (record r { revoked = true }), beq_self key) refl

  kept_live :
      (key other : Text) (current : ℕ) (found : Option (TokenRecord User)) (s : Tokens User)
      → (key == other) ≡ false
      → get (revoke_found key found s).0 other ≡ get s other
  unfolding revoke_found
  kept_live key other current none s apart = refl
  kept_live key other current (some r) s apart =
      rw (get-put s key other (record r { revoked = true }), apart) refl

  -- For two tokens whose values can be encoded and have different keys: after the revocation of the
  -- first, known or not, no look-up finds it at any time, and the look-up of the other answers as
  -- before.
  pub get_access_token-revoke_access_token :
      (sha256 : Bytes → Bytes) (token other : Text) (current : ℕ) (s : Tokens User)
      {key other_key : Text}
      → token_key sha256 token ≡ ok key
      → token_key sha256 other ≡ ok other_key
      → (key == other_key) ≡ false
      → let t = (revoke_access_token sha256 token s).0 in
        (get_access_token sha256 token current t ≡ ok none)
        × (get_access_token sha256 other current t ≡ get_access_token sha256 other current s)
  unfolding get_access_token revoke_access_token
  get_access_token-revoke_access_token sha256 token other current s {key} {other_key} e f apart =
      (gone (is_empty token), same (is_empty other))
    where
      gone :
          (b : Bool)
          → (if b
              then ok none
              else look_up current
                  (token_key sha256 token)
                  (revoke_key (token_key sha256 token) s).0)
            ≡ ok none
      gone true = refl
      gone false = rw e (ap ok (revoked_live key current (get s key) s refl))

      same :
          (b : Bool)
          → (if b
              then ok none
              else look_up current
                  (token_key sha256 other)
                  (revoke_key (token_key sha256 token) s).0)
            ≡ (if b then ok none else look_up current (token_key sha256 other) s)
      same true = refl
      same false =
          rw (e, f)
            (ap (λ r. ok (live current r)) (kept_live key other_key current (get s key) s apart))
