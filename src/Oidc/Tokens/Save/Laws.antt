-- ===== src/Oidc/Tokens/Save/Laws.antt =====
-- A saved token is found until it expires.
use my_auth.Dict.Laws.{get-put}
use my_auth.Equality.{beq_self, option_eq, list_eq, nat_eq}
use my_auth.Dict.{put}
use my_auth.Oidc.Tokens.{token_key, Tokens, live, get_access_token, TokenRecord}
use my_auth.Oidc.Client.{OidcClient}
use my_auth.Prelude.{
  ap, Bool-cases, inl, inr, some, none, if◌then◌else◌, refl, arith, leb, not, false, ◌≡◌, Option, ℕ,
}
use my_auth.Int.{negsuc, pos, ℤ}
use my_auth.Text.{Bytes, is_empty, codes, Text}
use my_auth.Oidc.Tokens.Save.{
  refresh_token_of, later_than, expires_at_of, token_type_of, is_bearer, access_token_of,
  TokenValue, value_of, TokenMapping, token_record, save,
}
use my_auth.Result.{Result-cases, protocol_error, ok, Result, guard_ok, bind_ok, ok_injective}

access_token_of-text :
    (v : TokenValue) {access : Text}
    → access_token_of v ≡ ok access
    → (v ≡ TokenValue.text access) × (is_empty access ≡ false)
access_token_of-text TokenValue.null h = absurd (cc)
access_token_of-text (TokenValue.text s) {access} h = elim (Bool-cases (is_empty s)) [
  | inl nothing ↦ absurd (ground arith)
  | inr something ↦
      let same : s ≡ access = ground arith in (ap TokenValue.text same, rw (← same) something)
]
access_token_of-text (TokenValue.number s n) h = absurd (cc)
access_token_of-text (TokenValue.sequence s items) h = absurd (cc)
access_token_of-text (TokenValue.object s) h = absurd (cc)

later_than-later :
    (now : ℕ) (raw : ℤ) {ends : ℕ} → later_than now raw ≡ ok ends → leb ends now ≡ false
later_than-later now (pos n) h = ground arith
later_than-later now (negsuc n) h = absurd (cc)

module _ {User : Type 0} where
  -- The record of an accepted mapping.
  token_record-fields :
      (int : Text → Result ℤ) (token : TokenMapping) (client_id subject : Text) (now : ℕ)
      (user : Option User) (client : Option OidcClient) {r : TokenRecord User}
      → token_record int token client_id subject now user client ≡ ok r
      → (value_of (token (codes "access_token")) ≡ TokenValue.text r.access_token)
        × (is_empty r.access_token ≡ false)
        × (r.client_id ≡ client_id)
        × (r.subject ≡ subject)
        × (r.revoked ≡ false)
        × (leb r.expires_at now ≡ false)
  unfolding token_record
  token_record-fields int token client_id subject now user client {r} h =
      let (access, a, h1) =
        bind_ok (access_token_of (value_of (token (codes "access_token")))) _ h in
      let (b, h2) =
        guard_ok (not (is_bearer (token_type_of (token (codes "token_type"))))) protocol_error _
          h1 in
      let (raw, c, h3) =
        bind_ok
          (expires_at_of int now (value_of (token (codes "expires_in")))
            (value_of (token (codes "expires_at"))))
          _ h2 in
      let (ends, d, h4) = bind_ok (later_than now raw) _ h3 in
      let (refresh, e, h5) =
        bind_ok (refresh_token_of (value_of (token (codes "refresh_token")))) _ h4 in
      rw (← ok_injective h5) (
        (access_token_of-text (value_of (token (codes "access_token"))) a).0,
        (access_token_of-text (value_of (token (codes "access_token"))) a).1,
        refl,
        refl,
        refl,
        later_than-later now raw d,
      )

  -- After a token was saved without an error: it is the mapping's access token, for the given client
  -- and subject, it expires later than now, and at any time a look-up of it gives the saved record
  -- until it expires, and then nothing.
  pub get_access_token-save :
      (sha256 : Bytes → Bytes) (int : Text → Result ℤ) (token : TokenMapping)
      (client_id subject : Text) (now current : ℕ) (user : Option User) (client : Option OidcClient)
      (s t : Tokens User) {r : TokenRecord User}
      → save sha256 int token client_id subject now user client s ≡ (t, ok r)
      → (value_of (token (codes "access_token")) ≡ TokenValue.text r.access_token)
        × (r.subject ≡ subject)
        × (r.client_id ≡ client_id)
        × (leb r.expires_at now ≡ false)
        × (get_access_token sha256 r.access_token current t
            ≡ ok (if leb r.expires_at current then none else some r))
  unfolding save get_access_token live
  get_access_token-save sha256 int token client_id subject now current user client s t {r} h =
      elim (Result-cases (token_record int token client_id subject now user client)) [
        | inr (x, e) ↦ absurd (ground arith)
        | inl (q, e) ↦ elim (Result-cases (token_key sha256 q.access_token)) [
          | inr (x, f) ↦ absurd (ground arith)
          | inl (key, f) ↦
              let same : q ≡ r = ground arith in
              let stored : put s key q ≡ t = ground arith in
              let (a, full, b, c, unrevoked, later) =
                token_record-fields int token client_id subject now user client e in
              rw (← same, ← stored)
                (a, c, b, later, rw (full, f, get-put s key key q, beq_self key, unrevoked) refl)
        ]
      ]
