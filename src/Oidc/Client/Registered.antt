-- ===== src/Oidc/Client/Registered.antt =====
-- What a client that was accepted has.
use my_auth.Equality.{option_eq, nat_eq, list_eq, list_beq_iff, ◌==◌}
use my_auth.Oidc.Scope.Words.{IsWord}
use my_auth.Oidc.Scope.{is_distinct_words, member}
use my_auth.Url.{Urls}
use my_auth.Text.{is_empty, codes, is_space, Text}
use my_auth.Prelude.{
  ap, refl, not, length, inr, nat_beq, Option-cases, inl, [], ◌⊎◌, some, arith, ◌||◌, ◌∷◌, none,
  Bool-cases, false, true, Option, ◌≡◌, List, All, any, all,
}
use my_auth.Oidc.Client.{
  check_redirects, is_sha256_hex, method_or_default, is_bad_hash, supported_scopes, check_method,
  new_client, OidcClient,
}
use my_auth.Result.{configuration_error, ok, guard_ok, then_ok, ok_injective}

-- The scopes are different supported ones with openid among them, and the client authenticates with
-- nothing and has no secret, or with a secret of which a SHA-256 hash is kept.
pub record IsRegistered (client : OidcClient) : Type 0 where
  pub words : All IsWord client.scopes
  pub openid : member (codes "openid") client.scopes ≡ true
  pub distinct : is_distinct_words client.scopes ≡ true
  pub supported : all (λ s. member s supported_scopes) client.scopes ≡ true
  pub method :
      (client.token_endpoint_auth_method ≡ some (codes "none")) × (client.client_secret_hash ≡ none)
      ⊎ (client.token_endpoint_auth_method ≡ some (codes "client_secret_basic"))
        × ((h : Text) × (client.client_secret_hash ≡ some h) × (is_sha256_hex h ≡ true))

supported-IsWord : (s : Text) → member s supported_scopes ≡ true → IsWord s
unfolding any is_space
supported-IsWord s h = elim (Bool-cases (codes "openid" == s)) [
  | inl e ↦ rw (← (list_beq_iff (codes "openid") s).0 e) (refl, refl)
  | inr a ↦ elim (Bool-cases (codes "profile" == s)) [
    | inl e ↦ rw (← (list_beq_iff (codes "profile") s).0 e) (refl, refl)
    | inr b ↦ elim (Bool-cases (codes "email" == s)) [
      | inl e ↦ rw (← (list_beq_iff (codes "email") s).0 e) (refl, refl)
      | inr c ↦ absurd (ground arith)
    ]
  ]
]

scopes-IsWord : (ws : List Text) → all (λ s. member s supported_scopes) ws ≡ true → All IsWord ws
unfolding all
scopes-IsWord [] h = tt
scopes-IsWord (w ∷ ws) h = (supported-IsWord w (ground arith), scopes-IsWord ws (ground arith))

-- A method that passed the checks fits the hash.
checked_method :
    (method : Text) (hash : Option Text)
    → is_bad_hash hash ≡ false
    → check_method method hash ≡ ok tt
    → (method ≡ codes "none") × (hash ≡ none)
      ⊎ (method ≡ codes "client_secret_basic")
        × ((h : Text) × (hash ≡ some h) × (is_sha256_hex h ≡ true))
unfolding check_method
checked_method method hash good h = elim (Bool-cases (method == codes "none")) [
  | inl plain ↦ elim (Option-cases hash) [
    | inl e ↦ inl ((list_beq_iff method (codes "none")).0 plain, e)
    | inr (x, e) ↦ absurd (ground arith)
  ]
  | inr other ↦ elim (Bool-cases (method == codes "client_secret_basic")) [
    | inr unknown ↦ absurd (ground arith)
    | inl basic ↦ elim (Option-cases hash) [
      | inl e ↦ absurd (ground arith)
      | inr (x, e) ↦
          inr ((list_beq_iff method (codes "client_secret_basic")).0 basic, (x, e, ground arith))
    ]
  ]
]

-- An accepted client's scopes are different supported ones, with openid among them; it authenticates
-- with nothing and has no secret hash, or with a secret whose kept hash is a SHA-256 in hex.
pub new_client-IsRegistered :
    (urls : Urls) (given : OidcClient) {client : OidcClient}
    → new_client urls given ≡ ok client
    → IsRegistered client
unfolding new_client
new_client-IsRegistered urls given {client} h =
    let method = method_or_default given.token_endpoint_auth_method given.client_secret_hash in
    let (a, h1) =
      guard_ok (is_empty given.client_id || any is_space given.client_id) configuration_error _ h in
    let (b, h2) = guard_ok (nat_beq (length given.redirect_uris) 0) configuration_error _ h1 in
    let (c, h3) = guard_ok (not (member (codes "openid") given.scopes)) configuration_error _ h2 in
    let (d, h4) = guard_ok (not (is_distinct_words given.scopes)) configuration_error _ h3 in
    let (e, h5) =
      guard_ok (not (all (λ s. member s supported_scopes) given.scopes)) configuration_error _ h4 in
    let (f, h6) = then_ok (check_redirects urls given.redirect_uris) _ h5 in
    let (g, h7) = guard_ok (is_bad_hash given.client_secret_hash) configuration_error _ h6 in
    let (m, h8) = then_ok (check_method method given.client_secret_hash) _ h7 in
    rw (← ok_injective h8) (record {
      words = scopes-IsWord given.scopes (ground arith);
      openid = ground arith;
      distinct = ground arith;
      supported = ground arith;
      method = elim (checked_method method given.client_secret_hash g m) [
        | inl (e, n) ↦ inl (ap some e, n)
        | inr (e, n) ↦ inr (ap some e, n)
      ];
    })
