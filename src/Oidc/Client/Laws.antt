-- ===== src/Oidc/Client/Laws.antt =====
-- What scope a client is granted, and that a hashed secret is the one that is checked.
use my_auth.Oidc.Pkce.Laws.{compare_digest-equal}
use my_auth.Encoding.{hex, utf8}
use my_auth.Equality.{option_eq, list_eq, nat_eq, beq_self}
use my_auth.Result.{Result-cases, ok}
use my_auth.Text.{Bytes, strip, is_empty, Text}
use my_auth.Prelude.{
  ap, false, none, refl, Bool-cases, inl, ◌⊎◌, inr, arith, ◌∷◌, [], some, true, All, ◌≡◌, any, List,
  Option, all,
}
use my_auth.Oidc.Client.{
  hash_client_secret, check_hash, check_client_secret, OidcClient, get_allowed_scope, allow,
}
use my_auth.Oidc.Scope.{join, split, scope_tuple, member}
use my_auth.Oidc.Scope.Words.{IsWord, split-IsWord, split-join}

-- The words of a granted scope are words that the client may use: the requested ones, or all of the
-- client's if none are requested.
pub record Allowed (client : OidcClient) (requested : List Text) (granted : Text) : Type 0 where
  pub registered : all (λ w. member w client.scopes) (split granted) ≡ true
  pub asked : (requested ≡ []) × (split granted ≡ client.scopes) ⊎ (split granted ≡ requested)

all-member :
    (ws vs : List Text)
    → ((w : Text) → member w ws ≡ true → member w vs ≡ true)
    → all (λ w. member w vs) ws ≡ true
unfolding all any
all-member [] vs f = refl
all-member (w ∷ ws) vs f =
    ground (arith, f w, beq_self w, all-member ws vs (λ u h. f u (ground arith)))

allow-Allowed :
    (client : OidcClient) (requested : List Text) {granted : Text}
    → All IsWord client.scopes
    → All IsWord requested
    → allow client.scopes requested ≡ some granted
    → Allowed client requested granted
allow-Allowed client [] {granted} known words h =
    let e : granted ≡ join client.scopes = ground arith in
    let back : split granted ≡ client.scopes = rw e (split-join client.scopes known) in
    record {
      registered = rw back (all-member client.scopes client.scopes (λ w u. u));
      asked = inl (refl, back);
    }
allow-Allowed client (w ∷ ws) {granted} known words h =
    elim (Bool-cases (all (λ v. member v client.scopes) (w ∷ ws))) [
      | inr bad ↦ absurd (ground arith)
      | inl good ↦
          let e : granted ≡ join (w ∷ ws) = ground arith in
          let back : split granted ≡ w ∷ ws = rw e (split-join (w ∷ ws) words) in
          record { registered = rw back good; asked = inr back }
    ]

scope_tuple-IsWord :
    (scope : Option Text) {ws : List Text} → scope_tuple scope ≡ ok ws → All IsWord ws
unfolding scope_tuple
scope_tuple-IsWord none {ws} h = let e : [] ≡ ws = ground arith in rw (← e) tt
scope_tuple-IsWord (some scope) {ws} h = elim (Bool-cases (is_empty (strip scope))) [
  | inl nothing ↦ let e : [] ≡ ws = ground arith in rw (← e) tt
  | inr something ↦
      let e : split (strip scope) ≡ ws = ground arith in rw (← e) (split-IsWord (strip scope))
]

-- For a client whose scopes are words: a granted scope consists of scopes that the client is
-- registered for, and they are the requested ones in their order, or all of the client's where none
-- is requested.
pub get_allowed_scope-Allowed :
    (client : OidcClient) (scope : Option Text) {granted : Text}
    → All IsWord client.scopes
    → get_allowed_scope client scope ≡ ok (some granted)
    → (requested : List Text) × (scope_tuple scope ≡ ok requested)
      × Allowed client requested granted
unfolding get_allowed_scope
get_allowed_scope-Allowed client scope known h = elim (Result-cases (scope_tuple scope)) [
  | inr (x, e) ↦ absurd (ground arith)
  | inl (requested, e) ↦ (
    requested,
    e,
    allow-Allowed client requested known (scope_tuple-IsWord scope e) (ground arith),
  )
]

checked :
    (sha256 : Bytes → Bytes) (stored : Option Text) (secret : Text)
    → is_empty secret ≡ false
    → check_hash sha256 stored secret ≡ ok true
    → (h : Text) × (stored ≡ some h) × (hash_client_secret sha256 secret ≡ ok h)
unfolding check_hash hash_client_secret
checked sha256 none secret full h = absurd (ground arith)
checked sha256 (some expected) secret full h = elim (Result-cases (utf8 secret)) [
  | inr (x, e) ↦ absurd (ground arith)
  | inl (encoded, e) ↦
      let same : hex (sha256 encoded) ≡ expected =
        compare_digest-equal (hex (sha256 encoded)) expected (ground arith) in
      (expected, refl, rw (full, e) (ap ok same))
]

-- A non-empty secret that a client's check accepts has the client's stored hash; a client without a
-- hash accepts none.
pub check_client_secret-hash_client_secret :
    (sha256 : Bytes → Bytes) (client : OidcClient) (secret : Text)
    → is_empty secret ≡ false
    → check_client_secret sha256 client secret ≡ ok true
    → (h : Text) × (client.client_secret_hash ≡ some h) × (hash_client_secret sha256 secret ≡ ok h)
unfolding check_client_secret
check_client_secret-hash_client_secret sha256 client secret full h =
    checked sha256 client.client_secret_hash secret full h
