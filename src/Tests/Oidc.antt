-- ===== src/Tests/Oidc.antt =====
-- Runs of the OpenID authorization codes.
use my_auth.Oidc.Tokens.Revoked.{get_access_token-revoke_access_token}
use my_auth.Oidc.Tokens.{get_access_token, token_key, TokenRecord, Tokens, revoke_access_token}
use my_auth.Encoding.{hex, utf8}
use my_auth.Oidc.Scope.Words.{IsWord}
use my_auth.Oidc.Client.Laws.{
  get_allowed_scope-Allowed, Allowed, check_client_secret-hash_client_secret,
}
use my_auth.Oidc.Scope.{is_distinct_words, join, split, scope_tuple}
use my_auth.Oidc.Client.{
  check_hash, get_allowed_scope, hash_client_secret, OidcClient, check_client_secret,
}
use my_auth.Int.{pos}
use my_auth.Base64.{rstrip_padding, digit, urlsafe_b64encode}
use my_auth.Result.{ok}
use my_auth.Dict.{put, remove, remove_all, keys_where, get}
use my_auth.Dict.Unique.{IsUnique}
use my_auth.Prelude.{
  All, refl, all, any, ap, none, [], ◌≤◌, arith, true, ◌∷◌, some, false, List, ◌≡◌,
}
use my_auth.Oidc.Code.Redeem.{redeem_compared, redeem_actual, redeem, is_unusable}
use my_auth.Oidc.Pkce.{
  compare_digest, validate_code_verifier, create_s256_code_challenge, validate_code_challenge,
  matches_code_verifier,
}
use my_auth.Text.{strip, Text, Bytes, codes}
use my_auth.Equality.{◌==◌, list_beq, option_beq, pair_beq, pair_eq, nat_eq, list_eq}
use my_auth.Oidc.Code.{AuthorizationCode, issue}
use my_auth.Oidc.Codes.Once
use my_auth.Oidc.Codes.Once.{empty, consumptions, saves, consumptions-le-saves}
use my_auth.Oidc.Codes.{Store, save, consume, has_nonce, cleanup, consume_found, consume_redeemed}
use my_auth.Oidc.Codes.Consume.{CodeConsumed, consume-CodeConsumed}
use my_auth.Oidc.Codes.Flow.{consume-save-issue}
use my_auth.Oidc.Codes.Nonce.{has_nonce-consume}

-- A stand-in for SHA-256.
abbrev sha : Bytes → Bytes
sha b = b

program : Unit {0}
unfolding issue validate_code_challenge validate_code_verifier matches_code_verifier
    create_s256_code_challenge urlsafe_b64encode digit rstrip_padding compare_digest redeem
    redeem_actual redeem_compared any all save cleanup consume consume_found consume_redeemed split
    join is_distinct_words scope_tuple get_allowed_scope strip check_client_secret check_hash utf8
    hex has_nonce keys_where remove_all remove get put list_beq option_beq pair_beq token_key
program = tt

abbrev verifier : Text
verifier = codes "aaaaaaaaaaaaaaaaaaaaaaaaaaaaaaaaaaaaaaaaaaa"

abbrev challenge : Text
challenge = codes "YWFhYWFhYWFhYWFhYWFhYWFhYWFhYWFhYWFhYWFhYWFhYWFhYWFhYWFhYQ"

abbrev code : AuthorizationCode Text
code = record {
  value = codes "v";
  client_id = codes "c";
  redirect_uri = codes "r";
  subject = codes "s";
  scope = codes "openid" ∷ [];
  nonce = codes "n";
  code_challenge = challenge;
  expires_at = 400;
  code_challenge_method = codes "S256";
  auth_time = none;
  acr = none;
  amr = [];
  user = none;
  redeemed = false;
}

abbrev redeemed_code : AuthorizationCode Text
redeemed_code = record code { redeemed = true }

issued :
    issue
      (codes "c")
      (codes "r")
      (codes "s")
      (codes "openid" ∷ [])
      (codes "n")
      challenge
      100
      (codes "S256")
      (pos 300)
      none
      none
      []
      none
      none
      (codes "v")
    ≡ ok code
unfolding program
issued = refl

proof : create_s256_code_challenge sha verifier ≡ ok challenge
unfolding program
proof = refl

abbrev holding : Store Text
holding = record {
  codes = (codes "v", code) ∷ [];
  nonce_expiry = ((codes "c", codes "n"), 400) ∷ [];
}

abbrev spent : Store Text
spent = record holding { codes = [] }

saved : save code 100 empty ≡ (holding, ok tt)
unfolding program
saved = refl

consumed :
    consume sha (codes "v") (codes "c") (codes "r") verifier 200 holding ≡ (spent, ok redeemed_code)
unfolding program
consumed = refl

consume-CodeConsumed_example :
    CodeConsumed sha (codes "v") (codes "c") (codes "r") verifier 200 holding spent redeemed_code
consume-CodeConsumed_example =
    consume-CodeConsumed sha (codes "v") (codes "c") (codes "r") verifier 200 holding consumed

holding-IsUnique : IsUnique holding.codes
unfolding program
holding-IsUnique = (refl, tt)

holding-found : get holding.codes (codes "v") ≡ some code
unfolding program
holding-found = refl

alphabet : matches_code_verifier challenge ≡ true
unfolding program
alphabet = refl

usable : is_unusable (codes "c") (codes "r") 200 code ≡ false
unfolding program
usable = refl

consume-save-issue_example :
    ((consume sha (codes "v") (codes "c") (codes "r") verifier 200 (save code 100 empty).0).1
      ≡ ok redeemed_code)
    × (code.subject ≡ codes "s")
consume-save-issue_example =
    consume-save-issue sha (codes "c") (codes "r") (codes "s") (codes "openid" ∷ []) (codes "n")
      challenge 100 (codes "S256") (pos 300) none none [] none none (codes "v") verifier 200 empty
      tt proof issued (ap (λ p. p.1) saved) (omega arith)

abbrev calls : List (Once.Call Text)
calls =
    Once.Call.save code 100
    ∷ Once.Call.consume (codes "v") (codes "c") (codes "r") verifier 200
    ∷ Once.Call.consume (codes "v") (codes "c") (codes "r") verifier 201
    ∷ []

consumptions-le-saves_example :
    consumptions sha (codes "v") calls empty ≤ saves sha (codes "v") calls empty
consumptions-le-saves_example = consumptions-le-saves sha calls (codes "v")

nonces-IsUnique : IsUnique holding.nonce_expiry
unfolding program
nonces-IsUnique = (refl, tt)

has_nonce-consume_example :
    (has_nonce
      (codes "c")
      (codes "n")
      300
      (consume sha (codes "v") (codes "c") (codes "r") verifier 200 holding).0).1
    ≡ (has_nonce (codes "c") (codes "n") 300 holding).1
has_nonce-consume_example =
    has_nonce-consume sha (codes "v") (codes "c") (codes "r") verifier 200 (codes "c") (codes "n")
      300 holding nonces-IsUnique (omega arith)

abbrev wiki : OidcClient
wiki = record {
  client_id = codes "c";
  redirect_uris = codes "https://c.example/cb" ∷ [];
  scopes = codes "openid" ∷ codes "email" ∷ [];
  client_secret_hash = some (codes "6b");
  token_endpoint_auth_method = some (codes "client_secret_basic");
}

wiki-words : All IsWord wiki.scopes
unfolding program
wiki-words = ((refl, refl), ((refl, refl), tt))

granted : get_allowed_scope wiki (some (codes " email  openid ")) ≡ ok (some (codes "email openid"))
unfolding program
granted = refl

get_allowed_scope-Allowed_example :
    (requested : List Text) × (scope_tuple (some (codes " email  openid ")) ≡ ok requested)
    × Allowed wiki requested (codes "email openid")
get_allowed_scope-Allowed_example =
    get_allowed_scope-Allowed wiki (some (codes " email  openid ")) wiki-words granted

secret_checked : check_client_secret sha wiki (codes "k") ≡ ok true
unfolding program
secret_checked = refl

check_client_secret-hash_client_secret_example :
    (h : Text) × (wiki.client_secret_hash ≡ some h) × (hash_client_secret sha (codes "k") ≡ ok h)
check_client_secret-hash_client_secret_example =
    check_client_secret-hash_client_secret sha wiki (codes "k") refl secret_checked

abbrev bearer : TokenRecord Text
bearer = record {
  access_token = codes "t";
  client_id = codes "c";
  subject = codes "s";
  scope = codes "openid";
  expires_at = 900;
  token_type = codes "Bearer";
  refresh_token = none;
  refresh_expires_at = none;
  user = none;
  client = none;
  revoked = false;
}

-- The keys of the tokens "t" and "v", in hexadecimal as `sha` leaves them.
abbrev tokens : Tokens Text
tokens = (codes "74", bearer) ∷ (codes "76", bearer) ∷ []

first_key : token_key sha (codes "t") ≡ ok (codes "74")
unfolding program
first_key = refl

second_key : token_key sha (codes "v") ≡ ok (codes "76")
unfolding program
second_key = refl

apart_keys : (codes "74" == codes "76") ≡ false
unfolding program
apart_keys = refl

get_access_token-revoke_access_token_example :
    let t = (revoke_access_token sha (codes "t") tokens).0 in
    (get_access_token sha (codes "t") 5 t ≡ ok none)
    × (get_access_token sha (codes "v") 5 t ≡ get_access_token sha (codes "v") 5 tokens)
get_access_token-revoke_access_token_example =
    get_access_token-revoke_access_token sha (codes "t") (codes "v") 5 tokens first_key second_key
      apart_keys
