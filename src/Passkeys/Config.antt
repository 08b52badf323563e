-- ===== src/Passkeys/Config.antt =====
-- my_auth/passkey_models.py, `PasskeyConfig` and `_normalize_origin`: the relying party and the origins
-- at which it accepts responses.
use my_auth.Encoding.{decimal, digits}
use my_auth.Int.{is_nonpositive, ℤ}
use my_auth.Equality.{list_eq, nat_eq, option_eq, ◌==◌}
use my_auth.Oidc.Scope.{is_distinct_words}
use my_auth.Text.{is_empty, codes, Text, strip}
use my_auth.Prelude.{
  zero, is_some, length, ◌%◌, ◌&&◌, ◌+◌, none, not, ◌++◌, false, ltb, ◌/◌, some, ◌||◌, map, nat_beq,
  ◌∷◌, if◌then◌else◌, [], suc, true, any, ℕ, List, Option, Bool,
}
use my_auth.Url.{Parts, Urls}
use my_auth.Result.{err, value_error, raise_if, ok, Result, ◌>>=◌, ◌>>◌}
pub mod Origins

-- The fields of `PasskeyConfig`.
pub record PasskeyConfig : Type 0 where
  pub rp_id : Text
  pub rp_name : Text
  pub origins : List Text
  pub timeout_ms : ℤ
  pub challenge_ttl_seconds : ℤ
  pub user_verification : Text

abbrev pub require_user_verification : PasskeyConfig → Bool
require_user_verification config = config.user_verification == codes "required"

-- character in text
abbrev pub has_char : ℕ → Text → Bool
has_char c s = any (λ d. nat_beq d c) s

-- text.startswith(prefix)
unfoldable pub starts_with : Text → Text → Bool
starts_with [] s = true
starts_with (c ∷ p) [] = false
starts_with (c ∷ p) (d ∷ s) = let rest = starts_with p s in nat_beq c d && rest

-- text.endswith(suffix)
unfoldable pub ends_with : Text → Text → Bool
ends_with [] suffix = is_empty suffix
ends_with (c ∷ s) suffix = let rest = ends_with s suffix in c ∷ s == suffix || rest

-- part in text
unfoldable pub contains : Text → Text → Bool
unfolding starts_with
contains part [] = is_empty part
contains part (c ∷ s) = let rest = contains part s in starts_with part (c ∷ s) || rest

-- any(ord(character) < 0x20 for character in origin) or "\\" in origin
abbrev pub has_control : Text → Bool
has_control s = any (λ c. ltb c 32) s || has_char 92 s

abbrev pub is_blank_host : Option Text → Bool
is_blank_host none = true
is_blank_host (some h) = is_empty h

-- "*" in hostname or any(character in hostname for character in "%/?#@")
abbrev pub is_inexact_host : Text → Bool
is_inexact_host h = any (λ c. has_char c h) (codes "*%/?#@")

-- http is only for these hosts
abbrev pub is_local : Text → Bool
is_local h = any (λ l. l == h) (map codes ("localhost" ∷ "127.0.0.1" ∷ "::1" ∷ []))

abbrev pub default_port : Text → ℕ
default_port scheme = if scheme == codes "http" then 80 else 443

-- "" if port in {None, default_port} else f":{port}"
abbrev pub port_suffix : Text → Option ℕ → Text
port_suffix scheme none = []
port_suffix scheme (some port) =
    if nat_beq port (default_port scheme) then [] else 58 ∷ decimal port

-- f"[{hostname}]" if ":" in hostname else hostname
abbrev pub host_for_url : Text → Text
host_for_url h = if has_char 58 h then (91 ∷ h) ++ 93 ∷ [] else h

abbrev pub hostname_of : Parts → Text
hostname_of parts = elim parts.hostname [ none ↦ [] | some h ↦ h ]

-- The last part of `_normalize_origin`, with the scheme and the host in lower case.
unfoldable pub normalized : Text → Text → Option ℕ → Result Text
unfolding digits
normalized scheme host port = do
  raise_if (scheme == codes "http" && not (is_local host)) value_error
  ok (scheme ++ codes "://" ++ host_for_url host ++ port_suffix scheme port)

unfoldable pub normalize_origin : Urls → Text → Result Text
unfolding strip normalized
normalize_origin urls origin = do
  raise_if (is_empty (strip origin)) value_error
  raise_if (not (origin == strip origin)) value_error
  raise_if (has_control origin) value_error
  parsed ← urls.urlsplit origin
  raise_if
      (not (urls.lower parsed.scheme == codes "http")
        && not (urls.lower parsed.scheme == codes "https"))
      value_error
  port ← parsed.port
  raise_if (is_some parsed.username || is_some parsed.password || is_blank_host parsed.hostname)
      value_error
  raise_if
      (not (is_empty parsed.path) || not (is_empty parsed.query) || not (is_empty parsed.fragment))
      value_error
  raise_if (is_inexact_host (hostname_of parsed)) value_error
  raise_if (ends_with parsed.netloc (codes ":")) value_error
  normalized (urls.lower parsed.scheme) (urls.lower (hostname_of parsed)) port

-- tuple(_normalize_origin(value) for value in configured_origins)
unfoldable pub normalize_origins : Urls → List Text → Result (List Text)
unfolding normalize_origin
normalize_origins urls [] = ok []
normalize_origins urls (o ∷ os) = do
  first ← normalize_origin urls o
  rest ← normalize_origins urls os
  ok (first ∷ rest)

-- The origins that the constructor is given: one, or a tuple, but not both.
abbrev pub configured : Option Text → Option (List Text) → Result (List Text)
configured (some origin) (some origins) = err value_error
configured (some origin) none = ok (origin ∷ [])
configured none (some origins) = ok origins
configured none none = err value_error

-- hostname == rp_id or hostname.endswith("." + rp_id)
abbrev pub is_of : Text → Text → Bool
is_of rp_id hostname = hostname == rp_id || ends_with hostname (46 ∷ rp_id)

-- The loop over the normalized origins.
unfoldable pub check_hosts : Urls → Text → List Text → Result (Unit {0})
unfolding ends_with
check_hosts urls rp_id [] = ok tt
check_hosts urls rp_id (o ∷ os) = do
  parsed ← urls.urlsplit o
  raise_if (not (is_of rp_id (hostname_of parsed))) value_error
  check_hosts urls rp_id os

-- not value.strip(), or value != value.strip()
abbrev pub is_bad_name : Text → Bool
is_bad_name s = is_empty (strip s) || not (s == strip s)

abbrev pub is_bad_rp_id : Urls → Text → Bool
is_bad_rp_id urls rp_id =
    contains (codes "://") rp_id
    || has_char 47 rp_id
    || has_char 58 rp_id
    || not (urls.lower rp_id == rp_id)

abbrev pub is_known_verification : Text → Bool
is_known_verification v =
    any (λ k. k == v) (map codes ("required" ∷ "preferred" ∷ "discouraged" ∷ []))

-- `__init__`
unfoldable pub new_passkey_config :
    Urls → Text → Text → Option Text → ℤ → ℤ → Text → Option (List Text) → Result PasskeyConfig
unfolding strip contains normalize_origins check_hosts is_distinct_words
new_passkey_config urls rp_id rp_name origin timeout_ms challenge_ttl_seconds user_verification
      origins =
    do
      raise_if (is_bad_name rp_id || is_bad_name rp_name) value_error
      raise_if (is_bad_rp_id urls rp_id) value_error
      given ← configured origin origins
      raise_if (nat_beq (length given) 0) value_error
      normalized ← normalize_origins urls given
      raise_if (not (is_distinct_words normalized)) value_error
      check_hosts urls rp_id normalized
      raise_if (is_nonpositive timeout_ms || is_nonpositive challenge_ttl_seconds) value_error
      raise_if (not (is_known_verification user_verification)) value_error
      ok (record {
        rp_id = rp_id;
        rp_name = rp_name;
        origins = normalized;
        timeout_ms = timeout_ms;
        challenge_ttl_seconds = challenge_ttl_seconds;
        user_verification = user_verification;
      })
