-- ===== src/Passkeys/Config/Origins.antt =====
-- The origins of an accepted configuration.
use my_auth.Oidc.Scope.{is_distinct_words}
use my_auth.Equality.{option_eq, list_eq, nat_eq}
use my_auth.Int.{is_nonpositive}
use my_auth.Prelude.{false, [], ◌⊎◌, All, true, ◌≢◌, ◌≡◌, ◌++◌}
use my_auth.Url.{Parts, Urls}
use my_auth.Text.{codes, Text}
use my_auth.Passkeys.Config.{host_for_url, hostname_of, is_local, is_of, PasskeyConfig, starts_with}
use my_auth.Result.{ok}

-- An origin with the scheme https, or one with the scheme http of a local host.
abbrev pub IsSecure : Text → Type 0
IsSecure o =
    (starts_with (codes "https://") o ≡ true)
    ⊎ ((h : Text) × (is_local h ≡ true)
        × (starts_with (codes "http://" ++ host_for_url h) o ≡ true))

-- An origin whose host is the relying party's or one below it.
abbrev pub IsHostOf : Urls → Text → Text → Type 0
IsHostOf urls rp_id o =
    (parts : Parts) × (urls.urlsplit o ≡ ok parts) × (is_of rp_id (hostname_of parts) ≡ true)

-- At least one origin, all different, secure and of the relying party; times that are positive.
pub record HasOrigins (urls : Urls) (config : PasskeyConfig) : Type 0 where
  pub some_origin : config.origins ≢ []
  pub distinct : is_distinct_words config.origins ≡ true
  pub secure : All IsSecure config.origins
  pub hosts : All (IsHostOf urls config.rp_id) config.origins
  pub positive :
      (is_nonpositive config.timeout_ms ≡ false)
      × (is_nonpositive config.challenge_ttl_seconds ≡ false)
