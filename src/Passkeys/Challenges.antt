-- ===== src/Passkeys/Challenges.antt =====
-- my_auth/passkey_memory.py, `MemoryChallengeStore`: challenges under a flow's key and a kind, each
-- to be taken out once before it expires.
pub mod Laws
pub mod Once
use my_auth.Equality.{pair_eq, ◌==◌, list_eq, nat_eq, option_eq}
use my_auth.Result.{value_error, challenge_not_found, err, ok, Result}
use my_auth.Prelude.{
  ◌||◌, not, none, length, some, [], leb, false, Bool, ℕ, if◌then◌else◌, ◌∷◌, Option, List,
}
use my_auth.Text.{Bytes, Text}
use my_auth.Int.{add_seconds, ℤ, Instant}
use my_auth.Passkeys.Models.{
  kind_eq, user_eq, registration, RegistrationContext, ChallengeRecord, ChallengeKind, PasskeyUser,
}
use my_auth.Dict.{remove_all, keys_where, put, get, remove, Dict}
use my_auth.Exec.{pure, modify, lift, Exec, ◌>>=◌, ◌>>◌}

abbrev pub Key : Type 0
Key = Text × ChallengeKind

abbrev pub Records : Type 0
Records = Dict Key ChallengeRecord

-- user not in {None, registration_context.user}
abbrev pub is_other_user : PasskeyUser → Option PasskeyUser → Bool
is_other_user user none = false
is_other_user user (some other) = not (other == user)

-- The check of `save` on its context, and the user of the record.
unfoldable pub context_user :
    ChallengeKind → Option PasskeyUser → Option RegistrationContext → Result (Option PasskeyUser)
context_user kind user none = ok user
context_user kind user (some context) =
    if not (kind == registration) || is_other_user context.user user
    then err value_error
    else ok (some context.user)

unfoldable pub new_record :
    Text
    → ChallengeKind
    → Bytes
    → Instant
    → Option PasskeyUser
    → Option RegistrationContext
    → ChallengeRecord
new_record key kind challenge expires_at user context = record {
  challenge = challenge;
  kind = kind;
  key = key;
  expires_at = expires_at;
  user = user;
  registration_kind = elim context [ none ↦ none | some c ↦ some c.kind ];
  capability_id = elim context [ none ↦ none | some c ↦ c.capability_id ];
}

unfoldable pub save :
    Text
    → ChallengeKind
    → Bytes
    → ℤ
    → Option PasskeyUser
    → Option RegistrationContext
    → Instant
    → Exec Records ChallengeRecord
unfolding context_user new_record
save key kind challenge ttl_seconds user context now = do
  user' ← lift (context_user kind user context)
  expires_at ← lift (add_seconds now ttl_seconds)
  modify (λ s. put s (key, kind) (new_record key kind challenge expires_at user' context))
  pure (new_record key kind challenge expires_at user' context)

-- record is None or record.expires_at <= now
unfoldable pub unexpired : Instant → Option ChallengeRecord → Result ChallengeRecord
unexpired now none = err challenge_not_found
unexpired now (some r) = if leb r.expires_at now then err challenge_not_found else ok r

unfoldable pub pop : Text → ChallengeKind → Instant → Exec Records ChallengeRecord
unfolding unexpired
pop key kind now s = (remove s (key, kind), unexpired now (get s (key, kind)))

-- value.expires_at <= now
abbrev pub is_expired : Instant → ChallengeRecord → Bool
is_expired now r = leb r.expires_at now

unfoldable pub cleanup_expired : Instant → Exec Records ℕ
unfolding keys_where remove_all
cleanup_expired now s =
    let expired = keys_where (is_expired now) s in (remove_all expired s, ok (length expired))
