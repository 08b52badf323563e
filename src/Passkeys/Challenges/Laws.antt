-- ===== src/Passkeys/Challenges/Laws.antt =====
-- What can be popped after a save, a pop or a cleanup of the memory challenge store.
use my_auth.Dict.Sweep.{get-sweep}
use my_auth.Equality.{beq_self, list_eq, pair_eq, option_eq, nat_eq}
use my_auth.Result.{Result-cases, ok, challenge_not_found, err}
use my_auth.Passkeys.Models.{
  RegistrationContext, PasskeyUser, kind_eq, ChallengeRecord, ChallengeKind,
}
use my_auth.Dict.Unique.{IsUnique}
use my_auth.Int.{add_seconds, ℤ, Instant}
use my_auth.Prelude.{inr, leb, inl, refl, arith, if◌then◌else◌, ◌≤◌, ◌≡◌, Option}
use my_auth.Text.{Bytes, Text}
use my_auth.Passkeys.Challenges.{
  Key, Records, context_user, new_record, save, unexpired, pop, is_expired, cleanup_expired,
}
use my_auth.Dict.Laws.{get-put, get-remove}

-- A challenge that was saved is what the next pop under its key returns, until it expires.
pub pop-save :
    (key : Text) (kind : ChallengeKind) (challenge : Bytes) (ttl : ℤ) (user : Option PasskeyUser)
    (context : Option RegistrationContext) (now later : Instant) (s : Records) {r : ChallengeRecord}
    → (save key kind challenge ttl user context now s).1 ≡ ok r
    → (r.challenge ≡ challenge)
      × (r.kind ≡ kind)
      × (add_seconds now ttl ≡ ok r.expires_at)
      × ((pop key kind later (save key kind challenge ttl user context now s).0).1
          ≡ (if leb r.expires_at later then err challenge_not_found else ok r))
unfolding save pop unexpired new_record
pop-save key kind challenge ttl user context now later s {r} h =
    elim (Result-cases (context_user kind user context)) [
      | inr (x, e) ↦ absurd (ground arith)
      | inl (u, e) ↦ elim (Result-cases (add_seconds now ttl)) [
        | inr (x, f) ↦ absurd (ground arith)
        | inl (t, f) ↦ (
          ground arith,
          ground arith,
          ground arith,
          rw (e, f)
              (ground (
                arith,
                get-put s (key, kind) (key, kind) (new_record key kind challenge t u context),
                beq_self {A = Key} (key, kind),
              )),
        )
      ]
    ]

-- Whatever a pop answers, the next pop under the same key finds nothing.
pub pop-pop :
    (key : Text) (kind : ChallengeKind) (now later : Instant) (s : Records)
    → (pop key kind later (pop key kind now s).0).1 ≡ err challenge_not_found
unfolding pop unexpired
pop-pop key kind now later s =
    rw (get-remove s (key, kind) (key, kind), beq_self {A = Key} (key, kind)) refl

-- A cleanup takes no challenge away that could still be popped.
pub pop-cleanup_expired :
    (key : Text) (kind : ChallengeKind) (now later : Instant) (s : Records)
    → IsUnique s
    → now ≤ later
    → (pop key kind later (cleanup_expired now s).0).1 ≡ (pop key kind later s).1
unfolding pop unexpired cleanup_expired
pop-cleanup_expired key kind now later s u h =
    ground (arith, get-sweep (is_expired now) s (key, kind) u)
