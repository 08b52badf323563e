-- ===== src/Passkeys/Sqlite/Challenges.antt =====
-- my_auth/passkey_sqlite.py, `SQLiteChallengeStore`, on the rows of the table passkey_challenges.
use my_auth.Equality.{option_eq, nat_eq, list_eq, ◌==◌}
use my_auth.Passkeys.Models.{
  RegistrationContext, kind_eq, PasskeyUser, ChallengeKind, ChallengeRecord,
}
use my_auth.Result.{challenge_not_found, err, ok, Result}
use my_auth.Int.{add_seconds, ℤ, Instant}
use my_auth.Text.{Bytes, Text}
use my_auth.Prelude.{[], ◌∷◌, none, ltb, some, leb, ◌&&◌, Bool, ℕ, Option, select, List, count_if}
pub mod OneTime
use my_auth.Sql.Bind.{Value, text, optional, bind}
use my_auth.Exec.{Exec, lift, ◌>>=◌, ◌>>◌}
use my_auth.Sql.{upsert, delete_where, fetchone}
use my_auth.Passkeys.Challenges.{context_user, new_record}
use my_auth.Passkeys.Sqlite.{Session, ChallengeRow, mutation, challenge_values, sqlite_challenge}

abbrev pub Table : Type 0
Table = List ChallengeRow

-- key=? AND kind=?
abbrev pub has_key : Text → ChallengeKind → ChallengeRow → Bool
has_key key kind row = row.key == key && row.kind == kind

-- The user columns, NULL without a user.
abbrev pub user_parameters : Option PasskeyUser → List Value
user_parameters none = []
user_parameters (some user) = text user.user_id ∷ text user.name ∷ optional user.display_name ∷ []

unfoldable pub challenge_parameters : ChallengeRecord → List Value
challenge_parameters r = text r.key ∷ optional r.capability_id ∷ user_parameters r.user

unfoldable pub write_challenge : ChallengeRecord → Exec Table (Unit {0})
unfolding upsert challenge_values
write_challenge r rows = (upsert (has_key r.key r.kind) (challenge_values r) rows, ok tt)

unfoldable pub upsert_challenge : ChallengeRecord → Exec Table (Unit {0})
unfolding bind challenge_parameters write_challenge
upsert_challenge r = do lift (bind (challenge_parameters r)); write_challenge r

-- The insertion of a record that `save` returns.
abbrev pub returning {ℓ} : {S A : Type ℓ} → A → S × Result (Unit {0}) → S × Result A
returning a (s, ok done) = (s, ok a)
returning a (s, err e) = (s, err e)

unfoldable pub insert_record : Session → ChallengeRecord → Exec Table ChallengeRecord
unfolding mutation upsert_challenge
insert_record session r rows = returning r (mutation session (upsert_challenge r) rows)

unfoldable pub save :
    Session
    → Text
    → ChallengeKind
    → Bytes
    → ℤ
    → Option PasskeyUser
    → Option RegistrationContext
    → Instant
    → Exec Table ChallengeRecord
unfolding context_user new_record insert_record
save session key kind challenge ttl_seconds user context now = do
  owner ← lift (context_user kind user context)
  expires_at ← lift (add_seconds now ttl_seconds)
  insert_record session (new_record key kind challenge expires_at owner context)

-- key=? AND kind=? AND expires_at>?
abbrev pub is_live_row : Text → ChallengeKind → Instant → ChallengeRow → Bool
is_live_row key kind now row = has_key key kind row && ltb now row.expires_at

-- The record of the row that the statement returned.
unfoldable pub returned : Option ChallengeRow → Result ChallengeRecord
unfolding sqlite_challenge
returned none = err challenge_not_found
returned (some row) = sqlite_challenge row

-- DELETE ... WHERE ... RETURNING
unfoldable pub take_live : Text → ChallengeKind → Instant → Exec Table ChallengeRecord
unfolding delete_where select returned
take_live key kind now rows = (
  delete_where (is_live_row key kind now) rows,
  returned (fetchone (select (is_live_row key kind now) rows)),
)

unfoldable pub delete_returning : Text → ChallengeKind → Instant → Exec Table ChallengeRecord
unfolding bind take_live
delete_returning key kind now = do lift (bind (text key ∷ [])); take_live key kind now

unfoldable pub pop : Session → Text → ChallengeKind → Instant → Exec Table ChallengeRecord
unfolding mutation delete_returning
pop session key kind now = mutation session (delete_returning key kind now)

-- expires_at<=?
abbrev pub is_expired_row : Instant → ChallengeRow → Bool
is_expired_row now row = leb row.expires_at now

unfoldable pub delete_expired : Instant → Exec Table ℕ
unfolding delete_where count_if
delete_expired now rows =
    (delete_where (is_expired_row now) rows, ok (count_if (is_expired_row now) rows))

unfoldable pub cleanup_expired : Session → Instant → Exec Table ℕ
unfolding mutation delete_expired
cleanup_expired session now = mutation session (delete_expired now)
