-- ===== src/Passkeys/Sqlite/Challenges/OneTime.antt =====
-- A challenge in the SQLite store is taken out as it was saved, and once.
use my_auth.Sql.Bind.{bind_value, bind}
use my_auth.Sql.Upserted.{delete-upsert, select-upsert}
use my_auth.Sql.{delete_where, fetchone, upsert}
use my_auth.Passkeys.Sqlite.Credentials.Refines.{decoded_user}
use my_auth.Equality.{list_eq, nat_eq, option_eq, beq_self}
use my_auth.Int.{add_seconds, Instant, ℤ}
use my_auth.Result.{Result-cases, challenge_not_found, err, ok}
use my_auth.Base64.Laws.{AreBytes}
use my_auth.Text.{Bytes, Text}
use my_auth.Prelude.{
  Option-cases, inr, inl, ◌∷◌, ap, [], none, select, sym, ltb, refl, Option, arith, some, true, ◌≡◌,
}
use my_auth.Passkeys.Challenges.{context_user, new_record}
use my_auth.Passkeys.Models.{
  kind_eq, RegistrationContext, ChallengeKind, PasskeyUser, ChallengeRecord,
}
use my_auth.Passkeys.Sqlite.{
  ChallengeRow, begin_error, Session, sqlite_challenge, mutation, challenge_values,
}
use my_auth.Passkeys.Sqlite.Challenges.{
  take_live, challenge_parameters, text, write_challenge, is_live_row, Table, returned, has_key,
  delete_returning, save, pop, insert_record, upsert_challenge,
}
use my_auth.Exec.{bind_ok as exec_ok}

sqlite_challenge-challenge_values :
    (r : ChallengeRecord)
    → ((u : PasskeyUser) → r.user ≡ some u → AreBytes u.user_handle)
    → sqlite_challenge (challenge_values r) ≡ ok r
unfolding sqlite_challenge challenge_values
sqlite_challenge-challenge_values r h = rw (decoded_user r.user h) refl

-- Of the values of a record that was written, the key can be bound again.
bind_key :
    (r : ChallengeRecord) → bind (challenge_parameters r) ≡ ok tt → bind (text r.key ∷ []) ≡ ok tt
unfolding bind challenge_parameters
bind_key r h = elim (Result-cases (bind_value (text r.key))) [
  | inl (_, e) ↦ rw e refl
  | inr (x, e) ↦ absurd (ground arith)
]

-- What a save wrote.
save-upsert :
    (session : Session) (key : Text) (kind : ChallengeKind) (challenge : Bytes) (ttl : ℤ)
    (user : Option PasskeyUser) (context : Option RegistrationContext) (now : Instant)
    (rows t : Table) (r : ChallengeRecord)
    → save session key kind challenge ttl user context now rows ≡ (t, ok r)
    → (begin_error session ≡ none)
      × (bind (text key ∷ []) ≡ ok tt)
      × (r.key ≡ key)
      × (r.kind ≡ kind)
      × (t ≡ upsert (has_key key kind) (challenge_values r) rows)
unfolding save insert_record mutation upsert_challenge write_challenge new_record
save-upsert session key kind challenge ttl user context now rows t r h =
    let (owner, a, h1) = exec_ok rows (context_user kind user context) _ h in
    let (ends, b, h2) = exec_ok rows (add_seconds now ttl) _ h1 in
    let ready : begin_error session ≡ none = elim (Option-cases (begin_error session)) [
      | inl e ↦ e
      | inr (x, e) ↦ absurd (ground arith)
    ] in
    let made = new_record key kind challenge ends owner context in
    let could : bind (challenge_parameters made) ≡ ok tt =
      elim (Result-cases (bind (challenge_parameters made))) [
        | inl (_, e) ↦ e
        | inr (x, e) ↦ absurd (ground arith)
      ] in
    let same : new_record key kind challenge ends owner context ≡ r = ground arith in
    let written : upsert (has_key key kind)
          (challenge_values (new_record key kind challenge ends owner context)) rows
        ≡ t =
      ground arith in
    rw (← same) (ready, bind_key made could, refl, refl, sym written)

own_row : (r : ChallengeRecord) → has_key r.key r.kind (challenge_values r) ≡ true
unfolding challenge_values
own_row r = ground (arith, beq_self r.key, beq_self r.kind)

module _ (session : Session) (ready : begin_error session ≡ none) (key : Text)
    (kind : ChallengeKind) (now : Instant) (rows : Table)
    (bindable : bind (text key ∷ []) ≡ ok tt) where
  pop-found :
      (row : ChallengeRow) {r : ChallengeRecord}
      → fetchone (select (is_live_row key kind now) rows) ≡ some row
      → sqlite_challenge row ≡ ok r
      → pop session key kind now rows ≡ (delete_where (is_live_row key kind now) rows, ok r)
  unfolding pop mutation delete_returning take_live returned
  pop-found row f d = rw (ready, bindable, f, d) refl

  pop-missing :
      fetchone (select (is_live_row key kind now) rows) ≡ none
      → pop session key kind now rows ≡ (rows, err challenge_not_found)
  unfolding pop mutation delete_returning take_live returned
  pop-missing f = rw (ready, bindable, f) refl

live_key :
    (key : Text) (kind : ChallengeKind) (now : Instant) (row : ChallengeRow)
    → is_live_row key kind now row ≡ true
    → has_key key kind row ≡ true
live_key key kind now row h = ground arith

-- After a call saved a challenge without an error, for a user whose handle is bytes: before it expires a
-- pop gives the record that was saved, and the next pop, at any time, finds no challenge.
pub pop-save-once :
    (session : Session) (key : Text) (kind : ChallengeKind) (challenge : Bytes) (ttl : ℤ)
    (user : Option PasskeyUser) (context : Option RegistrationContext) (now later again : Instant)
    (rows t : Table) {r : ChallengeRecord}
    → save session key kind challenge ttl user context now rows ≡ (t, ok r)
    → ((u : PasskeyUser) → r.user ≡ some u → AreBytes u.user_handle)
    → ltb later r.expires_at ≡ true
    → let popped = pop session key kind later t in
      (popped.1 ≡ ok r) × ((pop session key kind again popped.0).1 ≡ err challenge_not_found)
unfolding challenge_values
pop-save-once session key kind challenge ttl user context now later again rows t {r} h bytes live =
    let (ready, bindable, e_key, e_kind, e_t) =
      save-upsert session key kind challenge ttl user context now rows t r h in
    let row = challenge_values r in
    let same = has_key key kind in
    let own : same row ≡ true = rw (← e_key, ← e_kind) (own_row r) in
    let is_found : is_live_row key kind later row ≡ true = ground arith in
    let first : fetchone (select (is_live_row key kind later) t) ≡ some row = rw e_t (
      select-upsert same row own (is_live_row key kind later) (live_key key kind later) rows
        is_found) in
    let gone : select (is_live_row key kind again) (delete_where (is_live_row key kind later) t)
        ≡ [] =
      rw e_t (
        delete-upsert same row own (is_live_row key kind again) (live_key key kind again)
          (is_live_row key kind later) is_found (live_key key kind later) rows) in
    let popped =
      pop-found session ready key kind later t bindable row first
        (sqlite_challenge-challenge_values r bytes) in
    (
      ap (λ p. p.1) popped,
      rw
          (
            popped,
            pop-missing session ready key kind again (delete_where (is_live_row key kind later) t)
                bindable (ap fetchone gone),
          )
          refl,
    )
