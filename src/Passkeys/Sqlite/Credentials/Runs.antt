-- ===== src/Passkeys/Sqlite/Credentials/Runs.antt =====
-- The writing calls of the SQLite credential store: whatever is called, its tables and its answers are
-- those of the memory store.
use my_auth.Passkeys.Sqlite.Credentials.Counts.{parameters}
use my_auth.Sql.Bind.{CanBind}
use my_auth.Passkeys.Sqlite.Credentials.Storable.{HasBytes}
use my_auth.Passkeys.Models.{PasskeyCredential}
use my_auth.Passkeys.Sqlite.Credentials.Refines.{tables_of}
use my_auth.Prelude.{none, [], All, Bool, Option, ◌∷◌, List, ◌≡◌}
use my_auth.Result.{Result, ok}
use my_auth.Passkeys.Sqlite.{begin_error, Session, Base, Connection}
use my_auth.Passkeys.Sqlite.Credentials as Sqlite
use my_auth.Passkeys.Credentials as Memory
use my_auth.Passkeys.Credentials.{Store}
use my_auth.Passkeys.Credentials.Calls.{Call, call}
use my_auth.Passkeys.Sqlite.Credentials.{Tables}

-- What a call answers or raises.
pub data Answer : Type 0 where
  saved : Result (Unit {0}) → Answer
  logged_in : Result PasskeyCredential → Answer
  labelled : Result (Option PasskeyCredential) → Answer
  deleted : Result Bool → Answer

unfoldable pub memory_call : Call → Store → Store × Answer
memory_call (Call.save_registration result) s =
    let (t, r) = Memory.save_registration result s in (t, saved r)
memory_call (Call.compare_and_set id expected new device_type backed_up) s =
    let (t, r) =
      Memory.compare_and_set_credential_after_login id expected new device_type backed_up s in
    (t, logged_in r)
memory_call (Call.update_label id user_id label) s =
    let (t, a) = Memory.update_credential_label id user_id label s in (t, labelled (ok a))
memory_call (Call.delete id user_id require_remaining) s =
    let (t, a) = Memory.delete_credential id user_id require_remaining s in (t, deleted (ok a))

unfoldable pub sqlite_call : Session → Call → Tables → Tables × Answer
sqlite_call session (Call.save_registration result) s =
    let (t, r) = Sqlite.save_registration session result s in (t, saved r)
sqlite_call session (Call.compare_and_set id expected new device_type backed_up) s =
    let (t, r) =
      Sqlite.compare_and_set_credential_after_login session id expected new device_type backed_up
        s in
    (t, logged_in r)
sqlite_call session (Call.update_label id user_id label) s =
    let (t, r) = Sqlite.update_credential_label session id user_id label s in (t, labelled r)
sqlite_call session (Call.delete id user_id require_remaining) s =
    let (t, r) = Sqlite.delete_credential session id user_id require_remaining s in (t, deleted r)

-- Calls one after the other, and their answers.
unfoldable pub memory_run : List Call → Store → Store × List Answer
unfolding memory_call
memory_run [] s = (s, [])
memory_run (c ∷ cs) s =
    let (t, a) = memory_call c s in let (u, rest) = memory_run cs t in (u, a ∷ rest)

-- A store's call, and the state in which it finds the caller's connection.
abbrev pub session_of : Base → Connection → Session
session_of base found = record { base = base; found = found }

unfoldable pub sqlite_run : Base → List (Connection × Call) → Tables → Tables × List Answer
unfolding sqlite_call
sqlite_run base [] s = (s, [])
sqlite_run base ((found, c) ∷ cs) s =
    let (t, a) = sqlite_call (session_of base found) c s in
    let (u, rest) = sqlite_run base cs t in (u, a ∷ rest)

-- The call finds the connection ready, its identifiers and handles are bytes, and its texts and counters
-- can be bound.
pub record IsFeasible (base : Base) (call : Connection × Call) : Type 0 where
  pub ready : begin_error (session_of base call.0) ≡ none
  pub bytes : HasBytes call.1
  pub values : All CanBind (parameters call.1)

-- The tables of a store, next to its answers.
abbrev pub in_tables {ℓ} : {A : Type ℓ} → Store × A → Tables × A
in_tables (s, a) = (tables_of s, a)
