-- ===== src/Lib.antt =====
-- my-auth: passkey authentication, enrollment capabilities and an optional OpenID provider, as a
-- Python package. Paths below are from the repository's root, under src/my_auth.
--
-- The program. A host application registers and authenticates users with passkeys. A challenge
-- store (passkey_memory.py) keeps one challenge per flow and kind until it is taken out or expires;
-- a credential store keeps users, their handles and their credentials with the signature counter of
-- the authenticator; passkey_sqlite.py has both stores on SQLite tables, and opens them only on a
-- schema that sqlite_schema.py finds current. An enrollment capability (enrollment.py) is a one-time
-- token that lets a flow register a user: it is issued, claimed by one flow, then consumed or
-- released, or it is revoked.
-- The OpenID core (oidc.py) issues authorization codes that are bound to a client, a redirect URI and
-- a PKCE challenge, and redeems them once; it checks clients and endpoints, keeps access tokens, and
-- releases a user's claims by the granted scopes. The passkey service (passkeys.py) calls the passkey
-- stores; the FastAPI adapters (fastapi.py, oidc_fastapi.py) call all of them.
--
-- The files.
--   Enrollment.antt, Enrollment/Memory.antt, Enrollment/Sqlite.antt: enrollment.py. Each method of
--     MemoryEnrollmentCapabilityStore and of SQLiteEnrollmentCapabilityStore (issue, claim, consume,
--     release, revoke) is the function of its name; what a method does with the row or record it
--     found is a helper by clauses (claim_match, consume_match, release_match, revoke_stored).
--     Enrollment/Lifecycle.antt has the changes that a capability can undergo as a relation,
--     Enrollment/Memory/Step.antt the steps of the store, and the files below them the runs.
--   Passkeys/Models.antt: passkey_models.py, the dataclasses, the registration context, bytes_to_b64url
--     and b64url_to_bytes. Passkeys/Config.antt: passkey_models.py, PasskeyConfig (__init__ as
--     new_passkey_config) and _normalize_origin.
--   Passkeys/Challenges.antt: passkey_memory.py, MemoryChallengeStore (save, pop, cleanup_expired).
--   Passkeys/Credentials.antt: passkey_memory.py, MemoryCredentialStore (save_registration, get_user,
--     get_user_by_handle, list_credentials_for_user, get_credential,
--     compare_and_set_credential_after_login, update_credential_label, delete_credential).
--     Passkeys/Credentials/Step.antt has its steps and its well-formed states.
--   Schema.antt, Schema/Layout.antt, Schema/Inspect.antt: sqlite_schema.py, _CANONICAL_COLUMNS,
--     _canonical_layout_diagnostics, _v2_layout_diagnostics and inspect_sqlite_schema, on what a
--     connection tells of its tables; a branch of the inspection is a function of its own.
--   Oidc/Pkce.antt, Oidc/Code.antt, Oidc/Code/Redeem.antt: oidc.py, the PKCE functions and
--     AuthorizationCode (issue, is_expired, redeem).
--   Passkeys/Stores.antt: passkey_models.py, the protocols ChallengeStore and CredentialStore as
--     interfaces, with the laws that the service's theorems take of a store; Passkeys/Stores/Memory.antt
--     fills them with the memory stores and proves the laws of these.
--   Passkeys/Response.antt: passkeys.py, what is read from a credential response
--     (_credential_id_from_response, _user_handle_from_response, _transports_from_response), over JSON
--     values as a data type.
--   Passkeys/Ceremony.antt, Passkeys/Ceremony/Service.antt: passkeys.py, begin_registration,
--     verify_registration, begin_authentication and finish_authentication of PasskeyService, for any
--     two stores. The first part of finish_authentication, before the challenge is taken, is identify;
--     the last part of verify_registration is verify_popped, and the library's check of an
--     authentication is verify_claimant. Passkeys/Ceremony/Calls.antt has the service's calls as data.
--   Passkeys/Sqlite.antt: passkey_sqlite.py, _SQLiteBase (__init__ as new_base, _connection with
--     mutation as mutation; a Session is the store with the state in which one call finds the caller's
--     connection) and the rows (_sqlite_user, _sqlite_credential, _sqlite_challenge and the
--     values that are written). Passkeys/Sqlite/Challenges.antt: SQLiteChallengeStore.
--     Passkeys/Sqlite/Credentials.antt: SQLiteCredentialStore; a method is the transaction around a
--     helper that has the SQL statements (save_in_transaction, login_found, label_in_transaction,
--     delete_in_transaction). The files below it relate the tables to the memory store: Refines.antt the reads,
--     Label, Login, Delete, Register and Inserts.antt the writes, Valid.antt the constraints, Storable and
--     Counts.antt what the calls keep of a store that tables can hold, and Runs.antt the runs of calls. Passkeys/Sqlite/Opened.antt: which databases a store opens on.
--   Passkeys/Service.antt: passkeys.py, normalize_credential_label and the methods list_credentials,
--     label_credential and remove_credential of PasskeyService.
--   Oidc/Scope.antt, Oidc/Client.antt: oidc.py, _scope_tuple, and the checks of OIDCClient
--     (get_allowed_scope, check_client_secret, check_endpoint_auth_method) with
--     validate_client_redirect and hash_client_secret. __post_init__ of OIDCClient is new_client.
--   Oidc/Tokens.antt, Oidc/Tokens/Save.antt: oidc.py, TokenRecord, and _key (token_key),
--     get_access_token, revoke_access_token and save of MemoryTokenStore.
--   Oidc/Url.antt, Oidc/Config.antt: oidc.py, _absolute_https_url, _origin, and OIDCProviderConfig
--     (__post_init__ as new_config, discovery_endpoint, metadata).
--   Oidc/Users.antt, Oidc/Provider.antt: oidc.py, OIDCUserAdapter with its default functions, and
--     OIDCProvider (__init__ as new_provider, query_client, subject_for, resolve_subject, is_active,
--     claims_for).
--   Oidc/Codes.antt: oidc.py, MemoryAuthorizationCodeStore (_cleanup as cleanup, save, get as
--     get_code, consume, has_nonce).
--   Prelude, Equality, Result, Exec, Text, Int, Url, Encoding, Base64, Dict, Sql: what the program uses
--     of Python and of SQLite: dictionaries in insertion order, exceptions, str and bytes as lists of
--     code points and bytes, statements that change the rows a condition selects. Sql/Bind.antt is the binding of a statement's
--     parameters: a text with a lone surrogate raises a UnicodeEncodeError (a ValueError), an integer
--     from 2^63 on an OverflowError; every statement of the SQLite stores binds its texts and counters.
--
-- State and concurrency. A store is a record or a dictionary that every operation takes and returns,
-- also when it raises. The writing methods of the enrollment, credential and code stores run under the
-- store's lock or in one transaction, so what threads do together is a sequence of calls; a theorem
-- on runs is about every such sequence. MemoryChallengeStore has no lock: its save and its pop write
-- to the dictionary once, and its cleanup_expired is taken to run without another call in between.
--
-- Parameters. SHA-256 is a function argument of which nothing is assumed. The clock's reading and the
-- random tokens and identifiers are arguments of the call that reads them. The WebAuthn library is a
-- record of functions of which nothing is assumed, and so are json.loads and repr, urlsplit, casefold,
-- lower and the int of a text, where the code hands them its input; an object of the host is what the code
-- reads of it. The user object of an
-- authorization code is of any type. Instants are microseconds since the year 1 and raise an
-- OverflowError at the end of the year 9999; the times of the OpenID core are whole seconds. Natural
-- numbers stand for the counters and times, which are never negative, and integers with a sign for
-- what the code tests for its sign. Every function is by structural recursion; there is no fuel.
--
-- Not modelled. Values are of their annotated types, so the isinstance checks against other types
-- always pass, except in a credential response, a token mapping and a user's attributes, whose values
-- may be of any type. The memory stores hand out live objects; the model hands out their values, so a
-- host that writes to such an object is outside it. finish_authentication reads the counter of
-- the stored credential again after the verification, from such an object; the model keeps the value
-- that it read before. Of SQLite, locks and files are outside it, and so is what a caller's own
-- transaction does around a call. The creation and migration of schemas,
-- the FastAPI adapters and the templates are outside it too.
pub mod Prelude
pub mod Equality
pub mod Result
pub mod Exec
pub mod Text
pub mod Int
pub mod Url
pub mod Encoding
pub mod Base64
pub mod Dict
pub mod Sql
pub mod Schema
pub mod Enrollment
pub mod Passkeys
pub mod Oidc
mod Tests
