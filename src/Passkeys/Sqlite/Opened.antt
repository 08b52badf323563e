-- ===== src/Passkeys/Sqlite/Opened.antt =====
-- On which databases a SQLite store opens.
use my_auth.Passkeys.Sqlite.{path, connection}
use my_auth.Equality.{option_eq, list_eq, nat_eq, ◌==◌}
use my_auth.Schema.Inspect.{is_current_state, inspect_sqlite_schema}
use my_auth.Prelude.{none, ◌∙◌, ap, true, refl, sym, arith, ◌&&◌, not, false, ◌≡◌}
use my_auth.Passkeys.Sqlite.{
  is_memory_path, is_external, begin_error, is_unready, Connection, Base, is_refused_database,
  Database, new_base,
}
use my_auth.Text.{codes, Text}
use my_auth.Result.{runtime_error, value_error, ok, bind_ok, guard_ok, ok_injective}
use my_auth.Schema.{Catalog}
use my_auth.Schema.Current.{IsCurrent, inspect_sqlite_schema-IsCurrent}

-- A connection that the mode "external" accepts.
ready_connection :
    (mode : Text) (database : Database)
    → is_refused_database mode database ≡ false
    → is_external mode ≡ true
    → (c : Connection) × (database ≡ connection c)
      × (is_unready mode c ≡ false)
      × (c.in_transaction ≡ true)
      × (c.foreign_keys ≡ 1)
ready_connection mode (path p) h e = absurd (ground arith)
ready_connection mode (connection c) h e = (c, refl, h, ground arith, ground arith)

-- A connection that the mode "external" accepts is not refused in the same state.
ready_session :
    (mode : Text) (database : Database) (base : Base)
    → base ≡ record { database = database; transaction_mode = mode }
    → is_external mode ≡ true
    → (c : Connection) → database ≡ connection c
    → is_unready mode c ≡ false
    → begin_error (record { base = base; found = c }) ≡ none
ready_session mode database base same e c d ready =
    let opened : Base = record { database = connection c; transaction_mode = mode } in
    let free : begin_error (record { base = opened; found = c }) ≡ none = rw (ready, e) refl in
    let made : base ≡ opened =
      same
      ∙ ap {A = Database} {B = Base} (λ x. record { database = x; transaction_mode = mode }) d in
    ap (λ b. begin_error (record { base = b; found = c })) made ∙ free

-- A store that opens has found a current schema: one version row, which says 3, the tables with their
-- canonical columns, unique handles, credentials that reference users. In the mode "external" it is
-- on a connection in a transaction with foreign keys, and a call that finds the connection in this
-- state is not refused.
pub new_base-IsCurrent :
    (catalog : Database → Catalog) (database : Database) (mode : Text) {base : Base}
    → new_base (λ d. inspect_sqlite_schema (catalog d)) database mode ≡ ok base
    → IsCurrent (catalog database)
      × (base ≡ record { database = database; transaction_mode = mode })
      × (is_external mode ≡ true
          → (c : Connection) × (database ≡ connection c)
            × (c.in_transaction ≡ true)
            × (c.foreign_keys ≡ 1)
            × (begin_error (record { base = base; found = c }) ≡ none))
unfolding new_base
new_base-IsCurrent catalog database mode {base} h =
    let (a, h1) =
      guard_ok (not (is_external mode) && not (mode == codes "operation")) value_error _ h in
    let (b, h2) = guard_ok (is_memory_path database) value_error _ h1 in
    let (c, h3) = guard_ok (is_refused_database mode database) runtime_error _ h2 in
    let (i, d, h4) = bind_ok (inspect_sqlite_schema (catalog database)) _ h3 in
    let (e, h5) = guard_ok (not (is_current_state i.state)) runtime_error _ h4 in
    let same = ok_injective h5 in
    (
      inspect_sqlite_schema-IsCurrent (catalog database) i d (ground arith),
      sym same,
      λ outside.
          let (conn, same_connection, ready, active, keys) =
            ready_connection mode database c outside in
          (
            conn,
            same_connection,
            active,
            keys,
            ready_session mode database base (sym same) outside conn same_connection ready,
          ),
    )
