-- ===== src/Passkeys/Credentials/Login.antt =====
-- What the compare-and-set after a login does in the memory credential store.
use my_auth.Dict.Laws.{get-put}
use my_auth.Equality.{beq_self, option_eq, nat_eq, list_eq, ◌==◌}
use my_auth.Result.{counter_conflict, err, ok}
use my_auth.Dict.{get}
use my_auth.Passkeys.Models.{PasskeyCredential}
use my_auth.Prelude.{
  none, max, ltb, inr, inl, refl, ◌&&◌, false, nat_beq, not, ◌≤◌, Bool-cases, arith, ◌⊎◌, some, ◌≡◌,
  ◌≢◌, Bool, Option, ℕ,
}
use my_auth.Text.{Text, Bytes}
use my_auth.Passkeys.Credentials.{
  with_credential, get_credential, Store, compare_and_set_credential_after_login,
  compare_and_set_found, after_login,
}

-- What a caller knows of the store before and after an accepted compare-and-set.
pub record LoggedIn (id : Bytes) (expected new : ℕ) (device : Option Text) (backed_up : Option Bool)
    (s t : Store) (d : PasskeyCredential) : Type 0 where
  pub before : PasskeyCredential
  pub found : get_credential id s ≡ some before
  pub current : (expected ≡ 0) ⊎ (before.sign_count ≡ expected)
  pub counts_up : before.sign_count ≤ new
  pub counter : d.sign_count ≡ new
  pub updated : d ≡ record before { sign_count = new; device_type = device; backed_up = backed_up }
  pub stored : get_credential id t ≡ some d
  pub others : (j : Bytes) → (id == j) ≡ false → get_credential j t ≡ get_credential j s
  pub same_users : (t.users ≡ s.users) × (t.users_by_handle ≡ s.users_by_handle)

login_found :
    (id : Bytes) (expected new : ℕ) (device : Option Text) (backed_up : Option Bool)
    (found : Option PasskeyCredential) (s : Store) {t : Store} {d : PasskeyCredential}
    → get s.credentials id ≡ found
    → compare_and_set_found id expected new device backed_up found s ≡ (t, ok d)
    → LoggedIn id expected new device backed_up s t d
unfolding compare_and_set_found get_credential
login_found id expected new device backed_up none s e h = absurd (ground arith)
login_found id expected new device backed_up (some c) s {t} {d} e h =
    elim (Bool-cases (not (nat_beq expected 0) && not (nat_beq c.sign_count expected))) [
      | inl stale ↦ absurd (ground arith)
      | inr fresh ↦ elim (Bool-cases (ltb new c.sign_count)) [
        | inl back ↦ absurd (ground arith)
        | inr up ↦
            let top : max c.sign_count new ≡ new = ground arith in
            let e_d : after_login c new device backed_up ≡ d = ground arith in
            let e_t : with_credential s id (after_login c new device backed_up) ≡ t =
              ground arith in
            rw (← e_t, ← e_d)
              (record {
                before = c;
                found = e;
                current = elim (Bool-cases (nat_beq expected 0)) [
                  | inl zero_expected ↦ inl (ground arith)
                  | inr counted ↦ inr (ground arith)
                ];
                counts_up = ground arith;
                counter = top;
                updated = rw top refl;
                stored =
                    rw
                      (
                        get-put s.credentials id id (after_login c new device backed_up),
                        beq_self id,
                      )
                      refl;
                others = λ j apart.
                    rw (get-put s.credentials id j (after_login c new device backed_up), apart)
                      refl;
                same_users = (refl, refl);
              })
      ]
    ]

-- An accepted compare-and-set found the credential with the expected counter, or the caller expected
-- none; the counter is now the new one and never lower than it was; only the counter, the device
-- type and the backup flag of this one credential changed, and no user did.
pub compare_and_set-LoggedIn :
    (id : Bytes) (expected new : ℕ) (device : Option Text) (backed_up : Option Bool) (s : Store)
    {t : Store} {d : PasskeyCredential}
    → compare_and_set_credential_after_login id expected new device backed_up s ≡ (t, ok d)
    → LoggedIn id expected new device backed_up s t d
unfolding compare_and_set_credential_after_login
compare_and_set-LoggedIn id expected new device backed_up s h =
    login_found id expected new device backed_up _ s refl h

-- Two logins that both expect the same counter value, which is not zero, and of which the first is
-- accepted and moves the counter away from it: the second is refused with a counter conflict and
-- changes nothing, whatever counter it brings.
pub compare_and_set-compare_and_set :
    (id : Bytes) (expected new later : ℕ) (device other_device : Option Text)
    (backed_up other_backed_up : Option Bool) (s : Store) {t : Store} {d : PasskeyCredential}
    → expected ≢ 0
    → new ≢ expected
    → compare_and_set_credential_after_login id expected new device backed_up s ≡ (t, ok d)
    → compare_and_set_credential_after_login id expected later other_device other_backed_up t
      ≡ (t, err counter_conflict)
unfolding get_credential compare_and_set_credential_after_login compare_and_set_found
compare_and_set-compare_and_set id expected new later device other_device backed_up other_backed_up
      s {t} {d} counted moved h =
    let first = compare_and_set-LoggedIn id expected new device backed_up s h in
    rw first.stored (ground (arith, first.counter))
