-- ===== src/Passkeys/Sqlite/Credentials/Counts.antt =====
-- Which values the calls bind, and that the counters of the memory store keep fitting an INTEGER column.
use my_auth.Passkeys.Credentials.Calls.{Call, call}
use my_auth.Passkeys.Sqlite.Credentials.Writes.{changed-CountsFit}
use my_auth.Equality.{option_eq, list_eq, nat_eq, ◌==◌}
use my_auth.Dict.Laws.{get-set_default, get-remove}
use my_auth.Dict.{get}
use my_auth.Sql.Bind.{optional, CanBind}
use my_auth.Passkeys.Models.{user_eq, PasskeyCredential, VerifiedRegistration}
use my_auth.Passkeys.Sqlite.Credentials.{
  text, Value, integer, credential_parameters, user_parameters,
}
use my_auth.Text.{Text, Bytes}
use my_auth.Passkeys.Sqlite.Credentials.Refines.{CountsFit}
use my_auth.Passkeys.Credentials.{
  is_foreign, differs_from, with_registration, count_credentials, after_login, is_not_for,
  without_credential, delete_found, update_label_found, compare_and_set_found, Store,
}
use my_auth.Passkeys.Credentials as Memory
use my_auth.Prelude.{
  [], ◌||◌, ◌∷◌, ◌++◌, Option-cases, List, none, ltb, leb, ◌&&◌, inl, nat_beq, inr, not, Bool-cases,
  arith, ◌≡◌, some, Bool, All, ℕ, Option, refl,
}

-- What a call may bind to the parameters of its statements: its texts and its counters.
abbrev pub parameters : Call → List Value
parameters (Call.save_registration result) =
    user_parameters result.user ++ credential_parameters result.credential
parameters (Call.compare_and_set id expected new device_type backed_up) =
    integer new ∷ optional device_type ∷ integer expected ∷ []
parameters (Call.update_label id user_id label) = optional label ∷ text user_id ∷ []
parameters (Call.delete id user_id require_remaining) = optional user_id ∷ []

module _ (s : Store) (fit : CountsFit s) where
  saved-CountsFit :
      (result : VerifiedRegistration)
      → All CanBind (parameters (Call.save_registration result))
      → CountsFit (Memory.save_registration result s).0
  unfolding Memory.save_registration user_parameters credential_parameters
  saved-CountsFit result can =
      let u = result.user in
      let c = result.credential in
      let count : CanBind (integer c.sign_count) = can.1.1.1.1.0 in
      let added : CountsFit (with_registration s u c) = λ i d g.
        elim (Option-cases (get s.credentials i)) [
          | inr (x, old) ↦
              fit i d (ground (arith, get-set_default s.credentials c.credential_id i c))
          | inl fresh ↦
              let same : c ≡ d =
                ground (arith, get-set_default s.credentials c.credential_id i c) in
              rw (← same) count
        ] in
      elim (Bool-cases (c.user_id == u.user_id)) [
        | inr other ↦ rw other fit
        | inl own ↦
            elim (Bool-cases (
              differs_from u (get s.users u.user_id)
              || differs_from u.user_id (get s.users_by_handle u.user_handle))) [
                | inl taken ↦ rw (own, taken) fit
                | inr known ↦ elim (Bool-cases (is_foreign c (get s.credentials c.credential_id))) [
                  | inl foreign ↦ rw (own, known, foreign) fit
                  | inr fine ↦ rw (own, known, fine) added
                ]
              ]
      ]

  module _ (id : Bytes) where
    logged_in-CountsFit :
        (expected new : ℕ) (device_type : Option Text) (backed_up : Option Bool)
        (found : Option PasskeyCredential)
        → CanBind (integer new)
        → get s.credentials id ≡ found
        → CountsFit (compare_and_set_found id expected new device_type backed_up found s).0
    unfolding compare_and_set_found
    logged_in-CountsFit expected new device_type backed_up none can g = fit
    logged_in-CountsFit expected new device_type backed_up (some c) can g =
        let count : CanBind (integer c.sign_count) = fit id c g in
        elim (Bool-cases (not (nat_beq expected 0) && not (nat_beq c.sign_count expected))) [
          | inl stale ↦ rw stale fit
          | inr fresh ↦ elim (Bool-cases (ltb new c.sign_count)) [
            | inl low ↦ rw (fresh, low) fit
            | inr high ↦
                rw (fresh, high)
                  (changed-CountsFit s id (after_login c new device_type backed_up) fit
                    (ground arith))
          ]
        ]

    labelled-CountsFit :
        (user_id : Text) (label : Option Text) (found : Option PasskeyCredential)
        → get s.credentials id ≡ found
        → CountsFit (update_label_found id user_id label found s).0
    unfolding update_label_found
    labelled-CountsFit user_id label none g = fit
    labelled-CountsFit user_id label (some c) g = elim (Bool-cases (c.user_id == user_id)) [
      | inr other ↦ rw other fit
      | inl own ↦ rw own (changed-CountsFit s id (record c { label = label }) fit (fit id c g))
    ]

    removed-CountsFit :
        (user_id : Option Text) (require_remaining : Bool) (found : Option PasskeyCredential)
        → CountsFit (delete_found id user_id require_remaining found s).0
    unfolding delete_found
    removed-CountsFit user_id require_remaining none = fit
    removed-CountsFit user_id require_remaining (some c) =
        let left : CountsFit (without_credential s id) =
          λ i d g. fit i d (ground (arith, get-remove s.credentials id i)) in
        elim (Bool-cases (is_not_for user_id c)) [
          | inl other ↦ rw other fit
          | inr own ↦
              elim (Bool-cases (require_remaining && leb (count_credentials c.user_id s) 1)) [
                | inl last ↦ rw (own, last) fit
                | inr more ↦ rw (own, more) left
              ]
        ]

  pub call-CountsFit : (c : Call) → All CanBind (parameters c) → CountsFit (call c s)
  unfolding call Memory.compare_and_set_credential_after_login Memory.update_credential_label
      Memory.delete_credential
  call-CountsFit (Call.save_registration result) can = saved-CountsFit result can
  call-CountsFit (Call.compare_and_set id expected new device_type backed_up) can =
      logged_in-CountsFit id expected new device_type backed_up (get s.credentials id) can.0 refl
  call-CountsFit (Call.update_label id user_id label) can =
      labelled-CountsFit id user_id label (get s.credentials id) refl
  call-CountsFit (Call.delete id user_id require_remaining) can =
      removed-CountsFit id user_id require_remaining (get s.credentials id)
