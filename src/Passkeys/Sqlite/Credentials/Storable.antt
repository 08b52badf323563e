-- ===== src/Passkeys/Sqlite/Credentials/Storable.antt =====
-- The calls of the memory credential store keep its content one that tables hold.
use my_auth.Passkeys.Sqlite.Credentials.Inserts.{registered-IsStorable}
use my_auth.Passkeys.Sqlite.Credentials.Writes.{changed-IsStorable}
use my_auth.Equality.{list_beq_iff, option_eq, nat_eq, list_eq, ◌==◌}
use my_auth.Dict.Laws.{get-remove}
use my_auth.Prelude.{
  none, ltb, leb, ◌||◌, nat_beq, ◌&&◌, inl, refl, not, inr, ◌≡◌, some, Bool, Option, arith, ℕ,
  Bool-cases,
}
use my_auth.Dict.{get}
use my_auth.Passkeys.Models.{user_eq, PasskeyCredential, VerifiedRegistration}
use my_auth.Text.{Text, Bytes}
use my_auth.Passkeys.Sqlite.Credentials.Refines.{IsStorable}
use my_auth.Base64.Laws.{AreBytes}
use my_auth.Passkeys.Credentials.{
  count_credentials, after_login, is_foreign, differs_from, is_not_for, Store, without_credential,
  compare_and_set_found, delete_found, update_label_found, with_credential,
}
use my_auth.Passkeys.Credentials as Memory
use my_auth.Passkeys.Credentials.Calls.{Call, call}
use my_auth.Passkeys.Credentials.Invariant.{deleted-IsWf}

-- The identifiers and handles of a call are bytes.
abbrev pub HasBytes : Call → Type 0
HasBytes (Call.save_registration result) =
    AreBytes result.user.user_handle × AreBytes result.credential.credential_id
HasBytes (Call.compare_and_set id expected new device_type backed_up) = AreBytes id
HasBytes (Call.update_label id user_id label) = AreBytes id
HasBytes (Call.delete id user_id require_remaining) = AreBytes id

module _ (s : Store) (w : IsStorable s) where
  deleted-IsStorable : (id : Bytes) → IsStorable (without_credential s id)
  deleted-IsStorable id = record {
    wf = deleted-IsWf s w.wf id;
    users_unique = w.users_unique;
    handles = w.handles;
    ids = λ i c g. w.ids i c (ground (arith, get-remove s.credentials id i));
  }

  saved-IsStorable :
      (result : VerifiedRegistration)
      → AreBytes result.user.user_handle
      → AreBytes result.credential.credential_id
      → IsStorable (Memory.save_registration result s).0
  unfolding Memory.save_registration
  saved-IsStorable result h i =
      let u = result.user in
      let c = result.credential in
      elim (Bool-cases (c.user_id == u.user_id)) [
        | inr other ↦ rw other w
        | inl own ↦
            elim (Bool-cases (
              differs_from u (get s.users u.user_id)
              || differs_from u.user_id (get s.users_by_handle u.user_handle))) [
                | inl taken ↦ rw (own, taken) w
                | inr known ↦ elim (Bool-cases (is_foreign c (get s.credentials c.credential_id))) [
                  | inl foreign ↦ rw (own, known, foreign) w
                  | inr fine ↦
                      rw (own, known, fine)
                        (registered-IsStorable s w u c h i
                          ((list_beq_iff c.user_id u.user_id).0 own) (ground arith) (ground arith))
                ]
              ]
      ]

  module _ (id : Bytes) (b : AreBytes id) where
    logged_in-IsStorable :
        (expected new : ℕ) (device_type : Option Text) (backed_up : Option Bool)
        (found : Option PasskeyCredential)
        → get s.credentials id ≡ found
        → IsStorable (compare_and_set_found id expected new device_type backed_up found s).0
    unfolding compare_and_set_found
    logged_in-IsStorable expected new device_type backed_up none g = w
    logged_in-IsStorable expected new device_type backed_up (some c) g =
        elim (Bool-cases (not (nat_beq expected 0) && not (nat_beq c.sign_count expected))) [
          | inl stale ↦ rw stale w
          | inr fresh ↦ elim (Bool-cases (ltb new c.sign_count)) [
            | inl low ↦ rw (fresh, low) w
            | inr high ↦
                rw (fresh, high)
                  (changed-IsStorable s w id b c (after_login c new device_type backed_up) g
                    (record {
                      same_id = refl;
                      same_owner = refl;
                      same_key = refl;
                      counts_up = omega arith;
                    }))
          ]
        ]

    labelled-IsStorable :
        (user_id : Text) (label : Option Text) (found : Option PasskeyCredential)
        → get s.credentials id ≡ found
        → IsStorable (update_label_found id user_id label found s).0
    unfolding update_label_found
    labelled-IsStorable user_id label none g = w
    labelled-IsStorable user_id label (some c) g = elim (Bool-cases (c.user_id == user_id)) [
      | inr other ↦ rw other w
      | inl own ↦ rw own (
          changed-IsStorable s w id b c (record c { label = label }) g
            (record {
              same_id = refl;
              same_owner = refl;
              same_key = refl;
              counts_up = omega arith;
            }))
    ]

    removed-IsStorable :
        (user_id : Option Text) (require_remaining : Bool) (found : Option PasskeyCredential)
        → IsStorable (delete_found id user_id require_remaining found s).0
    unfolding delete_found
    removed-IsStorable user_id require_remaining none = w
    removed-IsStorable user_id require_remaining (some c) =
        elim (Bool-cases (is_not_for user_id c)) [
          | inl other ↦ rw other w
          | inr own ↦
              elim (Bool-cases (require_remaining && leb (count_credentials c.user_id s) 1)) [
                | inl last ↦ rw (own, last) w
                | inr more ↦ rw (own, more) (deleted-IsStorable id)
              ]
        ]

  pub call-IsStorable : (c : Call) → HasBytes c → IsStorable (call c s)
  unfolding call Memory.compare_and_set_credential_after_login Memory.update_credential_label
      Memory.delete_credential
  call-IsStorable (Call.save_registration result) h = saved-IsStorable result h.0 h.1
  call-IsStorable (Call.compare_and_set id expected new device_type backed_up) h =
      logged_in-IsStorable id h expected new device_type backed_up (get s.credentials id) refl
  call-IsStorable (Call.update_label id user_id label) h =
      labelled-IsStorable id h user_id label (get s.credentials id) refl
  call-IsStorable (Call.delete id user_id require_remaining) h =
      removed-IsStorable id h user_id require_remaining (get s.credentials id)
