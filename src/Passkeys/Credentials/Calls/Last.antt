-- ===== src/Passkeys/Credentials/Calls/Last.antt =====
-- A user who has a credential keeps one while every deletion asks that one remains.
use my_auth.Equality.{option_eq, nat_eq, list_eq, list_beq_iff, ◌==◌}
use my_auth.Dict.{values, get}
use my_auth.Passkeys.Models.{PasskeyCredential}
use my_auth.Passkeys.Credentials.{
  is_owned_by, is_not_for, delete_credential, count_credentials, Store, delete_found,
}
use my_auth.Prelude.{
  ap, refl, count_if, leb, inr, inl, Bool-cases, false, some, [], arith, ◌∷◌, Option, ◌≤◌, none,
  All, ◌≡◌, true, List, Bool,
}
use my_auth.Text.{Bytes, Text}
use my_auth.Passkeys.Credentials.Calls.{Call, call, run, call-Step, run-IsWf}
use my_auth.Passkeys.Credentials.Step.{same, registered, changed, deleted, IsWf, Step}
use my_auth.Dict.Count.{count_if-set_default, count_if-put-old, count_if-remove}

module _ (user_id : Text) (s t : Store) (w : IsWf s) where
  -- Only a deletion makes a user's credentials fewer.
  Step-count : Step none s t → count_credentials user_id s ≤ count_credentials user_id t
  unfolding count_credentials
  Step-count (same e) = rw e (omega arith)
  Step-count (registered u d own known handled ours e) =
      rw e (count_if-set_default (is_owned_by user_id) s.credentials d.credential_id d)
  Step-count (changed j d x found ev e) =
      let kept =
        count_if-put-old (is_owned_by user_id) s.credentials j x d found
          (ap (λ o. o == user_id) ev.same_owner) in
      rw (e, kept) (omega arith)
  Step-count (deleted j d found named e) = cc

-- With `require_remaining`, what a deletion removes is never the last credential of its owner.
delete_found-count :
    (user_id : Text) (id : Bytes) (owner : Option Text) (s : Store)
    (found : Option PasskeyCredential)
    → IsWf s
    → get s.credentials id ≡ found
    → 1 ≤ count_credentials user_id s
    → 1 ≤ count_credentials user_id (delete_found id owner true found s).0
unfolding delete_found count_credentials
delete_found-count user_id id owner s none w e h = h
delete_found-count user_id id owner s (some c) w e h = elim (Bool-cases (is_not_for owner c)) [
  | inl other ↦ rw other h
  | inr own ↦ elim (Bool-cases (leb (count_if (is_owned_by c.user_id) (values s.credentials)) 1)) [
    | inl last ↦ rw (own, last) h
    | inr more ↦
        rw (own, more)
          (elim (Bool-cases (c.user_id == user_id)) [
            | inl here ↦
                let e_user : c.user_id ≡ user_id = (list_beq_iff c.user_id user_id).0 here in
                let many : leb (count_if (is_owned_by user_id) (values s.credentials)) 1 ≡ false =
                  rw (← e_user) more in
                ground (arith, count_if-remove (is_owned_by user_id) s.credentials id c w.unique e)
            | inr there ↦
                ground (arith, count_if-remove (is_owned_by user_id) s.credentials id c w.unique e)
          ])
  ]
]

abbrev pub is_guarded : Call → Bool
is_guarded (Call.delete id user_id require_remaining) = require_remaining
is_guarded _ = true

call_count :
    (c : Call) (user_id : Text) (s : Store)
    → IsWf s
    → is_guarded c ≡ true
    → 1 ≤ count_credentials user_id s
    → 1 ≤ count_credentials user_id (call c s)
unfolding call delete_credential
call_count (Call.delete id owner false) user_id s w g h = cc
call_count (Call.delete id owner true) user_id s w g h =
    (delete_found-count user_id id owner s _ w refl h)
call_count (Call.save_registration result) user_id s w g h =
    omega (arith, Step-count user_id s _ w (call-Step (Call.save_registration result) s), h)
call_count (Call.compare_and_set id expected new device_type backed_up) user_id s w g h = omega (
  arith,
  Step-count user_id s _ w
      (call-Step (Call.compare_and_set id expected new device_type backed_up) s),
  h,
)
call_count (Call.update_label id owner label) user_id s w g h =
    omega (arith, Step-count user_id s _ w (call-Step (Call.update_label id owner label) s), h)

-- From a well-formed store, over every run of calls whose deletions all require a remaining
-- credential: a user who has a credential at the start has one at the end, so nobody is locked out.
pub run-keeps_one :
    (calls : List Call) (user_id : Text) (s : Store)
    → IsWf s
    → All (λ c. is_guarded c ≡ true) calls
    → 1 ≤ count_credentials user_id s
    → 1 ≤ count_credentials user_id (run calls s)
unfolding run
run-keeps_one [] user_id s w g h = h
run-keeps_one (c ∷ cs) user_id s w g h =
    run-keeps_one cs user_id (call c s) (run-IsWf (c ∷ []) s w) g.1 (call_count c user_id s w g.0 h)
