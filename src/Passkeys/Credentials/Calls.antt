-- ===== src/Passkeys/Credentials/Calls.antt =====
-- The writing calls of the memory credential store as values, and what every run of them keeps.
use my_auth.Text.{Text, Bytes}
use my_auth.Passkeys.Models.{VerifiedRegistration}
use my_auth.Prelude.{none, some, [], Bool, Option, ℕ, ◌∷◌, List}
pub mod Kept
pub mod Last
use my_auth.Passkeys.Credentials
use my_auth.Passkeys.Credentials.{
  Store, compare_and_set_credential_after_login, update_credential_label, delete_credential,
}
use my_auth.Passkeys.Credentials.Step.{
  IsWf, Step, save_registration-Step, compare_and_set-Step, update_credential_label-Step,
  delete_credential-Step,
}
use my_auth.Passkeys.Credentials.Invariant.{Step-IsWf}

pub data Call : Type 0 where
  save_registration : (result : VerifiedRegistration) → Call
  compare_and_set :
      (id : Bytes) (expected_sign_count new_sign_count : ℕ) (device_type : Option Text)
      (backed_up : Option Bool)
      → Call
  update_label : (id : Bytes) (user_id : Text) (label : Option Text) → Call
  delete : (id : Bytes) (user_id : Option Text) (require_remaining : Bool) → Call

unfoldable pub call : Call → Store → Store
call (Call.save_registration result) s = (Credentials.save_registration result s).0
call (Call.compare_and_set id expected new device_type backed_up) s =
    (compare_and_set_credential_after_login id expected new device_type backed_up s).0
call (Call.update_label id user_id label) s = (update_credential_label id user_id label s).0
call (Call.delete id user_id require_remaining) s =
    (delete_credential id user_id require_remaining s).0

unfoldable pub run : List Call → Store → Store
unfolding call
run [] s = s
run (c ∷ cs) s = run cs (call c s)

-- The credential that a call may delete.
abbrev pub removes : Call → Option Bytes
removes (Call.delete id user_id require_remaining) = some id
removes _ = none

pub call-Step : (c : Call) (s : Store) → Step (removes c) s (call c s)
unfolding call
call-Step (Call.save_registration result) s = save_registration-Step result s
call-Step (Call.compare_and_set id expected new device_type backed_up) s =
    compare_and_set-Step id expected new device_type backed_up s
call-Step (Call.update_label id user_id label) s = update_credential_label-Step id user_id label s
call-Step (Call.delete id user_id require_remaining) s =
    delete_credential-Step id user_id require_remaining s

-- Whatever calls are made, the store stays well formed: users, handles and credentials agree, each
-- credential stands once, under its own identifier, and belongs to a stored user.
pub run-IsWf : (calls : List Call) (s : Store) → IsWf s → IsWf (run calls s)
unfolding run
run-IsWf [] s w = w
run-IsWf (c ∷ cs) s w =
    run-IsWf cs (call c s) (Step-IsWf (removes c) s (call c s) w (call-Step c s))
