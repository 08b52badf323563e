-- ===== src/Tests/Passkeys.antt =====
-- Runs of the passkey stores.
use my_auth.Passkeys.Service.Labels.{label_credential-Labelled, Labelled}
use my_auth.Passkeys.Service.{
  removal_error, remove_credential, normalize_credential_label, label_credential,
}
use my_auth.Passkeys.Service.Removal.{
  remove_credential-Refused, remove_credential-Removed, Refused, Removed,
}
use my_auth.Int.{add_seconds, pos}
use my_auth.Result.{mutation_denied, ok, challenge_not_found, counter_conflict, err, is_ok}
use my_auth.Dict.{set_default_found, set_default, remove, put, remove_all, get, keys_where}
use my_auth.Dict.Unique.{IsUnique}
use my_auth.Prelude.{
  ◌↔◌, refl, count_if, ap, leb, if◌then◌else◌, true, arith, [], some, none, false, ◌≡◌, ◌∷◌, ◌≤◌,
}
use my_auth.Equality.{pair_eq, list_beq, option_beq, pair_beq, nat_eq, list_eq}
use my_auth.Text.{strip, codes}
use my_auth.Passkeys.Models.{
  PasskeyUser, VerifiedRegistration, ChallengeRecord, PasskeyCredential, registration, kind_eq,
  user_beq,
}
use my_auth.Passkeys.Challenges
use my_auth.Passkeys.Challenges.{save, pop, Records, unexpired, context_user, new_record}
use my_auth.Passkeys.Challenges.Once
use my_auth.Passkeys.Challenges.Once.{pops, saves, pops-le-saves}
use my_auth.Passkeys.Challenges.Laws.{pop-save}
use my_auth.Passkeys.Credentials.{
  delete_credential, delete_found, update_credential_label, update_label_found,
  compare_and_set_found, list_credentials_for_user, handle_found, get_user_by_handle,
  count_credentials, save_registration, compare_and_set_credential_after_login, get_credential,
  get_user, Store, empty,
}
use my_auth.Passkeys.Credentials.Step.{IsWf}
use my_auth.Passkeys.Credentials.Calls.{Call, call, run, run-IsWf}
use my_auth.Passkeys.Credentials.Calls.Kept.{EvolvedIn, run-users, run-EvolvedIn}
use my_auth.Passkeys.Credentials.Calls.Last.{run-keeps_one}
use my_auth.Passkeys.Credentials.Registration.{save_registration-Acceptable, Acceptable}
use my_auth.Passkeys.Credentials.Login.{
  LoggedIn, compare_and_set-LoggedIn, compare_and_set-compare_and_set,
}

program : Unit {0}
unfolding save pop unexpired context_user new_record Challenges.cleanup_expired keys_where
    remove_all add_seconds get put remove list_beq option_beq pair_beq user_beq run call
    save_registration get_user get_user_by_handle handle_found list_credentials_for_user
    get_credential compare_and_set_found compare_and_set_credential_after_login update_label_found
    update_credential_label count_credentials delete_found delete_credential set_default
    set_default_found count_if remove_credential removal_error normalize_credential_label
    label_credential strip
program = tt

pops-le-saves_example :
    let calls =
      Once.Call.save (codes "k") registration (1 ∷ []) (pos 60) none none 5
      ∷ Once.Call.pop (codes "k") registration 6
      ∷ Once.Call.pop (codes "k") registration 7
      ∷ [] in
    pops (codes "k", registration) calls [] ≤ saves (codes "k", registration) calls []
pops-le-saves_example =
    pops-le-saves
      (Once.Call.save (codes "k") registration (1 ∷ []) (pos 60) none none 5
        ∷ Once.Call.pop (codes "k") registration 6
        ∷ Once.Call.pop (codes "k") registration 7
        ∷ [])
      (codes "k", registration)

abbrev challenge : ChallengeRecord
challenge = record {
  challenge = 1 ∷ [];
  kind = registration;
  key = codes "k";
  expires_at = 60000005;
  user = none;
  registration_kind = none;
  capability_id = none;
}

abbrev waiting : Records
waiting = ((codes "k", registration), challenge) ∷ []

challenge_saved :
    save (codes "k") registration (1 ∷ []) (pos 60) none none 5 [] ≡ (waiting, ok challenge)
unfolding program
challenge_saved = refl

pop-save_example :
    (challenge.challenge ≡ 1 ∷ [])
    × (challenge.kind ≡ registration)
    × (add_seconds 5 (pos 60) ≡ ok challenge.expires_at)
    × ((pop
          (codes "k")
          registration
          7
          (save (codes "k") registration (1 ∷ []) (pos 60) none none 5 []).0).1
        ≡ (if leb challenge.expires_at 7 then err challenge_not_found else ok challenge))
pop-save_example =
    pop-save (codes "k") registration (1 ∷ []) (pos 60) none none 5 7 []
      (ap (λ p. p.1) challenge_saved)

waiting-IsUnique : IsUnique waiting
unfolding program
waiting-IsUnique = (refl, tt)

abbrev alice : PasskeyUser
alice = record { user_id = codes "u"; user_handle = 1 ∷ []; name = codes "a"; display_name = none }

abbrev key : PasskeyCredential
key = record {
  credential_id = 9 ∷ [];
  user_id = codes "u";
  public_key = 7 ∷ [];
  sign_count = 5;
  transports = [];
  device_type = none;
  backed_up = none;
  label = none;
  created_at = 0;
}

abbrev registering : VerifiedRegistration
registering = record { user = alice; credential = key; context = none }

abbrev one : Store
one = record {
  users = (codes "u", alice) ∷ [];
  users_by_handle = (1 ∷ [], codes "u") ∷ [];
  credentials = (9 ∷ [], key) ∷ [];
}

empty-IsWf : IsWf empty
unfolding get
empty-IsWf = record {
  unique = tt;
  users_keyed = λ i u h. cc;
  handles_keyed = λ h i g. cc;
  credentials_keyed = λ i c h. cc;
  owned = λ i c h. cc;
}

run-IsWf_example : IsWf (run (Call.save_registration registering ∷ []) empty)
run-IsWf_example = run-IsWf (Call.save_registration registering ∷ []) empty empty-IsWf

one-IsWf : IsWf one
unfolding program
one-IsWf = run-IsWf_example

abbrev logging_in : Call
logging_in = Call.compare_and_set (9 ∷ []) 5 6 none none

abbrev deleting : Call
deleting = Call.delete (9 ∷ []) (some (codes "u")) true

alice_stored : get_user (codes "u") one ≡ some alice
unfolding program
alice_stored = refl

key_stored : get_credential (9 ∷ []) one ≡ some key
unfolding program
key_stored = refl

run-users_example : get_user (codes "u") (run (logging_in ∷ deleting ∷ []) one) ≡ some alice
run-users_example =
    run-users (logging_in ∷ deleting ∷ []) one (codes "u") alice one-IsWf alice_stored

run-EvolvedIn_example : EvolvedIn (9 ∷ []) key (run (logging_in ∷ logging_in ∷ []) one)
run-EvolvedIn_example =
    run-EvolvedIn (logging_in ∷ logging_in ∷ []) one (9 ∷ []) key (λ e. cc, (λ e. cc, tt))
      key_stored

one_key : 1 ≤ count_credentials (codes "u") one
unfolding program
one_key = omega arith

run-keeps_one_example : 1 ≤ count_credentials (codes "u") (run (logging_in ∷ deleting ∷ []) one)
run-keeps_one_example =
    run-keeps_one (logging_in ∷ deleting ∷ []) (codes "u") one one-IsWf (refl, (refl, tt)) one_key

save_registration-Acceptable_example :
    ((is_ok (save_registration registering one).1 ≡ true) ↔ Acceptable registering one)
    × (is_ok (save_registration registering one).1 ≡ false
        → (save_registration registering one).0 ≡ one)
save_registration-Acceptable_example = save_registration-Acceptable registering one

abbrev moved : PasskeyCredential
moved = record key { sign_count = 6 }

abbrev later : Store
later = record one { credentials = (9 ∷ [], moved) ∷ [] }

logged_in : compare_and_set_credential_after_login (9 ∷ []) 5 6 none none one ≡ (later, ok moved)
unfolding program
logged_in = refl

compare_and_set-LoggedIn_example : LoggedIn (9 ∷ []) 5 6 none none one later moved
compare_and_set-LoggedIn_example = compare_and_set-LoggedIn (9 ∷ []) 5 6 none none one logged_in

compare_and_set-compare_and_set_example :
    compare_and_set_credential_after_login (9 ∷ []) 5 8 none none later
    ≡ (later, err counter_conflict)
compare_and_set-compare_and_set_example =
    compare_and_set-compare_and_set (9 ∷ []) 5 6 8 none none none none one (omega arith)
      (omega arith) logged_in

abbrev bare : Store
bare = record one { credentials = [] }

removed_one : remove_credential (codes "u") (9 ∷ []) true one ≡ (bare, ok tt)
unfolding program
removed_one = refl

remove_credential-Removed_example : Removed (codes "u") (9 ∷ []) true one bare
remove_credential-Removed_example =
    remove_credential-Removed (codes "u") (9 ∷ []) true one one-IsWf removed_one

refused_one : remove_credential (codes "u") (9 ∷ []) false one ≡ (one, err mutation_denied)
unfolding program
refused_one = refl

remove_credential-Refused_example :
    (one ≡ one) × Refused (codes "u") (9 ∷ []) false one mutation_denied
remove_credential-Refused_example =
    remove_credential-Refused (codes "u") (9 ∷ []) false one refused_one

normalized : normalize_credential_label (some (codes " Key ")) ≡ ok (some (codes "Key"))
unfolding program
normalized = refl

abbrev named : PasskeyCredential
named = record key { label = some (codes "Key") }

abbrev relabelled : Store
relabelled = record one { credentials = (9 ∷ [], named) ∷ [] }

labelled_one :
    label_credential (codes "u") (9 ∷ []) (some (codes " Key ")) one ≡ (relabelled, ok named)
unfolding program
labelled_one = refl

label_credential-Labelled_example :
    Labelled (codes "u") (9 ∷ []) (some (codes " Key ")) one relabelled named
label_credential-Labelled_example =
    label_credential-Labelled (codes "u") (9 ∷ []) (some (codes " Key ")) one labelled_one
