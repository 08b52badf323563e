-- ===== src/Passkeys/Challenges/Once.antt =====
-- Over every run of calls of the memory challenge store a challenge is taken out at most as often
-- as one was saved under its key.
use my_auth.Dict.Sweep.{stored-remove_all, stored}
use my_auth.Dict.Laws.{get-put, get-remove}
use my_auth.Int.{Instant, add_seconds, ℤ}
use my_auth.Equality.{pair_beq_iff, list_eq, ◌==◌, pair_eq, option_eq, nat_eq}
use my_auth.Passkeys.Models.{RegistrationContext, PasskeyUser, kind_eq, ChallengeKind}
use my_auth.Result.{Result-cases, is_ok}
use my_auth.Prelude.{
  inl, inr, Option, false, arith, ◌+◌, ◌&&◌, [], if◌then◌else◌, ◌≤◌, ◌∷◌, ℕ, List, Bool,
}
use my_auth.Text.{Bytes, Text}
use my_auth.Dict.{keys_where, get}
use my_auth.Passkeys.Challenges
use my_auth.Passkeys.Challenges.{is_expired, new_record, context_user, unexpired, Key, Records}

pub data Call : Type 0 where
  save :
      (key : Text) (kind : ChallengeKind) (challenge : Bytes) (ttl_seconds : ℤ)
      (user : Option PasskeyUser) (context : Option RegistrationContext) (now : Instant)
      → Call
  pop : (key : Text) (kind : ChallengeKind) (now : Instant) → Call
  cleanup_expired : (now : Instant) → Call

-- The state after a call, whether it saved under the key, and whether it took out from the key.
unfoldable pub call : Key → Call → Records → Records × Bool × Bool
call k (Call.save key kind challenge ttl user context now) s =
    let (t, r) = Challenges.save key kind challenge ttl user context now s in
    (t, is_ok r && ◌==◌ {K = Key} (key, kind) k, false)
call k (Call.pop key kind now) s =
    let (t, r) = Challenges.pop key kind now s in
    (t, false, is_ok r && ◌==◌ {K = Key} (key, kind) k)
call k (Call.cleanup_expired now) s = ((Challenges.cleanup_expired now s).0, false, false)

unfoldable pub saves : Key → List Call → Records → ℕ
unfolding call
saves k [] s = 0
saves k (c ∷ cs) s = let (t, saved, popped) = call k c s in (if saved then 1 else 0) + saves k cs t

unfoldable pub pops : Key → List Call → Records → ℕ
unfolding call
pops k [] s = 0
pops k (c ∷ cs) s = let (t, saved, popped) = call k c s in (if popped then 1 else 0) + pops k cs t

call-counts :
    (k : Key) (c : Call) (s : Records)
    → let (t, saved, popped) = call k c s in
      (if popped then 1 else 0) + stored k t ≤ (if saved then 1 else 0) + stored k s
unfolding call Challenges.save Challenges.pop unexpired Challenges.cleanup_expired
call-counts k (Call.save key kind challenge ttl user context now) s =
    elim (Result-cases (context_user kind user context)) [
      | inr (x, e) ↦ rw e (omega arith)
      | inl (u, e) ↦ elim (Result-cases (add_seconds now ttl)) [
        | inr (x, f) ↦ rw (e, f) (omega arith)
        | inl (t, f) ↦
            rw (e, f)
              (ground (arith, get-put s (key, kind) k (new_record key kind challenge t u context)))
      ]
    ]
call-counts k (Call.pop key kind now) s =
    ground (arith, get-remove s (key, kind) k, pair_beq_iff (key, kind) k)
call-counts k (Call.cleanup_expired now) s =
    omega (arith, stored-remove_all (keys_where (is_expired now) s) s k)

counts : (k : Key) (calls : List Call) (s : Records) → pops k calls s ≤ saves k calls s + stored k s
unfolding pops saves
counts k [] s = omega arith
counts k (c ∷ cs) s = omega (arith, call-counts k c s, counts k cs (call k c s).0)

-- From an empty store, whatever calls are made and in whatever order: under every key the number of
-- successful pops is at most the number of saves, so no challenge is redeemed twice.
pub pops-le-saves : (calls : List Call) (k : Key) → pops k calls [] ≤ saves k calls []
unfolding get
pops-le-saves calls k = omega (arith, counts k calls [])
