-- ===== src/Int.antt =====
-- Python's signed integers where the program tests their sign, and instants of time.
use my_auth.Prelude.{ℕ, suc, ◌+◌, ◌-◌, ◌*◌, ◌≤◌, Bool, true, false, leb, if◌then◌else◌, ◌≡◌, arith}
use my_auth.Result.{Result, ok, err, overflow_error}

-- `negsuc n` is -(n + 1).
pub data ℤ : Type 0 where
  pos : ℕ → ℤ
  negsuc : ℕ → ℤ

-- i <= 0
abbrev pub is_nonpositive : ℤ → Bool
is_nonpositive (pos n) = leb n 0
is_nonpositive (negsuc n) = true

-- A `datetime`: microseconds since 0001-01-01T00:00:00 UTC.
abbrev pub Instant : Type 0
Instant = ℕ

-- `datetime.max`
abbrev pub max_instant : ℕ
max_instant = 315537897599999999

-- instant + timedelta(seconds=i), which raises outside the range of `datetime`
unfoldable pub add_seconds : Instant → ℤ → Result Instant
add_seconds t (pos n) =
    if leb (t + n * 1000000) max_instant then ok (t + n * 1000000) else err overflow_error
add_seconds t (negsuc n) =
    if leb (suc n * 1000000) t then ok (t - suc n * 1000000) else err overflow_error

-- A positive lifetime ends later than it began.
pub add_seconds-later :
    (t : Instant) (i : ℤ) {u : Instant}
    → is_nonpositive i ≡ false
    → add_seconds t i ≡ ok u
    → suc t ≤ u
unfolding add_seconds
add_seconds-later t (pos n) p h = ground arith
add_seconds-later t (negsuc n) p h = ground arith
