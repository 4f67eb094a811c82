-- ===== src/Engine/Duration.antt =====
-- `time.Duration`, an int64 of nanoseconds: it is kept modulo 2 ^ 64, and the upper half of the
-- residues are the negative ones. Instants are nanoseconds.
use snailmail.Base.{
  ltb, leb, if◌then◌else◌, ℕ, ◌+◌, ◌-◌, ◌*◌, ◌%◌, ◌^◌, ◌≤◌, ◌<◌, ◌≡◌, Bool, true, arith,
}

abbrev pub second : ℕ
second = 1000000000

abbrev pub hour : ℕ
hour = 3600 * second

-- `time.Duration(n) * time.Second`
unfoldable pub duration_of_seconds : ℕ → ℕ
duration_of_seconds n = (n * second) % 2 ^ 64

unfoldable pub add_durations : ℕ → ℕ → ℕ
add_durations a b = (a + b) % 2 ^ 64

-- `!limit.Before(start.Add(d))`
unfoldable pub reaches : ℕ → ℕ → ℕ → Bool
reaches start d limit =
    if ltb d (2 ^ 63) then leb (start + d) limit else leb start (limit + (2 ^ 64 - d))

-- `!instant.After(start.Add(d))`
unfoldable pub is_within : ℕ → ℕ → ℕ → Bool
is_within start d instant =
    if ltb d (2 ^ 63) then leb instant (start + d) else leb (instant + (2 ^ 64 - d)) start

-- A refresh time that an int64 holds has passed when the code finds that it has.
pub reaches-duration_of_seconds :
    (start n limit : ℕ)
    → n * second < 2 ^ 63
    → reaches start (duration_of_seconds n) limit ≡ true
    → start + n * second ≤ limit
unfolding reaches duration_of_seconds
reaches-duration_of_seconds start n limit small h = ground arith
