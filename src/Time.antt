-- ===== src/Time.antt =====
-- Go's `time.Time` and `time.Duration`. A time is the number of nanoseconds since the zero time,
-- 1 January of year 1, UTC; a duration is an int64 number of nanoseconds.
pub mod Calendar
use net_bird_audit.Prelude.{
  ℕ, suc, ◌+◌, ◌-◌, ◌*◌, ◌/◌, ◌^◌, Bool, ltb, leb, ◌==◌, nat_eq, if◌then◌else◌,
}
use net_bird_audit.Prelude.Int.{ℤ, pos, negsuc}

abbrev pub Time : Type 0
Time = ℕ

abbrev pub Duration : Type 0
Duration = ℤ

abbrev pub second : ℕ
second = 10 ^ 9

abbrev pub minute : ℕ
minute = 60 * second

abbrev pub hour : ℕ
hour = 60 * minute

abbrev pub is_zero : Time → Bool
is_zero t = t == 0

-- t.Add(d)
abbrev pub add : Time → Duration → Time
add t (pos d) = t + d
add t (negsuc d) = t - suc d

-- t.After(u)
abbrev pub after : Time → Time → Bool
after t u = ltb u t

-- t.Sub(u), which stops at the largest and the least duration.
abbrev pub sub : Time → Time → Duration
sub t u =
    if leb u t
    then (if ltb (t - u) (2 ^ 63) then pos (t - u) else pos (2 ^ 63 - 1))
    else (if leb (u - t) (2 ^ 63) then negsuc (u - t - 1) else negsuc (2 ^ 63 - 1))

-- The seconds from the zero time to 1 January 1970.
abbrev pub unix_epoch : ℕ
unix_epoch = 62135596800

-- uint64(t.Unix() / 30): the division of Go cuts towards zero, and a negative number wraps.
unfoldable pub unix_half_minutes : Time → ℕ
unix_half_minutes t =
    let s = t / second in
    if leb unix_epoch s
    then (s - unix_epoch) / 30
    else if (unix_epoch - s) / 30 == 0
    then 0
    else 2 ^ 64 - (unix_epoch - s) / 30
