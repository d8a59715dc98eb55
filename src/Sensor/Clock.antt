-- ===== src/Sensor/Clock.antt =====
-- monoNS and wallFromMono of internal/sensor/sensor.go.
use net_bird_audit.Prelude.{
  ℕ, ◌+◌, ◌-◌, ◌*◌, ◌%◌, ◌^◌, ◌≤◌, ◌<◌, ◌≡◌, ◌||◌, ltb, ◌==◌, nat_eq, if◌then◌else◌, arith,
}
use net_bird_audit.Prelude.Int.{pos, negsuc, minus, int64}
use net_bird_audit.Time.{Time, Duration, add}

-- `sec` and `nsec` are the two's complement fields of the timespec.
unfoldable pub mono_ns : ℕ → ℕ → ℕ
mono_ns sec nsec = (sec * 10 ^ 9 + nsec) % 2 ^ 64

-- -d for an int64; the least one is its own negative.
negate : Duration → Duration
negate (pos n) = minus n
negate (negsuc n) = if n == 2 ^ 63 - 1 then negsuc n else pos (n + 1)

unfoldable pub wall_from_mono : ℕ → ℕ → Time → Time
unfolding negate int64
wall_from_mono ns now_mono now =
    if ns == 0 || ltb now_mono ns then now else add now (negate (int64 (now_mono - ns)))

-- A moment that the kernel clock has passed, less than 292 years ago, is as far behind `now` as it
-- is behind the clock; any other moment is taken for `now`.
pub wall_from_mono-eq :
    (ns now_mono : ℕ) (now : Time)
    → now_mono < 2 ^ 63
    → wall_from_mono ns now_mono now
      ≡ (if ns == 0 || ltb now_mono ns then now else now - (now_mono - ns))
unfolding wall_from_mono
wall_from_mono-eq ns now_mono now h = ground arith

-- Of two moments that the kernel clock has passed, neither of them its start, the wall times stand
-- in the same order, and as far apart. The clock is below 292 years, and the time not before the
-- year 1 by its account.
pub wall_from_mono-distance :
    (a b now_mono : ℕ) (now : Time)
    → 0 < a
    → a ≤ b
    → b ≤ now_mono
    → now_mono < 2 ^ 63
    → now_mono ≤ now
    → wall_from_mono b now_mono now ≡ wall_from_mono a now_mono now + (b - a)
wall_from_mono-distance a b now_mono now h p q r s =
    ground (arith, wall_from_mono-eq a now_mono now, wall_from_mono-eq b now_mono now)
