-- ===== src/Server/Template.antt =====
-- The functions that New of internal/server/server.go gives to the templates.
use net_bird_audit.Prelude.{
  ℕ, ◌+◌, ◌*◌, ◌%◌, ◌^◌, Text, codes, Option, none, some, nat_eq, if◌then◌else◌,
}
use net_bird_audit.Prelude.Int.{pos, negsuc}
use net_bird_audit.Time.{Time, Duration, hour, is_zero, sub}
use net_bird_audit.Time.Calendar.{date_time_text, clock_text, rounded_text}

-- The offset of Asia/Hong_Kong since 1979; `none` if LoadLocation finds no such zone.
abbrev pub Zone : Type 0
Zone = Option ℕ

abbrev pub hong_kong : Zone
hong_kong = some (8 * hour)

in_zone : Zone → Time → Time
in_zone none t = t
in_zone (some offset) t = t + offset

unfoldable pub timefmt : Zone → Time → Text
unfolding in_zone
timefmt hk t = if is_zero t then codes "-" else date_time_text (in_zone hk t)

unfoldable pub timeonly : Zone → Time → Text
unfolding in_zone
timeonly hk t = if is_zero t then codes "-" else clock_text (in_zone hk t)

duration_text : Duration → Text
duration_text (pos n) = rounded_text n
duration_text (negsuc n) = codes "-"

-- An end that is not set is the time `now` of the page.
unfoldable pub dur : Time → Time → Time → Text
unfolding duration_text
dur now a b = duration_text (sub (if is_zero b then now else b) a)

-- `add` and `packets`.
unfoldable pub add_uint64 : ℕ → ℕ → ℕ
add_uint64 a b = (a + b) % 2 ^ 64
