-- ===== src/Server/Format.antt =====
-- humanBytes, maxDuration and randToken of internal/server/server.go.
pub mod Laws
use net_bird_audit.Prelude.{
  ℕ, zero, suc, ◌+◌, ◌*◌, ◌/◌, ◌%◌, ◌^◌, Text, codes, Bool, List, [], ◌∷◌, ◌++◌, Option, none, some,
  if◌then◌else◌, ltb,
}
use net_bird_audit.Prelude.Int.{ltz}
use net_bird_audit.Time.{Duration}
use net_bird_audit.Text.Decimal.{print}
use net_bird_audit.Crypto.Hex.{hex}

unfoldable pub max_duration : Duration → Duration → Duration
max_duration a b = if ltz b a then a else b

unfoldable pub rand_token : Text → Text
rand_token b = hex b

-- The loop of humanBytes on (x, div, exp), with the product of a uint64; `none` if the fuel ends.
pub scale : ℕ → ℕ → ℕ → ℕ → Option (ℕ × ℕ)
scale zero x div exp = none
scale (suc fuel) x div exp =
    let rest = scale fuel (x / 1024) (div * 1024 % 2 ^ 64) (exp + 1) in
    if ltb x 1024 then some (div, exp) else rest

-- s[i]: `none` is a panic.
byte_at : Text → ℕ → Option ℕ
byte_at [] i = none
byte_at (c ∷ s) zero = some c
byte_at (c ∷ s) (suc i) = byte_at s i

unfoldable pub unit_letter : ℕ → Option ℕ
unfolding byte_at
unit_letter i = byte_at (codes "KMGTPE") i

with_unit : (ℕ → ℕ → Text) → ℕ → ℕ → Option ℕ → Option Text
with_unit quotient n div none = none
with_unit quotient n div (some c) = some (quotient n div ++ b' ' ∷ c ∷ codes "iB")

scaled : (ℕ → ℕ → Text) → ℕ → Option (ℕ × ℕ) → Option Text
scaled quotient n none = none
scaled quotient n (some (div, exp)) = with_unit quotient n div (unit_letter exp)

-- `quotient` is "%.1f" of a quotient of floating-point numbers.
unfoldable pub human_bytes : (ℕ → ℕ → Text) → ℕ → Option Text
unfolding scale with_unit scaled
human_bytes quotient n =
    if ltb n 1024
    then some (print n ++ codes " B")
    else scaled quotient n (scale 64 (n / 1024) 1024 0)
