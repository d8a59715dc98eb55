-- ===== src/Crypto/Hex.antt =====
-- fmt.Sprintf("%x", b): two lower-case hex digits for each byte.
use net_bird_audit.Prelude.{ℕ, ◌+◌, ◌-◌, ◌/◌, ◌%◌, [], ◌∷◌, Text, ltb, if◌then◌else◌}

hex_digit : ℕ → ℕ
hex_digit d = if ltb d 10 then b'0' + d else b'a' + (d - 10)

unfoldable pub hex : Text → Text
unfolding hex_digit
hex [] = []
hex (b ∷ s) = hex_digit (b / 16 % 16) ∷ hex_digit (b % 16) ∷ hex s
