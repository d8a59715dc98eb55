-- ===== src/Crypto/Base32.antt =====
-- base32.StdEncoding.WithPadding(base32.NoPadding).
pub mod RoundTrip
use mathlib.Core.List.{filter}
use net_bird_audit.Prelude.{
  ℕ, ◌+◌, ◌-◌, ◌*◌, ◌/◌, ◌%◌, Bool, true, false, not, ◌&&◌, ◌||◌, List, [], ◌∷◌, ◌++◌, Text, ltb,
  leb, ◌==◌, nat_eq, if◌then◌else◌, Option, none, some, keep,
}
use net_bird_audit.Prelude.Maybe.{◌>>=◌}

char_of : ℕ → ℕ
char_of v = if ltb v 26 then b'A' + v else b'2' + (v - 26)

value_of : ℕ → Option ℕ
value_of c =
    if leb b'A' c && leb c b'Z'
    then some (c - b'A')
    else if leb b'2' c && leb c b'7'
    then some (c - b'2' + 26)
    else none

-- Five bytes are eight digits; at the end fewer bytes are as many digits as hold them.
unfoldable pub encode : Text → Text
unfolding char_of
encode [] = []
encode (a ∷ []) = char_of (a / 8) ∷ char_of (a % 8 * 4) ∷ []
encode (a ∷ b ∷ []) =
    char_of (a / 8)
    ∷ char_of (a % 8 * 4 + b / 64)
    ∷ char_of (b / 2 % 32)
    ∷ char_of (b % 2 * 16)
    ∷ []
encode (a ∷ b ∷ c ∷ []) =
    char_of (a / 8)
    ∷ char_of (a % 8 * 4 + b / 64)
    ∷ char_of (b / 2 % 32)
    ∷ char_of (b % 2 * 16 + c / 16)
    ∷ char_of (c % 16 * 2)
    ∷ []
encode (a ∷ b ∷ c ∷ d ∷ []) =
    char_of (a / 8)
    ∷ char_of (a % 8 * 4 + b / 64)
    ∷ char_of (b / 2 % 32)
    ∷ char_of (b % 2 * 16 + c / 16)
    ∷ char_of (c % 16 * 2 + d / 128)
    ∷ char_of (d / 4 % 32)
    ∷ char_of (d % 4 * 8)
    ∷ []
encode (a ∷ b ∷ c ∷ d ∷ e ∷ rest) =
    char_of (a / 8)
    ∷ char_of (a % 8 * 4 + b / 64)
    ∷ char_of (b / 2 % 32)
    ∷ char_of (b % 2 * 16 + c / 16)
    ∷ char_of (c % 16 * 2 + d / 128)
    ∷ char_of (d / 4 % 32)
    ∷ char_of (d % 4 * 8 + e / 32)
    ∷ char_of (e % 32)
    ∷ encode rest

values : Text → Option (List ℕ)
values [] = some []
values (c ∷ s) = do v ← value_of c; vs ← values s; some (v ∷ vs)

-- The bytes that groups of eight digits spell; one, three and six digits at the end give no more
-- than the digits before them.
bytes : List ℕ → Text
bytes (p ∷ q ∷ r ∷ s ∷ t ∷ u ∷ v ∷ w ∷ rest) =
    (p * 8 + q / 4)
    ∷ (q % 4 * 64 + r * 2 + s / 16)
    ∷ (s % 16 * 16 + t / 2)
    ∷ (t % 2 * 128 + u * 4 + v / 8)
    ∷ (v % 8 * 32 + w)
    ∷ bytes rest
bytes (p ∷ q ∷ r ∷ s ∷ t ∷ u ∷ v ∷ []) =
    (p * 8 + q / 4)
    ∷ (q % 4 * 64 + r * 2 + s / 16)
    ∷ (s % 16 * 16 + t / 2)
    ∷ (t % 2 * 128 + u * 4 + v / 8)
    ∷ []
bytes (p ∷ q ∷ r ∷ s ∷ t ∷ []) =
    (p * 8 + q / 4) ∷ (q % 4 * 64 + r * 2 + s / 16) ∷ (s % 16 * 16 + t / 2) ∷ []
bytes (p ∷ q ∷ r ∷ s ∷ []) = (p * 8 + q / 4) ∷ (q % 4 * 64 + r * 2 + s / 16) ∷ []
bytes (p ∷ q ∷ []) = (p * 8 + q / 4) ∷ []
bytes vs = []

-- Line breaks are skipped.
unfoldable pub decode : Text → Option Text
unfolding value_of values bytes
decode s = do vs ← values (keep (λ c. not (c == b'\r' || c == b'\n')) s); some (bytes vs)
