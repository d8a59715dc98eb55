-- ===== src/Auth/Totp.antt =====
-- One-time codes, passwords and the otpauth URI of internal/auth/auth.go.
pub mod Laws
pub mod Window
use net_bird_audit.Prelude.{
  ℕ, zero, suc, ◌+◌, ◌*◌, ◌%◌, ◌^◌, Text, codes, Bool, true, false, ◌||◌, Option, none, some, [],
  ◌∷◌, ◌++◌, map, if◌then◌else◌, ◌==◌, nat_eq, text_eq, text_beq, leb, ◌&&◌, ◌-◌, length, List,
}
use net_bird_audit.Prelude.Int.{pos, minus}
use net_bird_audit.Prelude.Maybe.{◌>>=◌}
use net_bird_audit.Time.{Time, Duration, add, second, unix_half_minutes}
use net_bird_audit.Text.{trim_space, to_upper}
use net_bird_audit.Text.Decimal.{print_padded}
use net_bird_audit.Crypto.Base32
use net_bird_audit.Crypto.Sha1.{big_endian}
use net_bird_audit.Crypto.Hmac.{hmac_sha1}

-- VerifyPassword: `compare` is bcrypt.CompareHashAndPassword, true where it returns no error.
unfoldable pub verify_password : (Text → Text → Bool) → Text → Text → Bool
verify_password compare hash password = compare hash password

-- HashPassword: `generate` is bcrypt.GenerateFromPassword, called with cost 12.
unfoldable pub hash_password : (Text → ℕ → Option Text) → Text → Option Text
hash_password generate password = generate password 12

-- GenerateTOTPSecret: twenty random bytes, or `none` if the source fails.
unfoldable pub generate_totp_secret : Option Text → Option Text
generate_totp_secret none = none
generate_totp_secret (some b) = some (Base32.encode b)

-- A read past the end is a panic, `none`.
byte_at : List ℕ → ℕ → Option ℕ
byte_at [] i = none
byte_at (b ∷ s) zero = some b
byte_at (b ∷ s) (suc i) = byte_at s i

-- The 31-bit number at the offset that the last byte of the digest names.
unfoldable pub truncate : List ℕ → Option ℕ
unfolding byte_at
truncate sum = do
  last ← byte_at sum (length sum - 1)
  let off = last % 16
  b0 ← byte_at sum off
  b1 ← byte_at sum (off + 1)
  b2 ← byte_at sum (off + 2)
  b3 ← byte_at sum (off + 3)
  some (b0 % 2 ^ 7 * 2 ^ 24 + b1 % 2 ^ 8 * 2 ^ 16 + b2 % 2 ^ 8 * 2 ^ 8 + b3 % 2 ^ 8)

code_of_key : Text → Time → Option Text
code_of_key key t = do
  bin ← truncate (hmac_sha1 key (big_endian 8 (unix_half_minutes t)))
  some (print_padded 6 (bin % 10 ^ 6))

-- totpCode: `none` is a panic; a secret that is no base32 has the empty code.
unfoldable pub totp_code : Text → Time → Option Text
unfolding code_of_key
totp_code secret t = elim (Base32.decode (to_upper (trim_space secret))) [
  | none ↦ some []
  | some key ↦ code_of_key key t
]

is_code : Option Text → Text → Bool
is_code none code = false
is_code (some c) code = c == code

abbrev pub half_minute : ℕ
half_minute = 30 * second

-- ValidateTOTP: the code of the half minute before, of this one, or of the next.
unfoldable pub validate_totp : Text → Text → Time → Bool
unfolding is_code
validate_totp secret code now =
    let c = trim_space code in
    if length c == 6
    then is_code (totp_code secret (add now (minus half_minute))) c
      || is_code (totp_code secret now) c
      || is_code (totp_code secret (add now (pos half_minute))) c
    else false

-- OTPAuthURI
unfoldable pub otp_auth_uri : Text → Text → Text → Option Text
otp_auth_uri secret account issuer =
    if secret == [] || account == []
    then none
    else some (
        codes "otpauth://totp/"
        ++ issuer
        ++ codes ":"
        ++ account
        ++ codes "?secret="
        ++ secret
        ++ codes "&issuer="
        ++ issuer
        ++ codes "&digits=6&period=30")
