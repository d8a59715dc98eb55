-- ===== src/Auth/Totp/Laws.antt =====
-- The codes of internal/auth/auth.go: their form, and when they are accepted.
use net_bird_audit.Prelude.{
  ℕ, zero, suc, ◌+◌, ◌-◌, ◌*◌, ◌%◌, ◌^◌, ◌≤◌, ◌<◌, ◌≡◌, ◌⊎◌, inl, inr, refl, ◌∙◌, Text, false,
  Option, none, some, List, [], ◌∷◌, text_eq, nat_eq, text_beq_iff, length, arith, Option-cases,
}
use net_bird_audit.Prelude.Int.{pos, minus}
use net_bird_audit.Prelude.Maybe.{◌>>=◌}
use net_bird_audit.Time.{Time, add, second, unix_epoch, unix_half_minutes}
use net_bird_audit.Text.{trim_space, to_upper}
use net_bird_audit.Text.Decimal.{print_padded}
use net_bird_audit.Text.Decimal.Laws.{length-print_padded}
use net_bird_audit.Text.Decimal.Scan.{AllDigits, AllDigits-print_padded}
use net_bird_audit.Crypto.Base32
use net_bird_audit.Crypto.Sha1.{big_endian}
use net_bird_audit.Crypto.Hmac.{hmac_sha1, length-hmac_sha1}
use net_bird_audit.Auth.Totp.{byte_at, truncate, code_of_key, totp_code, half_minute, validate_totp}

byte_at-some : (s : List ℕ) (i : ℕ) → i < length s → (b : ℕ) × (byte_at s i ≡ some b)
unfolding byte_at
byte_at-some [] i h = elim h [ ]
byte_at-some (b ∷ s) zero h = (b, refl)
byte_at-some (b ∷ s) (suc i) h = byte_at-some s i (omega arith)

-- Twenty bytes hold the four bytes at every offset from 0 to 15, and the number has 31 bits.
pub truncate-some :
    (sum : List ℕ) → length sum ≡ 20 → (n : ℕ) × (truncate sum ≡ some n) × (n < 2 ^ 31)
unfolding truncate
truncate-some sum h =
    let (last, e) = byte_at-some sum (length sum - 1) (omega arith) in
    let (b0, e0) = byte_at-some sum (last % 16) (omega arith) in
    let (b1, e1) = byte_at-some sum (last % 16 + 1) (omega arith) in
    let (b2, e2) = byte_at-some sum (last % 16 + 2) (omega arith) in
    let (b3, e3) = byte_at-some sum (last % 16 + 3) (omega arith) in
    (
      b0 % 2 ^ 7 * 2 ^ 24 + b1 % 2 ^ 8 * 2 ^ 16 + b2 % 2 ^ 8 * 2 ^ 8 + b3 % 2 ^ 8,
      rw e (rw e0 (rw e1 (rw e2 (rw e3)))),
      omega arith,
    )

-- The code of a key for a number of half minutes.
abbrev pub code_for : Text → ℕ → Option Text
code_for key k = do
  bin ← truncate (hmac_sha1 key (big_endian 8 k))
  some (print_padded 6 (bin % 10 ^ 6))

pub code_for-some :
    (key : Text) (k : ℕ) → (c : Text) × (code_for key k ≡ some c) × (length c ≡ 6) × AllDigits c
code_for-some key k =
    let (n, e, _) =
      truncate-some (hmac_sha1 key (big_endian 8 k)) (length-hmac_sha1 key (big_endian 8 k)) in
    (
      print_padded 6 (n % 10 ^ 6),
      rw e,
      length-print_padded 5 (n % 10 ^ 6) (omega arith),
      AllDigits-print_padded 6 (n % 10 ^ 6),
    )

pub totp_code-key :
    (secret key : Text) (t : Time)
    → Base32.decode (to_upper (trim_space secret)) ≡ some key
    → totp_code secret t ≡ code_for key (unix_half_minutes t)
unfolding totp_code
totp_code-key secret key t e = unfold code_of_key in rw (e, totp_code)

totp_code-no_key :
    (secret : Text) (t : Time)
    → Base32.decode (to_upper (trim_space secret)) ≡ none
    → totp_code secret t ≡ some []
unfolding totp_code
totp_code-no_key secret t e = rw (e, totp_code)

-- totpCode never panics: its result is the empty text if the secret is no base32, and six digits
-- if it is.
pub totp_code_form :
    (secret : Text) (t : Time)
    → (c : Text) × (totp_code secret t ≡ some c)
      × (((Base32.decode (to_upper (trim_space secret)) ≡ none) × (c ≡ []))
          ⊎ ((key : Text) × (Base32.decode (to_upper (trim_space secret)) ≡ some key)
              × (length c ≡ 6)
              × AllDigits c))
totp_code_form secret t = elim (Option-cases (Base32.decode (to_upper (trim_space secret)))) [
  | inl e ↦ ([], totp_code-no_key secret t e, inl (e, refl))
  | inr (key, e) ↦
      let (c, ec, six, all_digits) = code_for-some key (unix_half_minutes t) in
      (c, totp_code-key secret key t e ∙ ec, inr (key, e, six, all_digits))
]

-- With a secret that is no base32 no code is ever accepted.
pub validate_totp-no_key :
    (secret code : Text) (now : Time)
    → Base32.decode (to_upper (trim_space secret)) ≡ none
    → validate_totp secret code now ≡ false
unfolding validate_totp
validate_totp-no_key secret code now e = ground (
  arith,
  totp_code-no_key secret now e,
  totp_code-no_key secret (add now (minus half_minute)) e,
  totp_code-no_key secret (add now (pos half_minute)) e,
  text_beq_iff [] (trim_space code),
)

-- Codes of a moment before, at, and after differ in the number of half minutes by one.
pub unix_half_minutes-before :
    (t : Time)
    → (unix_epoch + 30) * second ≤ t
    → unix_half_minutes (add t (minus half_minute)) + 1 ≡ unix_half_minutes t
unfolding unix_half_minutes
unix_half_minutes-before t h = ground arith

pub unix_half_minutes-after :
    (t : Time)
    → unix_epoch * second ≤ t
    → unix_half_minutes (add t (pos half_minute)) ≡ unix_half_minutes t + 1
unfolding unix_half_minutes
unix_half_minutes-after t h = ground arith
