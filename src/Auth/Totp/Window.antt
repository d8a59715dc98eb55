-- ===== src/Auth/Totp/Window.antt =====
-- The half minutes of ValidateTOTP in internal/auth/auth.go.
use net_bird_audit.Prelude.{
  ℕ, ◌+◌, ◌-◌, ◌*◌, ◌≤◌, ◌≡◌, ◌↔◌, ◌⊎◌, inl, inr, ap, ◌∙◌, Text, Bool, true, false, ◌||◌, Option,
  none, some, if◌then◌else◌, ◌==◌, text_eq, nat_eq, text_beq_iff, length, arith, text_beq_refl,
}
use net_bird_audit.Prelude.Int.{pos, minus}
use net_bird_audit.Time.{Time, add, second, unix_epoch, unix_half_minutes}
use net_bird_audit.Text.{trim_space, to_upper, trim_space-of_NoSpace}
use net_bird_audit.Text.Decimal.Scan.{NoSpace-of_AllDigits}
use net_bird_audit.Crypto.Base32
use net_bird_audit.Auth.Totp.{totp_code, is_code, half_minute, validate_totp}
use net_bird_audit.Auth.Totp.Laws.{
  code_for, code_for-some, totp_code-key, unix_half_minutes-before, unix_half_minutes-after,
}

-- The half minute `k` is that of the time or next to it.
abbrev pub InWindow : Time → ℕ → Type 0
InWindow now k = (k ≤ unix_half_minutes now + 1) × (unix_half_minutes now ≤ k + 1)

is_code-true : (o : Option Text) (c : Text) → is_code o c ≡ true → o ≡ some c
unfolding is_code
is_code-true none c h = cc
is_code-true (some d) c h = ap (λ (x : Text). some x) ((text_beq_iff d c).0 h)

is_code-some : (o : Option Text) (c : Text) → o ≡ some c → is_code o c ≡ true
unfolding is_code
is_code-some o c e = rw e (text_beq_refl c)

abbrev three : Option Text → Option Text → Option Text → Text → Bool
three a b c code = is_code a code || is_code b code || is_code c code

three-true :
    (a b c : Option Text) (code : Text)
    → three a b c code ≡ true
    → (a ≡ some code) ⊎ ((b ≡ some code) ⊎ (c ≡ some code))
three-true a b c code h =
    grind (arith, is_code-true a code, is_code-true b code, is_code-true c code)

module _ (secret key code : Text) (now : Time)
    (decoded : Base32.decode (to_upper (trim_space secret)) ≡ some key)
    (recent : (unix_epoch + 30) * second ≤ now) where
  at_before :
      totp_code secret (add now (minus half_minute)) ≡ code_for key (unix_half_minutes now - 1)
  at_before =
      totp_code-key secret key (add now (minus half_minute)) decoded
      ∙ ap (λ (k : ℕ). code_for key k) (omega (arith, unix_half_minutes-before now recent))

  at_after : totp_code secret (add now (pos half_minute)) ≡ code_for key (unix_half_minutes now + 1)
  at_after =
      totp_code-key secret key (add now (pos half_minute)) decoded
      ∙ ap (λ (k : ℕ). code_for key k) (unix_half_minutes-after now (omega arith))

  validate_totp-three : validate_totp secret code now ≡ (
      if length (trim_space code) == 6
      then three
          (code_for key (unix_half_minutes now - 1))
          (code_for key (unix_half_minutes now))
          (code_for key (unix_half_minutes now + 1))
          (trim_space code)
      else false)
  unfolding validate_totp
  validate_totp-three = rw (at_before, at_after, totp_code-key secret key now decoded)

  window_of :
      (k : ℕ)
      → InWindow now k
      → (k ≡ unix_half_minutes now - 1)
        ⊎ ((k ≡ unix_half_minutes now) ⊎ (k ≡ unix_half_minutes now + 1))
  window_of k h = omega arith

  code-InWindow :
      (code_for key (unix_half_minutes now - 1) ≡ some (trim_space code))
        ⊎ ((code_for key (unix_half_minutes now) ≡ some (trim_space code))
            ⊎ (code_for key (unix_half_minutes now + 1) ≡ some (trim_space code)))
      → (k : ℕ) × InWindow now k × (code_for key k ≡ some (trim_space code))
  code-InWindow (inl e) = (unix_half_minutes now - 1, omega arith, e)
  code-InWindow (inr (inl e)) = (unix_half_minutes now, omega arith, e)
  code-InWindow (inr (inr e)) = (unix_half_minutes now + 1, omega arith, e)

  accepted :
      (validate_totp secret code now ≡ true)
      → (k : ℕ) × InWindow now k × (code_for key k ≡ some (trim_space code))
  accepted h = code-InWindow (
      three-true (code_for key (unix_half_minutes now - 1)) (code_for key (unix_half_minutes now))
        (code_for key (unix_half_minutes now + 1)) (trim_space code)
        (ground (arith, validate_totp-three)))

  three-of_window :
      (k : ℕ)
      → InWindow now k
      → code_for key k ≡ some (trim_space code)
      → three
          (code_for key (unix_half_minutes now - 1))
          (code_for key (unix_half_minutes now))
          (code_for key (unix_half_minutes now + 1))
          (trim_space code)
        ≡ true
  three-of_window k w e = elim (window_of k w) [
    | inl at ↦ ground (
      arith,
      is_code-some (code_for key (unix_half_minutes now - 1)) (trim_space code) (rw at at e),
    )
    | inr (inl at) ↦
        ground (
          arith,
          is_code-some (code_for key (unix_half_minutes now)) (trim_space code) (rw at at e),
        )
    | inr (inr at) ↦ ground (
      arith,
      is_code-some (code_for key (unix_half_minutes now + 1)) (trim_space code) (rw at at e),
    )
  ]

  accepts :
      (k : ℕ)
      → InWindow now k
      → code_for key k ≡ some (trim_space code)
      → validate_totp secret code now ≡ true
  accepts k w e =
      let (c, ec, six, _) = code_for-some key k in
      let l : length (trim_space code) ≡ 6 = ground arith in
      rw (validate_totp-three, l) (three-of_window k w e)

  -- With a secret that is base32, from half a minute after the start of 1970 on: a code is accepted
  -- exactly if, without the spaces around it, it is the code of the key for the present half
  -- minute, the one before or the one after.
  pub validate_totp_iff :
      (validate_totp secret code now ≡ true)
      ↔ ((k : ℕ) × InWindow now k × (code_for key k ≡ some (trim_space code)))
  validate_totp_iff = (accepted, λ h. accepts h.0 h.1 h.2)

-- A code taken from totpCode is accepted at any time that is at most half a minute away.
pub validate_totp-drift :
    (secret key : Text) (t now : Time) (c : Text)
    → Base32.decode (to_upper (trim_space secret)) ≡ some key
    → (unix_epoch + 30) * second ≤ now
    → t ≤ now + half_minute
    → now ≤ t + half_minute
    → totp_code secret t ≡ some c
    → validate_totp secret c now ≡ true
unfolding unix_half_minutes
validate_totp-drift secret key t now c decoded recent late early e =
    let (d, ed, _, all_digits) = code_for-some key (unix_half_minutes t) in
    let same : d ≡ c = ground (arith, totp_code-key secret key t decoded) in
    accepts secret key c now decoded recent (unix_half_minutes t) (ground arith) (
      rw (trim_space-of_NoSpace c (NoSpace-of_AllDigits c (rw same at all_digits)))
        (ground (arith, totp_code-key secret key t decoded)))
