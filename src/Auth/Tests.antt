-- ===== src/Auth/Tests.antt =====
-- Runs of the session store and of the codes, and the theorems at concrete inputs.
use net_bird_audit.Prelude.{
  ℕ, ◌+◌, ◌*◌, ◌≡◌, ◌↔◌, ◌⊎◌, refl, codes, Text, true, false, [], ◌∷◌, none, some, arith, List,
  if◌then◌else◌, length, text_beq,
}
use net_bird_audit.Prelude.Int.{pos}
use net_bird_audit.Time.{Time, Duration, second, hour, unix_epoch, unix_half_minutes}
use net_bird_audit.Text.{to_upper, trim_space}
use net_bird_audit.Text.Decimal.Scan.{AllDigits}
use net_bird_audit.GoMap
use net_bird_audit.Crypto.Base32
use net_bird_audit.Crypto.Sha1.{big_endian}
use net_bird_audit.Text.Decimal.{print_padded}
use net_bird_audit.Crypto.Base32.{encode}
use net_bird_audit.Crypto.Base32.RoundTrip.{decode-encode}
use net_bird_audit.Crypto.Hex.{hex}
use net_bird_audit.Crypto.Hmac.{hmac_sha1}
use net_bird_audit.Auth.Sessions.{new_session_store, new, valid, delete}
use net_bird_audit.Auth.Sessions.Laws.{expired_at}
use net_bird_audit.Auth.Sessions.Runs.{
  Call, create, check, logout, follow_all, run, call, valid-run, logout_is_final,
  rejection_is_final,
}
use net_bird_audit.Auth.Totp.{totp_code, validate_totp, truncate, otp_auth_uri}
use net_bird_audit.Auth.Totp.Laws.{code_for, totp_code_form, validate_totp-no_key}
use net_bird_audit.Auth.Totp.Window.{InWindow, validate_totp_iff, validate_totp-drift}

abbrev eight_hours : Duration
eight_hours = pos (8 * hour)

abbrev token : Text
token = hex (1 ∷ 171 ∷ [])

abbrev calls : List Call
calls = create (some (1 ∷ 171 ∷ [])) 100 ∷ check token 200 201 ∷ []

accepted_then : (valid token 300 301 (run calls (new_session_store eight_hours))).0 ≡ true
unfolding valid run call new new_session_store hex GoMap.lookup GoMap.insert text_beq
accepted_then = refl

valid-run_example :
    (valid token 300 301 (run calls (new_session_store eight_hours))).0
    ≡ (if expired_at 300 (follow_all token eight_hours calls none) then false else true)
valid-run_example = valid-run eight_hours token calls 300 301

logout_is_final_example :
    (valid token 9 9
      (run (check token 5 6 ∷ []) (delete token (run calls (new_session_store eight_hours))))).0
    ≡ false
logout_is_final_example =
    logout_is_final token (check token 5 6 ∷ []) 9 9 (run calls (new_session_store eight_hours))
      (tt, tt)

still_rejected :
    (valid token 7 8
      (run (logout token ∷ []) (valid token 1 2 (new_session_store eight_hours)).1)).0
    ≡ false
unfolding valid new_session_store GoMap.lookup GoMap.empty
still_rejected =
    rejection_is_final token (logout token ∷ []) 1 2 7 8 (new_session_store eight_hours) refl
      (tt, tt)

-- The secret of RFC 6238, and the time 59 seconds after the start of 1970.
abbrev secret : Text
secret = codes " gezdgnbvgy3tqojqgezdgnbvgy3tqojq "

abbrev key : Text
key = codes "12345678901234567890"

abbrev at_59 : Time
at_59 = (unix_epoch + 59) * second

decoded_secret : Base32.decode (to_upper (trim_space secret)) ≡ some key
unfolding Base32.decode to_upper trim_space
decoded_secret = refl

code_at_59 : totp_code secret at_59 ≡ some (codes "287082")
unfolding totp_code Base32.decode to_upper trim_space truncate hmac_sha1 big_endian
    unix_half_minutes print_padded
code_at_59 = refl

totp_code_form_example :
    (c : Text) × (totp_code secret at_59 ≡ some c)
    × (((Base32.decode (to_upper (trim_space secret)) ≡ none) × (c ≡ []))
        ⊎ ((k : Text) × (Base32.decode (to_upper (trim_space secret)) ≡ some k)
            × (length c ≡ 6)
            × AllDigits c))
totp_code_form_example = totp_code_form secret at_59

short_secret : validate_totp (codes "1") (codes "000000") at_59 ≡ false
unfolding Base32.decode to_upper trim_space
short_secret = validate_totp-no_key (codes "1") (codes "000000") at_59 refl

validate_totp_iff_example :
    (validate_totp secret (codes "287082") at_59 ≡ true)
    ↔ ((k : ℕ) × InWindow at_59 k × (code_for key k ≡ some (trim_space (codes "287082"))))
validate_totp_iff_example =
    validate_totp_iff secret key (codes "287082") at_59 decoded_secret (omega arith)

drifted_code : validate_totp secret (codes "287082") ((unix_epoch + 80) * second) ≡ true
drifted_code =
    validate_totp-drift secret key at_59 ((unix_epoch + 80) * second) (codes "287082")
      decoded_secret (omega arith) (omega arith) (omega arith) code_at_59

two_bytes : Base32.decode (to_upper (trim_space (encode (1 ∷ 255 ∷ [])))) ≡ some (1 ∷ 255 ∷ [])
two_bytes = decode-encode (1 ∷ 255 ∷ []) (omega arith)

uri :
    otp_auth_uri (codes "ABC") (codes "me") (codes "NBA")
    ≡ some (codes "otpauth://totp/NBA:me?secret=ABC&issuer=NBA&digits=6&period=30")
unfolding otp_auth_uri text_beq
uri = refl
