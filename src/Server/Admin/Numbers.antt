-- ===== src/Server/Admin/Numbers.antt =====
-- The id that the page of the resources prints and the handler reads.
use net_bird_audit.Prelude.{
  All, none, ℕ, ◌+◌, ◌<◌, ◌^◌, Text, true, false, [], ◌∷◌, some, nat_eq, text_beq, append-nil, ◌≡◌,
  refl, sym, ◌∙◌, ap, arith,
}
use net_bird_audit.Prelude.Int.{ℤ, pos, negsuc}
use net_bird_audit.Text.Decimal.{print}
use net_bird_audit.Text.Decimal.Scan.{scan, starts_digit, is_digit, scan-print, starts_digit-print}
use net_bird_audit.Server.Admin.{read_digits, signed, parse_int64, print_int}

-- No byte of the text is a digit.
abbrev pub NoDigit : Text → Type 0
NoDigit = All (λ c. is_digit c ≡ false)

read_digits-print : (n : ℕ) → read_digits (print n) ≡ some n
unfolding read_digits starts_digit text_beq
read_digits-print n =
    let e : scan (print n) 0 ≡ (n, []) =
      ap (λ (t : Text). scan t 0) (sym (append-nil (print n))) ∙ scan-print n [] refl in
    let d : starts_digit (print n) ≡ true =
      ap (λ (t : Text). starts_digit t) (sym (append-nil (print n))) ∙ starts_digit-print n [] in
    rw (e, d) refl

starts_digit-printed : (n : ℕ) → starts_digit (print n) ≡ true
starts_digit-printed n =
    ap (λ (t : Text). starts_digit t) (sym (append-nil (print n))) ∙ starts_digit-print n []

parse_int64-digits :
    (t : Text) → starts_digit t ≡ true → parse_int64 t ≡ signed false (read_digits t)
unfolding parse_int64 starts_digit is_digit
parse_int64-digits [] h = cc
parse_int64-digits (c ∷ s) h = ground arith

NoDigit-starts_digit : (t : Text) → NoDigit t → starts_digit t ≡ false
unfolding starts_digit
NoDigit-starts_digit [] h = refl
NoDigit-starts_digit (c ∷ s) h = h.0

read_digits-NoDigit : (t : Text) → NoDigit t → read_digits t ≡ none
unfolding read_digits
read_digits-NoDigit t h = rw (read_digits, NoDigit-starts_digit t h) refl

-- A text without a digit is read as 0.
pub parse_int64-NoDigit : (t : Text) → NoDigit t → parse_int64 t ≡ pos 0
unfolding parse_int64 signed
parse_int64-NoDigit [] h = refl
parse_int64-NoDigit (c ∷ s) h =
    ground (arith, read_digits-NoDigit s h.1, read_digits-NoDigit (c ∷ s) h)

abbrev pub IsInt64 : ℤ → Type 0
IsInt64 (pos n) = n < 2 ^ 63
IsInt64 (negsuc n) = n < 2 ^ 63

-- Every int64 is read back as it was printed.
pub parse_int64-print_int : (z : ℤ) → IsInt64 z → parse_int64 (print_int z) ≡ z
unfolding print_int signed parse_int64
parse_int64-print_int (pos n) h =
    parse_int64-digits (print n) (starts_digit-printed n) ∙ rw (read_digits-print n) (ground arith)
parse_int64-print_int (negsuc n) h = rw (parse_int64, read_digits-print (n + 1)) (ground arith)
