-- ===== src/Text/Decimal/Scan.antt =====
-- Reading a run of decimal digits, and what it makes of a printed number.
use mathlib.Core.WellFounded
use net_bird_audit.Prelude.{
  ℕ, ◌+◌, ◌*◌, ◌/◌, ◌%◌, ◌≡◌, refl, Bool, true, false, ◌&&◌, [], ◌∷◌, ◌++◌, arith, Text, length,
  zero, suc, ◌-◌, lt_wf, leb, if◌then◌else◌, All,
}
use net_bird_audit.Text.Ascii.{is_space, NoSpace}
use net_bird_audit.Text.Decimal.{digits, print, pad_zeros, print_padded}
use net_bird_audit.Text.Decimal.Laws.{digits_step, print-append}

unfoldable pub is_digit : ℕ → Bool
is_digit c = leb b'0' c && leb c b'9'

-- The value of the digits in front, behind `n`, and what follows them.
unfoldable pub scan : Text → ℕ → ℕ × Text
unfolding is_digit
scan [] n = (n, [])
scan (c ∷ s) n = let more = scan s (n * 10 + (c - b'0')) in if is_digit c then more else (n, c ∷ s)

unfoldable pub starts_digit : Text → Bool
unfolding is_digit
starts_digit [] = false
starts_digit (c ∷ s) = is_digit c

scan_last : (n : ℕ) (out : Text) → scan ((b'0' + n % 10) ∷ out) (n / 10) ≡ scan out n
unfolding scan
scan_last n out =
    let e : n / 10 * 10 + (b'0' + n % 10 - b'0') ≡ n = omega arith in ground (arith, e)

scan-digits : (n : ℕ) (out : Text) → scan (digits n out) 0 ≡ scan out n
unfolding scan
scan-digits n =
    WellFounded.induction lt_wf {C = λ m. (out : Text) → scan (digits m out) 0 ≡ scan out m} n
      λ m ih out. grind (arith, digits_step m out, scan_last m out, ih (m / 10))

scan_stop : (s : Text) (n : ℕ) → starts_digit s ≡ false → scan s n ≡ (n, s)
unfolding scan starts_digit
scan_stop [] n h = refl
scan_stop (c ∷ s) n h = ground arith

-- A printed number is read back up to the first byte that is no digit.
pub scan-print :
    (n : ℕ) (rest : Text) → starts_digit rest ≡ false → scan (print n ++ rest) 0 ≡ (n, rest)
scan-print n rest h = ground (arith, print-append n rest, scan-digits n rest, scan_stop rest n)

starts_digit-digits : (n : ℕ) (out : Text) → starts_digit (digits n out) ≡ true
unfolding starts_digit
starts_digit-digits n =
    WellFounded.induction lt_wf {C = λ m. (out : Text) → starts_digit (digits m out) ≡ true} n
      λ m ih out. grind (arith, digits_step m out, ih (m / 10))

pub starts_digit-print : (n : ℕ) (rest : Text) → starts_digit (print n ++ rest) ≡ true
starts_digit-print n rest = ground (arith, print-append n rest, starts_digit-digits n rest)

abbrev pub AllDigits : Text → Type 0
AllDigits = All (λ c. is_digit c ≡ true)

AllDigits-digits : (n : ℕ) (out : Text) → AllDigits out → AllDigits (digits n out)
unfolding is_digit
AllDigits-digits n =
    WellFounded.induction lt_wf {C = λ m. (out : Text) → AllDigits out → AllDigits (digits m out)} n
      λ m ih out h. grind (arith, digits_step m out, ih (m / 10))

pub AllDigits-print : (n : ℕ) → AllDigits (print n)
unfolding print
AllDigits-print n = AllDigits-digits n [] tt

AllDigits-pad_zeros : (k : ℕ) (s : Text) → AllDigits s → AllDigits (pad_zeros k s)
unfolding pad_zeros is_digit
AllDigits-pad_zeros zero s h = h
AllDigits-pad_zeros (suc k) s h = (refl, AllDigits-pad_zeros k s h)

pub AllDigits-print_padded : (width n : ℕ) → AllDigits (print_padded width n)
unfolding print_padded
AllDigits-print_padded width n =
    AllDigits-pad_zeros (width - length (print n)) (print n) (AllDigits-print n)

pub NoSpace-of_AllDigits : (s : Text) → AllDigits s → NoSpace s
unfolding is_digit is_space
NoSpace-of_AllDigits [] h = tt
NoSpace-of_AllDigits (c ∷ s) h = (ground (arith, h.0), NoSpace-of_AllDigits s h.1)
