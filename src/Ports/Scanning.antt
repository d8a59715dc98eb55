-- ===== src/Ports/Scanning.antt =====
-- How `%d` and `%d-%d` read what is printed in digits.
use net_bird_audit.Prelude.{
  ℕ, ◌^◌, ◌<◌, ◌≡◌, refl, true, false, [], ◌∷◌, ◌++◌, Text, nat_eq, none, some, arith, append-nil,
}
use net_bird_audit.Prelude.Int.{pos}
use net_bird_audit.Text.{is_space, NoSpace, Lacks}
use net_bird_audit.Text.Decimal.{print}
use net_bird_audit.Text.Decimal.Scan.{
  is_digit, starts_digit, scan-print, starts_digit-print, AllDigits,
}
use net_bird_audit.Ports.{skip_space, sign, scan_int, literal, scan_range}

skip_space_at_digit : (s : Text) → starts_digit s ≡ true → skip_space s ≡ some s
unfolding skip_space starts_digit is_space
skip_space_at_digit [] h = refl
skip_space_at_digit (c ∷ s) h = ground arith

sign_at_digit : (s : Text) → starts_digit s ≡ true → sign s ≡ (false, s)
unfolding sign starts_digit
sign_at_digit [] h = refl
sign_at_digit (c ∷ s) h = ground arith

-- `%d` reads a printed number up to the first byte that is no digit.
pub scan_int-print :
    (n : ℕ) (rest : Text)
    → n < 2 ^ 63
    → starts_digit rest ≡ false
    → scan_int (print n ++ rest) ≡ some (pos n, rest)
unfolding scan_int
scan_int-print n rest fits stop =
    let d = starts_digit-print n rest in
    rw (skip_space_at_digit _ d)
      (rw (sign_at_digit _ d) (rw d (rw (scan-print n rest stop) (ground arith))))

pub scan_int-print_end : (n : ℕ) → n < 2 ^ 63 → scan_int (print n) ≡ some (pos n, [])
unfolding starts_digit
scan_int-print_end n fits = rw (append-nil (print n)) at (scan_int-print n [] fits refl)

pub scan_range-print :
    (a b : ℕ)
    → a < 2 ^ 63
    → b < 2 ^ 63
    → scan_range (print a ++ b'-' ∷ print b) ≡ some (pos a, pos b)
unfolding scan_range literal starts_digit
scan_range-print a b ha hb =
    rw (scan_int-print a (b'-' ∷ print b) ha refl) (rw (scan_int-print_end b hb))

pub scan_range-print_one : (n : ℕ) → n < 2 ^ 63 → scan_range (print n) ≡ none
unfolding scan_range literal
scan_range-print_one n fits = rw (scan_int-print_end n fits)

pub NoSpace-of_AllDigits : (s rest : Text) → AllDigits s → NoSpace rest → NoSpace (s ++ rest)
unfolding is_digit is_space
NoSpace-of_AllDigits [] rest h hr = hr
NoSpace-of_AllDigits (c ∷ s) rest h hr = (ground (arith, h.0), NoSpace-of_AllDigits s rest h.1 hr)

pub Lacks-of_AllDigits : (s rest : Text) → AllDigits s → Lacks b',' rest → Lacks b',' (s ++ rest)
unfolding is_digit
Lacks-of_AllDigits [] rest h hr = hr
Lacks-of_AllDigits (c ∷ s) rest h hr = (ground (arith, h.0), Lacks-of_AllDigits s rest h.1 hr)
