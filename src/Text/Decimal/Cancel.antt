-- ===== src/Text/Decimal/Cancel.antt =====
-- Two printed numbers in front of other texts: equal texts have equal numbers and equal rests.
use net_bird_audit.Prelude.{ℕ, ◌≡◌, ◌++◌, [], Text, false, refl, ap, sym, ◌∙◌, append-nil}
use net_bird_audit.Text.Decimal.{print}
use net_bird_audit.Text.Decimal.Scan.{scan, starts_digit, scan-print}

module _ (a b : ℕ) (s t : Text) (ends_s : starts_digit s ≡ false) (ends_t : starts_digit t ≡ false)
    (e : print a ++ s ≡ print b ++ t) where
  scans : scan (print a ++ s) 0 ≡ scan (print b ++ t) 0
  scans = ap (λ (u : Text). scan u 0) e

  pair : Path (ℕ × Text) (a, s) (b, t)
  pair = sym (scan-print a s ends_s) ∙ scans ∙ scan-print b t ends_t

  pub print_cancel : (a ≡ b) × (s ≡ t)
  print_cancel = (ap (λ (r : ℕ × Text). r.0) pair, ap (λ (r : ℕ × Text). r.1) pair)

-- The same at the end of a text.
pub print-injective : (a b : ℕ) → print a ≡ print b → a ≡ b
unfolding starts_digit
print-injective a b e =
    (print_cancel a b [] [] refl refl (append-nil (print a) ∙ e ∙ sym (append-nil (print b)))).0
