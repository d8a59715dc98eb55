-- ===== src/Text/Decimal/Laws.antt =====
-- How the printed digits stand in a longer text, and how many they are.
use mathlib.Core.Logic.{ite, dite}
use mathlib.Core.WellFounded
use mathlib.Core.WellFounded.{Acc, Acc-prop}
use native.Mathlib.Decide.{dec_lt}
use native.Mathlib.Nat.{pow-suc}
use net_bird_audit.Prelude.{
  ℕ, zero, suc, ◌+◌, ◌-◌, ◌/◌, ◌%◌, ◌^◌, ◌≤◌, ◌<◌, ◌≡◌, [], ◌∷◌, ◌++◌, arith, Text, lt_wf, length,
}
use net_bird_audit.Text.Decimal.{emit, digits, print, pad_zeros, print_padded}

emit_step :
    (n : ℕ) (w : Acc ◌<◌ n) (w' : Acc ◌<◌ (n / 10)) (out : Text)
    → emit n w out ≡ ite (dec_lt 9 n) (emit (n / 10) w' ((b'0' + n % 10) ∷ out)) ((b'0' + n) ∷ out)
unfolding emit
emit_step n (Acc.intro _ smaller) w' out = λ i.
    dite (dec_lt 9 n)
      (λ h. emit (n / 10) (Acc-prop (smaller (n / 10) (omega arith)) w' i) ((b'0' + n % 10) ∷ out))
      (λ _. (b'0' + n) ∷ out)

pub digits_step :
    (n : ℕ) (out : Text)
    → digits n out ≡ ite (dec_lt 9 n) (digits (n / 10) ((b'0' + n % 10) ∷ out)) ((b'0' + n) ∷ out)
unfolding digits
digits_step n = emit_step n (lt_wf.apply n) (lt_wf.apply (n / 10))

-- The digits stand in front of what was there.
digits-append : (n : ℕ) (out rest : Text) → digits n out ++ rest ≡ digits n (out ++ rest)
digits-append n =
    WellFounded.induction lt_wf
      {C = λ m. (out rest : Text) → digits m out ++ rest ≡ digits m (out ++ rest)} n
      λ m ih out rest. grind (arith, digits_step m out, digits_step m (out ++ rest), ih (m / 10))

pub print-append : (n : ℕ) (rest : Text) → print n ++ rest ≡ digits n rest
unfolding print
print-append n rest = digits-append n [] rest

length-digits : (k n : ℕ) (out : Text) → n < 10 ^ suc k → length (digits n out) ≤ suc k + length out
length-digits zero n out h = ground (arith, digits_step n out)
length-digits (suc k) n out h =
    ground (
      arith,
      digits_step n out,
      length-digits k (n / 10) ((b'0' + n % 10) ∷ out),
      pow-suc 10 (suc k),
    )

length-pad_zeros : (k : ℕ) (s : Text) → length (pad_zeros k s) ≡ k + length s
unfolding pad_zeros
length-pad_zeros zero s = omega arith
length-pad_zeros (suc k) s = omega (arith, length-pad_zeros k s)

-- A number below 10 ^ width is printed with `width` digits.
pub length-print_padded : (k n : ℕ) → n < 10 ^ suc k → length (print_padded (suc k) n) ≡ suc k
unfolding print_padded print
length-print_padded k n h =
    omega
      (arith, length-pad_zeros (suc k - length (digits n [])) (digits n []), length-digits k n [] h)
