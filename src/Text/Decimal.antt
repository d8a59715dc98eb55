-- ===== src/Text/Decimal.antt =====
-- `%d` and `%06d` of Go's `fmt` for numbers that are not negative, and reading digits back.
pub mod Laws
pub mod Scan
pub mod Cancel
use mathlib.Core.Logic.{ite, dite, if_pos, if_neg}
use mathlib.Core.WellFounded
use mathlib.Core.WellFounded.{Acc, Acc-prop}
use native.Mathlib.Decide.{dec_lt}
use net_bird_audit.Prelude.{
  ℕ, zero, suc, ◌+◌, ◌-◌, ◌*◌, ◌/◌, ◌%◌, ◌^◌, ◌≤◌, ◌<◌, ◌≡◌, refl, Bool, true, false, ◌&&◌, [], ◌∷◌,
  ◌++◌, arith, Text, leb, if◌then◌else◌, lt_wf, length, ◌≢◌, append_assoc, Option, some, none,
}

emit : (n : ℕ) → Acc ◌<◌ n → Text → Text
emit n (Acc.intro _ smaller) out =
    dite (dec_lt 9 n) (λ h. emit (n / 10) (smaller (n / 10) (omega arith)) ((b'0' + n % 10) ∷ out))
      (λ _. (b'0' + n) ∷ out)

pub digits : ℕ → Text → Text
unfolding emit lt_wf dec_lt
digits n = emit n (lt_wf.apply n)

-- %d
unfoldable pub print : ℕ → Text
unfolding digits
print n = digits n []

-- `%06d`: zeros in front up to a width.
pad_zeros : ℕ → Text → Text
pad_zeros zero s = s
pad_zeros (suc k) s = b'0' ∷ pad_zeros k s

unfoldable pub print_padded : ℕ → ℕ → Text
unfolding pad_zeros print
print_padded width n = pad_zeros (width - length (print n)) (print n)
