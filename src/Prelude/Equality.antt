-- ===== src/Prelude/Equality.antt =====
-- Go's `==` on integers and strings: one operator, with an instance for each type.
-- A string is the list of its bytes.
use Prim.Native.Nat.{ℕ}
use Prim.Native.Char.{code}
use Prim.Native.String.{String}
use mathlib.Core.Path.{◌≡◌, refl}
use mathlib.Core.Logic.{◌↔◌}
use mathlib.Core.Bool.{Bool, true, false, ◌&&◌}
use mathlib.Core.List.{List, [], ◌∷◌}
use native.Mathlib.Omega.{arith}
use net_bird_audit.Prelude.Tests.{nat_beq, nat_beq_iff}

-- A type whose values can be compared.
pub record Comparable {ℓ} (T : Type ℓ) : Type ℓ where
  pub equal : T → T → Bool
  pub equal_iff : (u v : T) → (equal u v ≡ true) ↔ (u ≡ v)

infix 50 ◌==◌
module _ {ℓ} {T : Type ℓ} ⦃c : Comparable T⦄ where
  abbrev pub ◌==◌ : T → T → Bool
  ◌==◌ u v = c.equal u v

abbrev pub Text : Type 0
Text = List ℕ

-- The bytes of an ASCII literal.
abbrev pub codes : String → Text
codes String.[] = []
codes (String.◌∷◌ c s) = code c ∷ codes s

unfoldable pub text_beq : Text → Text → Bool
text_beq [] [] = true
text_beq [] (c ∷ t) = false
text_beq (b ∷ s) [] = false
text_beq (b ∷ s) (c ∷ t) = nat_beq b c && text_beq s t

pub text_beq_iff : (s t : Text) → (text_beq s t ≡ true) ↔ (s ≡ t)
unfolding text_beq
text_beq_iff [] [] = ground arith
text_beq_iff [] (c ∷ t) = ground arith
text_beq_iff (b ∷ s) [] = ground arith
text_beq_iff (b ∷ s) (c ∷ t) = ground (arith, text_beq_iff s t)

pub text_beq_refl : (s : Text) → text_beq s s ≡ true
text_beq_refl s = (text_beq_iff s s).1 refl

instance abbrev pub nat_eq : Comparable ℕ
nat_eq = record { equal = nat_beq; equal_iff = nat_beq_iff }

instance abbrev pub text_eq : Comparable Text
text_eq = record { equal = text_beq; equal_iff = text_beq_iff }
