-- ===== src/Server/Format/Laws.antt =====
-- The loop of humanBytes in internal/server/server.go.
use net_bird_audit.Prelude.{
  ℕ, zero, suc, ◌+◌, ◌*◌, ◌/◌, ◌%◌, ◌^◌, ◌≤◌, ◌<◌, Text, codes, ◌∷◌, ◌++◌, Option, some, ltb, ◌≡◌,
  ◌⊎◌, inl, inr, refl, ap, ◌∙◌, arith, Bool-cases,
}
use net_bird_audit.Text.Decimal.{print}
use net_bird_audit.Server.Format.{byte_at, scale, unit_letter, with_unit, scaled, human_bytes}

-- The power of the unit with number `k`.
abbrev pub unit_size : ℕ → ℕ
unit_size k = 1024 ^ (k + 1)

-- The loop ends with the last unit that is not larger than the number.
abbrev Scales : ℕ → Option (ℕ × ℕ) → Type 0
Scales n out =
    (k : ℕ) × (k ≤ 5) × (unit_size k ≤ n) × (n < unit_size (k + 1)) × (out ≡ some (unit_size k, k))

unit_letter-some : (k : ℕ) → k ≤ 5 → (letter : ℕ) × (unit_letter k ≡ some letter)
unfolding unit_letter byte_at
unit_letter-some zero h = (_, refl)
unit_letter-some (suc zero) h = (_, refl)
unit_letter-some (suc (suc zero)) h = (_, refl)
unit_letter-some (suc (suc (suc zero))) h = (_, refl)
unit_letter-some (suc (suc (suc (suc zero)))) h = (_, refl)
unit_letter-some (suc (suc (suc (suc (suc zero))))) h = (_, refl)
unit_letter-some (suc (suc (suc (suc (suc (suc k)))))) h = absurd (omega (arith, h))

module _ (x div exp : ℕ) (fuel : ℕ) where
  scale-ends : x < 1024 → scale (suc fuel) x div exp ≡ some (div, exp)
  unfolding scale
  scale-ends small = ground arith

  scale-goes :
      1024 ≤ x → scale (suc fuel) x div exp ≡ scale fuel (x / 1024) (div * 1024 % 2 ^ 64) (exp + 1)
  unfolding scale
  scale-goes large = ground arith

module _ (n : ℕ) where
  -- The state of the loop with fuel `fuel` when it has gone round `k` times.
  abbrev quot : ℕ → ℕ
  quot zero = n / 1024
  quot (suc k) = quot k / 1024

  abbrev Reaches : ℕ → ℕ → Type 0
  Reaches fuel k = scale 64 (n / 1024) 1024 0 ≡ scale fuel (quot k) (unit_size k) k

  -- One round: the loop ends with the unit, or goes on with a number that is large enough.
  next_round :
      (k fuel : ℕ)
      → Reaches (suc fuel) k
      → k ≤ 5
      → unit_size k ≤ n
      → (n < unit_size (k + 1) → quot k < 1024)
      → (unit_size (k + 1) ≤ n → 1024 ≤ quot k)
      → unit_size k * 1024 % 2 ^ 64 ≡ unit_size (k + 1)
      → Scales n (scale 64 (n / 1024) 1024 0)
        ⊎ (unit_size (k + 1) ≤ n)
          × (scale 64 (n / 1024) 1024 0 ≡ scale fuel (quot k / 1024) (unit_size (k + 1)) (k + 1))
  next_round k fuel r le low small large wrap = elim (Bool-cases (ltb n (unit_size (k + 1)))) [
    | inl b ↦
        let below : n < unit_size (k + 1) = ground arith in
        inl (k, le, low, below, r ∙ scale-ends (quot k) (unit_size k) k fuel (small below))
    | inr a ↦
        let above : unit_size (k + 1) ≤ n = ground arith in
        inr (
          above,
          r
              ∙ scale-goes (quot k) (unit_size k) k fuel (large above)
              ∙ ap (λ (d : ℕ). scale fuel (quot k / 1024) d (k + 1)) wrap,
        )
  ]

  scale-Scales : 1024 ≤ n → n < 2 ^ 64 → Scales n (scale 64 (n / 1024) 1024 0)
  scale-Scales low high =
      elim (next_round 0 63 refl (omega arith) low (λ h. ground arith) (λ h. ground arith) refl) [
        | inl done ↦ done
        | inr (l1, r1) ↦
            elim (next_round 1 62 r1 (omega arith) l1 (λ h. ground arith) (λ h. ground arith)
              refl) [
                | inl done ↦ done
                | inr (l2, r2) ↦
                    elim (next_round 2 61 r2 (omega arith) l2 (λ h. ground arith)
                      (λ h. ground arith) refl) [
                        | inl done ↦ done
                        | inr (l3, r3) ↦
                            elim (next_round 3 60 r3 (omega arith) l3 (λ h. ground arith)
                              (λ h. ground arith) refl) [
                                | inl done ↦ done
                                | inr (l4, r4) ↦
                                    elim (next_round 4 59 r4 (omega arith) l4 (λ h. ground arith)
                                      (λ h. ground arith) refl) [
                                        | inl done ↦ done
                                        | inr (l5, r5) ↦ (
                                          5,
                                          omega arith,
                                          l5,
                                          omega arith,
                                          r5
                                              ∙ scale-ends (quot 5) (unit_size 5) 5 58
                                                  (ground arith),
                                        )
                                      ]
                              ]
                      ]
              ]
      ]

  -- For a uint64 the loop ends within its fuel and the letter is one of the six; the number is
  -- shown in the largest unit that is not larger than it, and in bytes below 1024.
  pub human_bytes-unit :
      (quotient : ℕ → ℕ → Text)
      → n < 2 ^ 64
      → (n < 1024) × (human_bytes quotient n ≡ some (print n ++ codes " B"))
        ⊎ ((k : ℕ) × (letter : ℕ) × (unit_letter k ≡ some letter)
            × (unit_size k ≤ n)
            × (n < unit_size (k + 1))
            × (human_bytes quotient n
                ≡ some (quotient n (unit_size k) ++ b' ' ∷ letter ∷ codes "iB")))
  unfolding human_bytes with_unit scaled
  human_bytes-unit quotient high = elim (Bool-cases (ltb n 1024)) [
    | inl small ↦ inl (ground arith, rw small)
    | inr large ↦
        let (k, le, low, below, ends) = scale-Scales (ground arith) high in
        let (letter, e) = unit_letter-some k le in
        inr (k, letter, e, low, below, rw (large, ends, e) refl)
  ]
