-- ===== src/Crypto/Base32/RoundTrip.antt =====
-- Decoding what was encoded, also after TrimSpace and ToUpper.
use net_bird_audit.Prelude.{
  ℕ, ◌+◌, ◌*◌, ◌/◌, ◌%◌, ◌<◌, ◌≡◌, refl, ap, not, ◌||◌, List, [], ◌∷◌, Text, ◌==◌, nat_eq, some,
  keep, map, All, arith,
}
use net_bird_audit.Text.{is_space, NoSpace, trim_space, trim_space-of_NoSpace, to_upper}
use net_bird_audit.Crypto.Base32.{char_of, value_of, encode, values, bytes, decode}

-- The five-bit digits of a list of bytes.
quintets : Text → List ℕ
quintets [] = []
quintets (a ∷ []) = a / 8 ∷ a % 8 * 4 ∷ []
quintets (a ∷ b ∷ []) = a / 8 ∷ (a % 8 * 4 + b / 64) ∷ b / 2 % 32 ∷ b % 2 * 16 ∷ []
quintets (a ∷ b ∷ c ∷ []) =
    a / 8 ∷ (a % 8 * 4 + b / 64) ∷ b / 2 % 32 ∷ (b % 2 * 16 + c / 16) ∷ c % 16 * 2 ∷ []
quintets (a ∷ b ∷ c ∷ d ∷ []) =
    a / 8
    ∷ (a % 8 * 4 + b / 64)
    ∷ b / 2 % 32
    ∷ (b % 2 * 16 + c / 16)
    ∷ (c % 16 * 2 + d / 128)
    ∷ d / 4 % 32
    ∷ d % 4 * 8
    ∷ []
quintets (a ∷ b ∷ c ∷ d ∷ e ∷ rest) =
    a / 8
    ∷ (a % 8 * 4 + b / 64)
    ∷ b / 2 % 32
    ∷ (b % 2 * 16 + c / 16)
    ∷ (c % 16 * 2 + d / 128)
    ∷ d / 4 % 32
    ∷ (d % 4 * 8 + e / 32)
    ∷ e % 32
    ∷ quintets rest

encode-map : (s : Text) → encode s ≡ map char_of (quintets s)
unfolding encode quintets
encode-map [] = refl
encode-map (a ∷ []) = refl
encode-map (a ∷ b ∷ []) = refl
encode-map (a ∷ b ∷ c ∷ []) = refl
encode-map (a ∷ b ∷ c ∷ d ∷ []) = refl
encode-map (a ∷ b ∷ c ∷ d ∷ e ∷ rest) = rw (encode-map rest)

abbrev pub AreBytes : Text → Type 0
AreBytes = All (λ b. b < 256)

abbrev AreDigits : List ℕ → Type 0
AreDigits = All (λ v. v < 32)

AreDigits-quintets : (s : Text) → AreBytes s → AreDigits (quintets s)
unfolding quintets
AreDigits-quintets [] h = tt
AreDigits-quintets (a ∷ []) h = omega arith
AreDigits-quintets (a ∷ b ∷ []) h = omega arith
AreDigits-quintets (a ∷ b ∷ c ∷ []) h = omega arith
AreDigits-quintets (a ∷ b ∷ c ∷ d ∷ []) h = omega arith
AreDigits-quintets (a ∷ b ∷ c ∷ d ∷ e ∷ rest) h = (
  omega arith,
  (
    omega arith,
    (
      omega arith,
      (
        omega arith,
        (
          omega arith,
          (omega arith, (omega arith, (omega arith, AreDigits-quintets rest h.1.1.1.1.1))),
        ),
      ),
    ),
  ),
)

bytes-quintets : (s : Text) → AreBytes s → bytes (quintets s) ≡ s
unfolding bytes quintets
bytes-quintets [] h = refl
bytes-quintets (a ∷ []) h = ground arith
bytes-quintets (a ∷ b ∷ []) h = ground arith
bytes-quintets (a ∷ b ∷ c ∷ []) h = ground arith
bytes-quintets (a ∷ b ∷ c ∷ d ∷ []) h = ground arith
bytes-quintets (a ∷ b ∷ c ∷ d ∷ e ∷ rest) h = ground (arith, bytes-quintets rest h.1.1.1.1.1)

values-map :
    (vs : List ℕ)
    → AreDigits vs
    → values (keep (λ c. not (c == b'\r' || c == b'\n')) (map char_of vs)) ≡ some vs
unfolding values value_of char_of
values-map [] h = refl
values-map (v ∷ vs) h = ground (arith, values-map vs h.1)

to_upper-map : (vs : List ℕ) → AreDigits vs → to_upper (map char_of vs) ≡ map char_of vs
unfolding to_upper char_of
to_upper-map [] h = refl
to_upper-map (v ∷ vs) h = ground (arith, to_upper-map vs h.1)

NoSpace-map : (vs : List ℕ) → AreDigits vs → NoSpace (map char_of vs)
unfolding is_space char_of
NoSpace-map [] h = tt
NoSpace-map (v ∷ vs) h = (ground (arith, h.0), NoSpace-map vs h.1)

-- An encoded secret is unchanged by TrimSpace and ToUpper, and is decoded to its bytes.
pub decode-encode : (s : Text) → AreBytes s → decode (to_upper (trim_space (encode s))) ≡ some s
unfolding decode
decode-encode s h =
    let vs = quintets s in
    let hv = AreDigits-quintets s h in
    rw (encode-map s) (
      rw (trim_space-of_NoSpace (map char_of vs) (NoSpace-map vs hv)) (
        rw (to_upper-map vs hv)
          (rw (values-map vs hv) (ap (λ (t : Text). some t) (bytes-quintets s h)))))
