-- ===== src/Text/Ascii.antt =====
-- strings.TrimSpace, ToLower and ToUpper.
use net_bird_audit.Prelude.{
  ℕ, ◌+◌, ◌-◌, ◌≡◌, refl, Bool, false, ◌&&◌, ◌||◌, [], ◌∷◌, map, arith, Text, leb, ◌==◌, nat_eq,
  if◌then◌else◌,
}

unfoldable pub is_space : ℕ → Bool
is_space c = leb 9 c && leb c 13 || c == 32

trim_left : Text → Text
trim_left [] = []
trim_left (c ∷ s) = let rest = trim_left s in if is_space c then rest else c ∷ s

-- Drops the spaces at the end.
trim_right : Text → Text
trim_right [] = []
trim_right (c ∷ s) = elim (trim_right s) [
  | [] ↦ if is_space c then [] else c ∷ []
  | d ∷ t ↦ c ∷ d ∷ t
]

unfoldable pub trim_space : Text → Text
unfolding trim_left trim_right is_space
trim_space s = trim_right (trim_left s)

lower_byte : ℕ → ℕ
lower_byte c = if leb b'A' c && leb c b'Z' then c + 32 else c

unfoldable pub to_lower : Text → Text
unfolding lower_byte
to_lower s = map lower_byte s

upper_byte : ℕ → ℕ
upper_byte c = if leb b'a' c && leb c b'z' then c - 32 else c

unfoldable pub to_upper : Text → Text
unfolding upper_byte
to_upper s = map upper_byte s

-- Lowering twice is lowering once.
pub to_lower_idem : (s : Text) → to_lower (to_lower s) ≡ to_lower s
unfolding to_lower
to_lower_idem [] = refl
to_lower_idem (c ∷ s) = ground (arith, to_lower_idem s)

-- A text that holds no space.
abbrev pub NoSpace : Text → Type 0
NoSpace [] = Unit {0}
NoSpace (c ∷ s) = (is_space c ≡ false) × NoSpace s

trim_right-of_NoSpace : (s : Text) → NoSpace s → trim_right s ≡ s
unfolding trim_right
trim_right-of_NoSpace [] h = refl
trim_right-of_NoSpace (c ∷ []) h = rw h.0
trim_right-of_NoSpace (c ∷ d ∷ s) h = rw (trim_right-of_NoSpace (d ∷ s) h.1)

trim_left-of_NoSpace : (s : Text) → NoSpace s → trim_left s ≡ s
unfolding trim_left
trim_left-of_NoSpace [] h = refl
trim_left-of_NoSpace (c ∷ s) h = rw h.0

pub trim_space-of_NoSpace : (s : Text) → NoSpace s → trim_space s ≡ s
unfolding trim_space
trim_space-of_NoSpace s h = rw (trim_left-of_NoSpace s h) (trim_right-of_NoSpace s h)
