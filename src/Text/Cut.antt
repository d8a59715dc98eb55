-- ===== src/Text/Cut.antt =====
-- strings.Split, TrimSuffix, TrimRight, Trim and LastIndex for one-byte separators.
use mathlib.Core.List.{reverse}
use net_bird_audit.Prelude.{
  ℕ, suc, ◌≡◌, refl, Bool, true, false, ◌||◌, List, [], ◌∷◌, ◌++◌, Option, none, some, arith, Text,
  ◌==◌, nat_eq, if◌then◌else◌, All, ◌≢◌,
}

-- Puts a byte in front of the first part.
prepend : ℕ → List Text → List Text
prepend c [] = (c ∷ []) ∷ []
prepend c (p ∷ ps) = (c ∷ p) ∷ ps

-- Cuts at every `sep`; there is always at least one part.
unfoldable pub split : Text → ℕ → List Text
unfolding prepend
split [] sep = [] ∷ []
split (c ∷ s) sep = let rest = split s sep in if c == sep then [] ∷ rest else prepend c rest

unfoldable pub starts_with : Text → Text → Bool
starts_with s [] = true
starts_with [] (p ∷ ps) = false
starts_with (c ∷ s) (p ∷ ps) = if c == p then starts_with s ps else false

unfoldable pub drop_prefix? : Text → Text → Option Text
drop_prefix? s [] = some s
drop_prefix? [] (p ∷ ps) = none
drop_prefix? (c ∷ s) (p ∷ ps) = if c == p then drop_prefix? s ps else none

-- Drops `suffix` from the end, if it is there.
unfoldable pub trim_suffix : Text → Text → Text
unfolding drop_prefix?
trim_suffix s suffix = elim (drop_prefix? (reverse s) (reverse suffix)) [
  | none ↦ s
  | some r ↦ reverse r
]

-- The position of the last `sep`.
unfoldable pub last_index : Text → ℕ → Option ℕ
last_index [] sep = none
last_index (c ∷ s) sep = elim (last_index s sep) [
  | some i ↦ some (suc i)
  | none ↦ if c == sep then some 0 else none
]

one_of : ℕ → Text → Bool
one_of c [] = false
one_of c (b ∷ bs) = c == b || one_of c bs

trim_left_set : Text → Text → Text
trim_left_set [] cutset = []
trim_left_set (c ∷ s) cutset =
    let rest = trim_left_set s cutset in if one_of c cutset then rest else c ∷ s

-- strings.TrimRight
unfoldable pub trim_right_set : Text → Text → Text
unfolding one_of
trim_right_set [] cutset = []
trim_right_set (c ∷ s) cutset = elim (trim_right_set s cutset) [
  | [] ↦ if one_of c cutset then [] else c ∷ []
  | d ∷ t ↦ c ∷ d ∷ t
]

-- strings.Trim
unfoldable pub trim_set : Text → Text → Text
unfolding trim_left_set trim_right_set
trim_set s cutset = trim_right_set (trim_left_set s cutset) cutset

abbrev pub Lacks : ℕ → Text → Type 0
Lacks b = All (λ c. c ≢ b)

-- A part without the separator is one part, whatever follows the separator.
pub split-append : (p s : Text) (sep : ℕ) → Lacks sep p → split (p ++ sep ∷ s) sep ≡ p ∷ split s sep
unfolding split
split-append [] s sep h = ground arith
split-append (c ∷ p) s sep h = ground (arith, split-append p s sep h.1)

pub split-of_Lacks : (p : Text) (sep : ℕ) → Lacks sep p → split p sep ≡ p ∷ []
unfolding split
split-of_Lacks [] sep h = refl
split-of_Lacks (c ∷ p) sep h = ground (arith, split-of_Lacks p sep h.1)
