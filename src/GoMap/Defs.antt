-- ===== src/GoMap/Defs.antt =====
-- Maps as lists of their entries.
use net_bird_audit.Prelude.{List, [], ◌∷◌, Text, Option, none, some, ◌==◌, text_eq, if◌then◌else◌}

abbrev pub GoMap {ℓ} : Type ℓ → Type ℓ
GoMap V = List (Text × V)

module _ {ℓ} {V : Type ℓ} where
  unfoldable pub empty : GoMap V
  empty = []

  -- m[k]
  unfoldable pub lookup : Text → GoMap V → Option V
  lookup k [] = none
  lookup k ((j, v) ∷ m) = if j == k then some v else lookup k m

  -- delete(m, k)
  unfoldable pub remove : Text → GoMap V → GoMap V
  remove k [] = []
  remove k ((j, v) ∷ m) = let rest = remove k m in if j == k then rest else (j, v) ∷ rest

  -- m[k] = v
  unfoldable pub insert : Text → V → GoMap V → GoMap V
  unfolding remove
  insert k v m = (k, v) ∷ remove k m
