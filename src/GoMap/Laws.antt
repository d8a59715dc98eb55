-- ===== src/GoMap/Laws.antt =====
-- What a look-up finds after each change.
use net_bird_audit.Prelude.{
  [], ◌∷◌, Text, none, some, ◌==◌, text_eq, text_beq_iff, if◌then◌else◌, ◌≡◌, refl, arith,
}
use net_bird_audit.GoMap.Defs.{GoMap, empty, lookup, insert, remove}

module _ {ℓ} {V : Type ℓ} where
  pub lookup-remove :
      (k j : Text) (m : GoMap V) → lookup j (remove k m) ≡ (if k == j then none else lookup j m)
  unfolding lookup remove
  lookup-remove k j [] = ground arith
  lookup-remove k j ((i, v) ∷ m) =
      ground (arith, lookup-remove k j m, text_beq_iff i k, text_beq_iff i j, text_beq_iff k j)

  pub lookup-insert :
      (k j : Text) (v : V) (m : GoMap V)
      → lookup j (insert k v m) ≡ (if k == j then some v else lookup j m)
  unfolding lookup insert
  lookup-insert k j v m = ground (arith, lookup-remove k j m)

pub lookup-empty {ℓ} : {V : Type ℓ} (k : Text) → lookup k (empty {V = V}) ≡ none
unfolding lookup empty
lookup-empty k = refl

pub ruleset map_laws = (lookup-empty, lookup-remove, lookup-insert)
