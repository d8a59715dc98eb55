-- ===== src/Db/Query.antt =====
-- The parts of SQL statements, as functions on lists of rows.
pub mod Laws
pub mod Sorting
pub mod Keyed
pub mod Pages
pub mod Grouping
use net_bird_audit.Prelude.{
  ℕ, Bool, true, false, ◌||◌, List, [], ◌∷◌, Option, none, some, if◌then◌else◌, ltb,
}

module _ {ℓ} {A : Type ℓ} where
  unfoldable pub any : (A → Bool) → List A → Bool
  any p [] = false
  any p (r ∷ rows) = p r || any p rows

  -- The first row that passes: `LIMIT 1` without an order.
  unfoldable pub find : (A → Bool) → List A → Option A
  find p [] = none
  find p (r ∷ rows) = let rest = find p rows in if p r then some r else rest

  -- UPDATE … WHERE
  unfoldable pub update : (A → Bool) → (A → A) → List A → List A
  update p f [] = []
  update p f (r ∷ rows) = (if p r then f r else r) ∷ update p f rows

  -- INSERT … ON DUPLICATE KEY UPDATE: the row with the key is changed, or the new one is added.
  unfoldable pub upsert : (A → Bool) → (A → A) → A → List A → List A
  upsert dup f r [] = r ∷ []
  upsert dup f r (q ∷ rows) =
      let rest = upsert dup f r rows in if dup q then f q ∷ rows else q ∷ rest

  insert_by : (A → A → Bool) → A → List A → List A
  insert_by le r [] = r ∷ []
  insert_by le r (q ∷ rows) =
      let rest = insert_by le r rows in if le r q then r ∷ q ∷ rows else q ∷ rest

  -- ORDER BY
  unfoldable pub sort_by : (A → A → Bool) → List A → List A
  unfolding insert_by
  sort_by le [] = []
  sort_by le (r ∷ rows) = insert_by le r (sort_by le rows)

  -- ORDER BY id DESC LIMIT 1 among the rows that pass.
  unfoldable pub newest : (A → ℕ) → (A → Bool) → List A → Option A
  newest id p [] = none
  newest id p (r ∷ rows) = elim (newest id p rows) [
    | none ↦ if p r then some r else none
    | some q ↦ if p r then (if ltb (id q) (id r) then some r else some q) else some q
  ]
