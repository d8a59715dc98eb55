-- ===== src/Db/Query/Keyed.antt =====
-- A table with a unique text column, which INSERT … ON DUPLICATE KEY UPDATE writes, is a map.
use net_bird_audit.Prelude.{
  ◌+◌, ◌≤◌, Text, Bool, true, List, [], ◌∷◌, Option, none, some, if◌then◌else◌, ◌≡◌, arith, count,
  refl,
}
use net_bird_audit.Db.Collation.{Collation, same, same-sym, same-congr, same_trans}
use net_bird_audit.Db.Query.{any, find, upsert}
use net_bird_audit.Db.Query.Laws.{any-count}

-- What the statement leaves under the key: the new row, or the old one changed.
abbrev pub written : {A : Type 0} → (A → A) → A → Option A → A
written f new none = new
written f new (some q) = f q

module _ ⦃c : Collation⦄ {A : Type 0} (key : A → Text) where
  abbrev pub has : Text → A → Bool
  has k r = same (key r) k

  -- The row with a key.
  abbrev pub row_at : Text → List A → Option A
  row_at k rows = find (has k) rows

  -- No key stands in two rows.
  abbrev pub IsUnique : List A → Type 0
  IsUnique rows = (k : Text) → count (has k) rows ≤ 1

  pub row_at-same : (j k : Text) (rows : List A) → same j k ≡ true → row_at j rows ≡ row_at k rows
  unfolding find
  row_at-same j k [] h = refl
  row_at-same j k (r ∷ rows) h = ground (
    arith,
    row_at-same j k rows h,
    same-congr j k (key r) h,
    same-sym j (key r),
    same-sym k (key r),
  )

  module _ (f : A → A) (keeps : (q : A) → key (f q) ≡ key q) where
    -- The row with the key of the new row is the new one, or the old one changed; the row of every
    -- other key is as before.
    pub row_at-upsert :
        (new : A) (k : Text) (rows : List A)
        → row_at k (upsert (has (key new)) f new rows) ≡ (
            if same (key new) k
            then some (written f new (row_at (key new) rows))
            else row_at k rows)
    unfolding find upsert
    row_at-upsert new k [] = ground arith
    row_at-upsert new k (q ∷ rows) = ground (
      arith,
      row_at-upsert new k rows,
      keeps q,
      same-congr (key q) (key new) k,
      same-congr (key new) k (key q),
      same-sym (key q) (key new),
      same-sym (key q) k,
      same_trans (key q) k (key new),
      same-sym k (key new),
    )

    count-upsert :
        (new : A) (k : Text) (rows : List A)
        → count (has k) (upsert (has (key new)) f new rows) ≡ (
            if any (has (key new)) rows
            then count (has k) rows
            else count (has k) rows + (if same (key new) k then 1 else 0))
    unfolding upsert any
    count-upsert new k [] = ground arith
    count-upsert new k (q ∷ rows) = ground (arith, count-upsert new k rows, keeps q)

    count-has_congr :
        (a b : Text) (rows : List A) → same a b ≡ true → count (has a) rows ≡ count (has b) rows
    count-has_congr a b [] h = refl
    count-has_congr a b (r ∷ rows) h = ground (
      arith,
      count-has_congr a b rows h,
      same-congr a b (key r) h,
      same-sym a (key r),
      same-sym b (key r),
    )

    pub upsert-IsUnique :
        (new : A) (rows : List A) → IsUnique rows → IsUnique (upsert (has (key new)) f new rows)
    upsert-IsUnique new rows u k = ground (
      arith,
      count-upsert new k rows,
      u k,
      any-count (has (key new)) rows,
      count-has_congr (key new) k rows,
    )
