-- ===== src/Db/Query/Grouping.antt =====
-- `GROUP BY` and `SELECT DISTINCT`, by a test that tells which rows count as one.
use net_bird_audit.Prelude.{
  ℕ, zero, suc, take, ◌+◌, Bool, true, false, List, [], ◌∷◌, keep, In, All, ◌≡◌, refl, inl, inr,
  ◌∙◌, arith, if◌then◌else◌, Bool-cases,
}
use net_bird_audit.Db.Query.{any, insert_by, sort_by}

module _ {A : Type 0} where
  abbrev pub sum_of : (A → ℕ) → List A → ℕ
  sum_of f [] = 0
  sum_of f (r ∷ rows) = f r + sum_of f rows

  -- No two rows count as one.
  abbrev pub Apart : (A → A → Bool) → List A → Type 0
  Apart eq [] = Unit
  Apart eq (r ∷ rows) = All (λ q. eq r q ≡ false) rows × Apart eq rows

  unfoldable pub distinct : (A → A → Bool) → List A → List A
  distinct eq [] = []
  distinct eq (r ∷ rows) =
      let rest = distinct eq rows in if any (λ q. eq r q) rows then rest else r ∷ rest

  sum-insert_by :
      (le : A → A → Bool) (f : A → ℕ) (r : A) (rows : List A)
      → sum_of f (insert_by le r rows) ≡ f r + sum_of f rows
  unfolding insert_by
  sum-insert_by le f r [] = omega arith
  sum-insert_by le f r (q ∷ rows) = ground (arith, sum-insert_by le f r rows)

  pub sum-sort_by :
      (le : A → A → Bool) (f : A → ℕ) (rows : List A) → sum_of f (sort_by le rows) ≡ sum_of f rows
  unfolding sort_by
  sum-sort_by le f [] = refl
  sum-sort_by le f (r ∷ rows) =
      omega (arith, sum-insert_by le f r (sort_by le rows), sum-sort_by le f rows)

  All-take : (P : A → Type 0) (n : ℕ) (rows : List A) → All P rows → All P (take n rows)
  All-take P zero rows h = tt
  All-take P (suc n) [] h = tt
  All-take P (suc n) (r ∷ rows) h = (h.0, All-take P n rows h.1)

  pub take-Apart :
      (eq : A → A → Bool) (n : ℕ) (rows : List A) → Apart eq rows → Apart eq (take n rows)
  take-Apart eq zero rows h = tt
  take-Apart eq (suc n) [] h = tt
  take-Apart eq (suc n) (r ∷ rows) h =
      (All-take (λ q. eq r q ≡ false) n rows h.0, take-Apart eq n rows h.1)

  any-In : (p : A → Bool) (rows : List A) → any p rows ≡ true → (q : A) × In q rows × (p q ≡ true)
  unfolding any
  any-In p [] h = absurd (ground arith)
  any-In p (r ∷ rows) h = elim (Bool-cases (p r)) [
    | inl here ↦ (r, inl refl, here)
    | inr later ↦ let (q, m, e) = any-In p rows (ground arith) in (q, inr m, e)
  ]

  All-In : (P : A → Type 0) (a : A) (rows : List A) → All P rows → In a rows → P a
  All-In P a [] h m = absurd m
  All-In P a (r ∷ rows) h (inl e) = rw e h.0
  All-In P a (r ∷ rows) h (inr m) = All-In P a rows h.1 m

-- `eq` tells which rows count as one.
module _ {A : Type 0} (eq : A → A → Bool) (eq_refl : (a : A) → eq a a ≡ true)
    (eq-sym : (a b : A) → eq a b ≡ eq b a)
    (eq_trans : (a b d : A) → eq a b ≡ true → eq b d ≡ true → eq a d ≡ true) where
  pub distinct-In : (a : A) (rows : List A) → In a (distinct eq rows) → In a rows
  unfolding distinct
  distinct-In a [] m = m
  distinct-In a (r ∷ rows) m = ground (arith, distinct-In a rows)

  -- Every row counts as one that is kept.
  pub distinct-covers :
      (a : A) (rows : List A) → In a rows → (h : A) × In h (distinct eq rows) × (eq h a ≡ true)
  unfolding distinct
  distinct-covers a [] m = absurd m
  distinct-covers a (r ∷ rows) (inr m) =
      let (h, mh, e) = distinct-covers a rows m in (h, ground arith, e)
  distinct-covers a (r ∷ rows) (inl e) = elim (Bool-cases (any (λ q. eq r q) rows)) [
    | inr alone ↦ (r, ground arith, ground (arith, eq_refl r))
    | inl again ↦
        let (q, mq, same) = any-In (λ q. eq r q) rows again in
        let (h, mh, e') = distinct-covers q rows mq in
        (h, ground arith, rw e (eq_trans h q r e' (eq-sym q r ∙ same)))
  ]

  any-distinct :
      (a : A) (rows : List A)
      → any (λ q. eq a q) rows ≡ false
      → All (λ q. eq a q ≡ false) (distinct eq rows)
  unfolding any distinct
  any-distinct a [] h = tt
  any-distinct a (r ∷ rows) h = ground (arith, any-distinct a rows)

  pub distinct-Apart : (rows : List A) → Apart eq (distinct eq rows)
  unfolding distinct
  distinct-Apart [] = tt
  distinct-Apart (r ∷ rows) = ground (arith, distinct-Apart rows, any-distinct r rows)

  All-insert_by :
      (le : A → A → Bool) (x r : A) (rows : List A)
      → eq x r ≡ false
      → All (λ q. eq x q ≡ false) rows
      → All (λ q. eq x q ≡ false) (insert_by le r rows)
  unfolding insert_by
  All-insert_by le x r [] h all_x = (h, tt)
  All-insert_by le x r (q ∷ rows) h all_x = ground (arith, All-insert_by le x r rows h all_x.1)

  insert_by-Apart :
      (le : A → A → Bool) (r : A) (rows : List A)
      → All (λ q. eq r q ≡ false) rows
      → Apart eq rows
      → Apart eq (insert_by le r rows)
  unfolding insert_by
  insert_by-Apart le r [] all_r h = (tt, tt)
  insert_by-Apart le r (q ∷ rows) all_r h = elim (Bool-cases (le r q)) [
    | inl first ↦ rw first (all_r, h)
    | inr later ↦ rw later (
      All-insert_by le q r rows (eq-sym q r ∙ all_r.0) h.0,
      insert_by-Apart le r rows all_r.1 h.1,
    )
  ]

  All-sort_by :
      (le : A → A → Bool) (x : A) (rows : List A)
      → All (λ q. eq x q ≡ false) rows
      → All (λ q. eq x q ≡ false) (sort_by le rows)
  unfolding sort_by
  All-sort_by le x [] h = tt
  All-sort_by le x (r ∷ rows) h =
      All-insert_by le x r (sort_by le rows) h.0 (All-sort_by le x rows h.1)

  pub sort_by-Apart :
      (le : A → A → Bool) (rows : List A) → Apart eq rows → Apart eq (sort_by le rows)
  unfolding sort_by
  sort_by-Apart le [] h = tt
  sort_by-Apart le (r ∷ rows) h =
      insert_by-Apart le r (sort_by le rows) (All-sort_by le r rows h.0) (sort_by-Apart le rows h.1)

  module _ (f : A → ℕ) where
    -- What the row `r` adds to the groups of the heads `hs`.
    abbrev share : A → List A → ℕ
    share r hs = sum_of (λ h. if eq h r then f r else 0) hs

    share-other : (r : A) (hs : List A) → All (λ h. eq h r ≡ false) hs → share r hs ≡ 0
    share-other r [] none_like = refl
    share-other r (h ∷ hs) none_like = ground (arith, share-other r hs none_like.1)

    others_apart :
        (r h : A) (hs : List A)
        → eq h r ≡ true
        → All (λ q. eq h q ≡ false) hs
        → All (λ q. eq q r ≡ false) hs
    others_apart r h [] e all_h = tt
    others_apart r h (q ∷ hs) e all_h = (
      elim (Bool-cases (eq q r)) [
        | inr no_match ↦ no_match
        | inl also ↦ absurd (ground (arith, all_h.0, eq_trans h r q e (eq-sym r q ∙ also)))
      ],
      others_apart r h hs e all_h.1,
    )

    share-one : (r h : A) (hs : List A) → Apart eq hs → In h hs → eq h r ≡ true → share r hs ≡ f r
    share-one r h [] apart m e = absurd m
    share-one r h (q ∷ hs) apart (inl same) e =
        let e' : eq q r ≡ true = rw same at e in
        rw e' (omega (arith, share-other r hs (others_apart r q hs e' apart.0)))
    share-one r h (q ∷ hs) apart (inr m) e = elim (Bool-cases (eq q r)) [
      | inr no_match ↦ rw no_match (omega (arith, share-one r h hs apart.1 m e))
      | inl also ↦ absurd (
          ground (
            arith,
            All-In (λ x. eq q x ≡ false) h hs apart.0 m,
            eq_trans q r h also (eq-sym r h ∙ e),
          ))
    ]

    sum-cons :
        (r : A) (rows hs : List A)
        → sum_of (λ h. sum_of f (keep (λ q. eq h q) (r ∷ rows))) hs
          ≡ share r hs + sum_of (λ h. sum_of f (keep (λ q. eq h q) rows)) hs
    sum-cons r rows [] = refl
    sum-cons r rows (h ∷ hs) = ground (arith, sum-cons r rows hs)

    sum-nil : (hs : List A) → sum_of (λ h. sum_of f (keep (λ q. eq h q) [])) hs ≡ 0
    sum-nil [] = refl
    sum-nil (h ∷ hs) = omega (arith, sum-nil hs)

    sum-covered :
        (rows hs : List A)
        → Apart eq hs
        → ((a : A) → In a rows → (h : A) × In h hs × (eq h a ≡ true))
        → sum_of (λ h. sum_of f (keep (λ q. eq h q) rows)) hs ≡ sum_of f rows
    sum-covered [] hs apart covers = sum-nil hs
    sum-covered (r ∷ rows) hs apart covers =
        let (h, m, e) = covers r (inl refl) in
        omega (
          arith,
          sum-cons r rows hs,
          share-one r h hs apart m e,
          sum-covered rows hs apart (λ a ma. covers a (inr ma)),
        )

    -- The sums over the groups add up to the sum over all rows.
    pub sum-groups :
        (rows : List A)
        → sum_of (λ h. sum_of f (keep (λ q. eq h q) rows)) (distinct eq rows) ≡ sum_of f rows
    sum-groups rows =
        sum-covered rows (distinct eq rows) (distinct-Apart rows) (λ a. distinct-covers a rows)
