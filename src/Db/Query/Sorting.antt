-- ===== src/Db/Query/Sorting.antt =====
-- `ORDER BY … LIMIT 1`: the first row that passes, in order, is the least of those that pass.
use net_bird_audit.Prelude.{
  In, Bool, true, false, ◌||◌, List, [], ◌∷◌, none, some, ◌≡◌, arith, All, ◌⊎◌, inl, inr,
}
use net_bird_audit.Db.Query.{find, insert_by, sort_by}
use net_bird_audit.Db.Query.Laws.{find_sound, find-none}

module _ {A : Type 0} (le : A → A → Bool) where
  abbrev pub IsSorted : List A → Type 0
  IsSorted [] = Unit
  IsSorted (r ∷ rows) = All (λ q. le r q ≡ true) rows × IsSorted rows

module _ {A : Type 0} (le : A → A → Bool) (total : (a b : A) → (le a b || le b a) ≡ true)
    (trans : (a b c : A) → le a b ≡ true → le b c ≡ true → le a c ≡ true) where
  All-le_trans :
      (r q : A) (rows : List A)
      → le r q ≡ true
      → All (λ x. le q x ≡ true) rows
      → All (λ x. le r x ≡ true) rows
  All-le_trans r q [] h all_q = tt
  All-le_trans r q (x ∷ rows) h all_q = (trans r q x h all_q.0, All-le_trans r q rows h all_q.1)

  All-insert_by :
      (x r : A) (rows : List A)
      → le x r ≡ true
      → All (λ q. le x q ≡ true) rows
      → All (λ q. le x q ≡ true) (insert_by le r rows)
  unfolding insert_by
  All-insert_by x r [] h all_x = (h, tt)
  All-insert_by x r (q ∷ rows) h all_x = ground (arith, All-insert_by x r rows h all_x.1)

  insert_by-IsSorted :
      (r : A) (rows : List A) → IsSorted le rows → IsSorted le (insert_by le r rows)
  unfolding insert_by
  insert_by-IsSorted r [] h = (tt, tt)
  insert_by-IsSorted r (q ∷ rows) h = ground (
    arith,
    total r q,
    insert_by-IsSorted r rows h.1,
    All-insert_by q r rows,
    All-le_trans r q rows,
  )

  pub sort_by-IsSorted : (rows : List A) → IsSorted le (sort_by le rows)
  unfolding sort_by
  sort_by-IsSorted [] = tt
  sort_by-IsSorted (r ∷ rows) = insert_by-IsSorted r (sort_by le rows) (sort_by-IsSorted rows)

  insert_by-In : (r a : A) (rows : List A) → In a (insert_by le r rows) → (a ≡ r) ⊎ In a rows
  unfolding insert_by
  insert_by-In r a [] h = h
  insert_by-In r a (q ∷ rows) h = ground (arith, insert_by-In r a rows)

  In-insert_by : (r a : A) (rows : List A) → (a ≡ r) ⊎ In a rows → In a (insert_by le r rows)
  unfolding insert_by
  In-insert_by r a [] h = h
  In-insert_by r a (q ∷ rows) h = ground (arith, In-insert_by r a rows)

  pub sort_by-In : (a : A) (rows : List A) → In a (sort_by le rows) → In a rows
  unfolding sort_by
  sort_by-In a [] h = h
  sort_by-In a (r ∷ rows) h =
      ground (arith, insert_by-In r a (sort_by le rows) h, sort_by-In a rows)

  pub In-sort_by : (a : A) (rows : List A) → In a rows → In a (sort_by le rows)
  unfolding sort_by
  In-sort_by a [] h = h
  In-sort_by a (r ∷ rows) (inl e) = In-insert_by r a (sort_by le rows) (inl e)
  In-sort_by a (r ∷ rows) (inr m) = In-insert_by r a (sort_by le rows) (inr (In-sort_by a rows m))

  All-In : (x a : A) (rows : List A) → All (λ q. le x q ≡ true) rows → In a rows → le x a ≡ true
  All-In x a [] h m = absurd m
  All-In x a (q ∷ rows) h (inl e) = ground (arith, h.0)
  All-In x a (q ∷ rows) h (inr m) = All-In x a rows h.1 m

  find-least :
      (p : A → Bool) (rows : List A) (a b : A)
      → IsSorted le rows
      → find p rows ≡ some a
      → In b rows
      → p b ≡ true
      → le a b ≡ true
  unfolding find
  find-least p [] a b s h m pb = absurd m
  find-least p (q ∷ rows) a b s h (inl e) pb = ground (arith, total b b)
  find-least p (q ∷ rows) a b s h (inr m) pb =
      ground (arith, find-least p rows a b s.1, All-In q b rows s.0 m)

  -- The row that is found passes, and comes no later than any other row that passes.
  pub find-sort_by :
      (p : A → Bool) (rows : List A) (a : A)
      → find p (sort_by le rows) ≡ some a
      → In a rows × (p a ≡ true) × ((b : A) → In b rows → p b ≡ true → le a b ≡ true)
  find-sort_by p rows a h =
      let (m, pa) = find_sound p (sort_by le rows) a h in
      (
        sort_by-In a rows m,
        pa,
        λ b mb pb.
            find-least p (sort_by le rows) a b (sort_by-IsSorted rows) h (In-sort_by b rows mb) pb,
      )

  -- If no row is found, none passes.
  pub find-sort_by-none :
      (p : A → Bool) (rows : List A) (b : A)
      → find p (sort_by le rows) ≡ none
      → In b rows
      → p b ≡ false
  find-sort_by-none p rows b h m = find-none p (sort_by le rows) b h (In-sort_by b rows m)
