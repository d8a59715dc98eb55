-- ===== src/Db/Query/Pages.antt =====
-- `ORDER BY … LIMIT n`: the first rows in order.
use net_bird_audit.Prelude.{
  ℕ, zero, suc, In, Bool, true, List, [], ◌∷◌, take, length, ◌≡◌, refl, arith, All, ◌⊎◌, inl, inr,
}
use net_bird_audit.Db.Query.Sorting.{IsSorted}

module _ {A : Type 0} (le : A → A → Bool) where
  pub take-In : (n : ℕ) (a : A) (rows : List A) → In a (take n rows) → In a rows
  take-In zero a rows m = absurd m
  take-In (suc n) a [] m = absurd m
  take-In (suc n) a (r ∷ rows) (inl e) = inl e
  take-In (suc n) a (r ∷ rows) (inr m) = inr (take-In n a rows m)

  All-take :
      (n : ℕ) (x : A) (rows : List A)
      → All (λ q. le x q ≡ true) rows
      → All (λ q. le x q ≡ true) (take n rows)
  All-take zero x rows h = tt
  All-take (suc n) x [] h = tt
  All-take (suc n) x (r ∷ rows) h = (h.0, All-take n x rows h.1)

  pub take-IsSorted : (n : ℕ) (rows : List A) → IsSorted le rows → IsSorted le (take n rows)
  take-IsSorted zero rows s = tt
  take-IsSorted (suc n) [] s = tt
  take-IsSorted (suc n) (r ∷ rows) s = (All-take n r rows s.0, take-IsSorted n rows s.1)

  All-In : (x a : A) (rows : List A) → All (λ q. le x q ≡ true) rows → In a rows → le x a ≡ true
  All-In x a [] h m = absurd m
  All-In x a (q ∷ rows) h (inl e) = ground (arith, h.0)
  All-In x a (q ∷ rows) h (inr m) = All-In x a rows h.1 m

  -- A row that is not on the page comes after the rows there, and the page is full.
  pub take-rest :
      (n : ℕ) (rows : List A) (a : A)
      → IsSorted le rows
      → In a rows
      → In a (take n rows)
        ⊎ (length (take n rows) ≡ n) × ((x : A) → In x (take n rows) → le x a ≡ true)
  take-rest zero rows a s m = inr (refl, λ x mx. absurd mx)
  take-rest (suc n) [] a s m = absurd m
  take-rest (suc n) (r ∷ rows) a s (inl e) = inl (inl e)
  take-rest (suc n) (r ∷ rows) a s (inr m) = elim (take-rest n rows a s.1 m) [
    | inl on_page ↦ inl (inr on_page)
    | inr (full, before) ↦ inr (
      omega (arith, full),
      λ x mx. elim mx [ inl e ↦ rw e (All-In r a rows s.0 m) | inr later ↦ before x later ],
    )
  ]
