-- ===== src/Db/Query/Laws.antt =====
-- What the parts of the statements do to the rows.
use net_bird_audit.Prelude.{
  Bool, true, false, List, [], ◌∷◌, none, some, ◌≡◌, refl, arith, count, In, inl, inr,
}
use net_bird_audit.Db.Query.{any, find}

module _ {A : Type 0} where
  pub any-false-In :
      (p : A → Bool) (rows : List A) (a : A) → any p rows ≡ false → In a rows → p a ≡ false
  unfolding any
  any-false-In p [] a h m = absurd m
  any-false-In p (r ∷ rows) a h (inl e) = ground arith
  any-false-In p (r ∷ rows) a h (inr m) = any-false-In p rows a (ground arith) m

  pub find_sound :
      (p : A → Bool) (rows : List A) (a : A) → find p rows ≡ some a → In a rows × (p a ≡ true)
  unfolding find
  find_sound p [] a h = cc
  find_sound p (r ∷ rows) a h = ground (arith, find_sound p rows a)

  pub find-none :
      (p : A → Bool) (rows : List A) (a : A) → find p rows ≡ none → In a rows → p a ≡ false
  unfolding find
  find-none p [] a h m = absurd m
  find-none p (r ∷ rows) a h (inl e) = ground arith
  find-none p (r ∷ rows) a h (inr m) = find-none p rows a (ground arith) m

  pub any-count : (p : A → Bool) (rows : List A) → any p rows ≡ false → count p rows ≡ 0
  unfolding any
  any-count p [] h = refl
  any-count p (r ∷ rows) h = ground (arith, any-count p rows)
