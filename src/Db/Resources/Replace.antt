-- ===== src/Db/Resources/Replace.antt =====
-- The transaction of ReplaceNetBirdResources in internal/db/db.go.
use net_bird_audit.Prelude.{
  false, List, [], ◌∷◌, ◌++◌, ◌≡◌, ◌⊎◌, inl, inr, refl, arith, append_assoc, append-nil, sym, ◌∙◌,
  ap,
}
use net_bird_audit.Db.Collation.{Collation, same}
use net_bird_audit.Db.Tables.{Db, NetBirdResource}
use net_bird_audit.Db.Query.{any}
use net_bird_audit.Db.Monad.{
  Result, Result-cases, ok, err, DbError, statement, answer, answers_left,
}
use net_bird_audit.Db.Resources.{
  insert_netbird, insert_all, clear_netbird, replace_body, finish, replace_netbird_resources,
}

module _ ⦃c : Collation⦄ where
  insert_netbird-ok :
      (r : NetBirdResource) (s : Db)
      → (insert_netbird r s).0 ≡ ok tt
      → (insert_netbird r s).1.netbird_resources ≡ s.netbird_resources ++ r ∷ []
  unfolding insert_netbird statement
  insert_netbird-ok r s h = ground arith

  insert_all-ok :
      (rs : List NetBirdResource) (s : Db)
      → (insert_all rs s).0 ≡ ok tt
      → (insert_all rs s).1.netbird_resources ≡ s.netbird_resources ++ rs
  unfolding insert_all
  insert_all-ok [] s h = sym (append-nil s.netbird_resources)
  insert_all-ok (r ∷ rs) s h =
      let t = (insert_netbird r s).1 in
      let good : (insert_netbird r s).0 ≡ ok tt = ground arith in
      let rest : (insert_all rs t).0 ≡ ok tt = ground arith in
      rw good (
        insert_all-ok rs t rest
        ∙ ap (λ (xs : List NetBirdResource). xs ++ rs) (insert_netbird-ok r s good)
        ∙ append_assoc s.netbird_resources (r ∷ []) rs)

  replace_body-ok :
      (rs : List NetBirdResource) (s : Db)
      → (replace_body rs s).0 ≡ ok tt
      → (replace_body rs s).1.netbird_resources ≡ rs
  unfolding replace_body clear_netbird statement
  replace_body-ok rs s h =
      let t = record s { netbird_resources = []; outcomes = answers_left s.outcomes } in
      ground (arith, insert_all-ok rs t)

  finish-atomic :
      (rs : List NetBirdResource) (before : Db) (out : Result (Unit {0}) × Db)
      → (out.0 ≡ ok tt → out.1.netbird_resources ≡ rs)
      → ((finish before out).0 ≡ ok tt) × ((finish before out).1.netbird_resources ≡ rs)
        ⊎ ((e : DbError) × ((finish before out).0 ≡ err e)
            × ((finish before out).1.netbird_resources ≡ before.netbird_resources))
  unfolding finish
  finish-atomic rs before (ok tt, s) h = inl (refl, h refl)
  finish-atomic rs before (err e, s) h = inr (e, refl, refl)

  -- Whatever the server answers: with no error the cache is the new list, and with an error it is
  -- what it was.
  pub replace_netbird_resources-atomic :
      (rs : List NetBirdResource) (s : Db)
      → ((replace_netbird_resources rs s).0 ≡ ok tt)
          × ((replace_netbird_resources rs s).1.netbird_resources ≡ rs)
        ⊎ ((e : DbError) × ((replace_netbird_resources rs s).0 ≡ err e)
            × ((replace_netbird_resources rs s).1.netbird_resources ≡ s.netbird_resources))
  unfolding replace_netbird_resources statement
  replace_netbird_resources-atomic rs s = elim (Result-cases (answer s.outcomes)) [
    | inl good ↦ rw good (
        finish-atomic rs (statement s).1 (replace_body rs (statement s).1)
          (replace_body-ok rs (statement s).1))
    | inr (e, bad) ↦ rw bad (inr (e, refl, refl))
  ]

  -- No id of the list stands among the rows before it.
  abbrev pub IdsDistinct : List NetBirdResource → List NetBirdResource → Type 0
  IdsDistinct done [] = Unit
  IdsDistinct done (r ∷ rs) =
      (any (λ (q : NetBirdResource). same q.id r.id) done ≡ false) × IdsDistinct (done ++ r ∷ []) rs

  insert_netbird-total :
      (r : NetBirdResource) (s : Db)
      → any (λ (q : NetBirdResource). same q.id r.id) s.netbird_resources ≡ false
      → s.outcomes ≡ []
      → ((insert_netbird r s).0 ≡ ok tt) × ((insert_netbird r s).1.outcomes ≡ [])
  unfolding insert_netbird statement answer answers_left
  insert_netbird-total r s d quiet = ground arith

  insert_all-total :
      (rs : List NetBirdResource) (s : Db)
      → IdsDistinct s.netbird_resources rs
      → s.outcomes ≡ []
      → ((insert_all rs s).0 ≡ ok tt) × ((insert_all rs s).1.outcomes ≡ [])
  unfolding insert_all
  insert_all-total [] s d quiet = (refl, quiet)
  insert_all-total (r ∷ rs) s d quiet =
      let t = (insert_netbird r s).1 in
      let (good, quiet') = insert_netbird-total r s d.0 quiet in
      let rows = insert_netbird-ok r s good in
      let d' : IdsDistinct t.netbird_resources rs = rw rows d.1 in
      rw good (insert_all-total rs t d' quiet')

  replace_body-total :
      (rs : List NetBirdResource) (s : Db)
      → IdsDistinct [] rs
      → s.outcomes ≡ []
      → (replace_body rs s).0 ≡ ok tt
  unfolding replace_body clear_netbird statement answer answers_left
  replace_body-total rs s d quiet =
      let t = record s { netbird_resources = []; outcomes = answers_left s.outcomes } in
      let (good, quiet') = insert_all-total rs t d (rw quiet) in ground arith

  finish-ok :
      (before : Db) (out : Result (Unit {0}) × Db) → out.0 ≡ ok tt → (finish before out).0 ≡ ok tt
  unfolding finish
  finish-ok before (ok tt, s) h = refl
  finish-ok before (err e, s) h = h

  -- If the server answers every statement and no id stands twice in the list, there is no error,
  -- and the cache is the list.
  pub replace_netbird_resources-total :
      (rs : List NetBirdResource) (s : Db)
      → IdsDistinct [] rs
      → s.outcomes ≡ []
      → ((replace_netbird_resources rs s).0 ≡ ok tt)
        × ((replace_netbird_resources rs s).1.netbird_resources ≡ rs)
  unfolding replace_netbird_resources statement answer answers_left
  replace_netbird_resources-total rs s d quiet =
      let t = (statement s).1 in
      let good : (replace_body rs t).0 ≡ ok tt = replace_body-total rs t d (rw quiet) in
      let done : (replace_netbird_resources rs s).0 ≡ ok tt =
        rw quiet (rw quiet at (finish-ok t (replace_body rs t) good)) in
      elim (replace_netbird_resources-atomic rs s) [
        | inl (_, rows) ↦ (done, rows)
        | inr (e, bad, _) ↦ absurd (cc)
      ]

-- The table vpn_sessions has the same rows, and the same counter.
abbrev pub SameSessions : Db → Db → Type 0
SameSessions s t = (t.vpn_sessions ≡ s.vpn_sessions) × (t.next_session ≡ s.next_session)

module _ ⦃c : Collation⦄ where
  insert_netbird-SameSessions :
      (r : NetBirdResource) (s : Db) → SameSessions s (insert_netbird r s).1
  unfolding insert_netbird statement
  insert_netbird-SameSessions r s = ground arith

  insert_all-SameSessions :
      (rs : List NetBirdResource) (s : Db) → SameSessions s (insert_all rs s).1
  unfolding insert_all
  insert_all-SameSessions [] s = (refl, refl)
  insert_all-SameSessions (r ∷ rs) s =
      ground
        (arith, insert_netbird-SameSessions r s, insert_all-SameSessions rs (insert_netbird r s).1)

  replace_body-SameSessions :
      (rs : List NetBirdResource) (s : Db) → SameSessions s (replace_body rs s).1
  unfolding replace_body clear_netbird statement
  replace_body-SameSessions rs s =
      let t = record s { netbird_resources = []; outcomes = answers_left s.outcomes } in
      ground (arith, insert_all-SameSessions rs t)

  finish-SameSessions :
      (before s : Db) (out : Result (Unit {0}) × Db)
      → SameSessions s out.1
      → SameSessions s (finish before out).1
  unfolding finish
  finish-SameSessions before s (ok tt, t) h = h
  finish-SameSessions before s (err e, t) h = h

  pub replace_netbird_resources-SameSessions :
      (rs : List NetBirdResource) (s : Db) → SameSessions s (replace_netbird_resources rs s).1
  unfolding replace_netbird_resources statement
  replace_netbird_resources-SameSessions rs s =
      let t = (statement s).1 in
      ground (arith, finish-SameSessions t t (replace_body rs t) (replace_body-SameSessions rs t))
