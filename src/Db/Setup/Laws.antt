-- ===== src/Db/Setup/Laws.antt =====
-- The tables after Migrate of internal/db/db.go.
use net_bird_audit.Prelude.{
  true, false, ◌||◌, List, [], ◌∷◌, ◌++◌, ◌==◌, nat_eq, ◌≡◌, refl, arith, inl, inr, Bool-cases,
}
use net_bird_audit.Db.Monad.{ok, answer, answers_left, Result-cases}
use net_bird_audit.Db.Setup.{
  TableName, users_cache, peers_cache, vpn_sessions, resources, netbird_resources_cache,
  network_flows, admin_audit, number_of, Schema, exists_in, stmts, add_table, create_all, migrate,
}

exists_in-append :
    (t : TableName) (us vs : List TableName)
    → exists_in t (us ++ vs) ≡ (exists_in t us || exists_in t vs)
unfolding exists_in
exists_in-append t [] vs = refl
exists_in-append t (u ∷ us) vs = ground (arith, exists_in-append t us vs)

exists_in-one : (t u : TableName) → exists_in t (u ∷ []) ≡ (number_of t == number_of u)
unfolding exists_in
exists_in-one t u = ground arith

exists_in-congr :
    (t u : TableName) (ts : List TableName)
    → (number_of t == number_of u) ≡ true
    → exists_in t ts ≡ exists_in u ts
unfolding exists_in
exists_in-congr t u [] e = refl
exists_in-congr t u (v ∷ ts) e = ground (arith, exists_in-congr t u ts e)

add_table-exists :
    (t u : TableName) (ts : List TableName)
    → exists_in t (add_table u ts) ≡ (number_of t == number_of u || exists_in t ts)
unfolding add_table
add_table-exists t u ts = elim (Bool-cases (exists_in u ts)) [
  | inr new ↦ rw new (ground (arith, exists_in-append t ts (u ∷ []), exists_in-one t u))
  | inl there ↦ rw there (ground (arith, exists_in-congr t u ts))
]

exists_in-nil : (t : TableName) → exists_in t [] ≡ false
unfolding exists_in
exists_in-nil t = refl

exists_in-cons :
    (t u : TableName) (ts : List TableName)
    → exists_in t (u ∷ ts) ≡ (number_of t == number_of u || exists_in t ts)
unfolding exists_in
exists_in-cons t u ts = refl

-- The tables that were there stay, and all of the list are there if no statement failed.
create_all-exists :
    (t : TableName) (ts : List TableName) (s : Schema)
    → (exists_in t s.tables ≡ true → exists_in t (create_all ts s).1.tables ≡ true)
      × ((create_all ts s).0 ≡ ok tt
          → exists_in t ts ≡ true
          → exists_in t (create_all ts s).1.tables ≡ true)
unfolding create_all
create_all-exists t [] s = (λ h. h, λ done h. absurd (ground (arith, h, exists_in-nil t)))
create_all-exists t (u ∷ ts) s = elim (Result-cases (answer s.outcomes)) [
  | inr (e, bad) ↦ rw (create_all, bad) (λ h. h, λ done h. absurd (ground arith))
  | inl good ↦
      let s' = record s { tables = add_table u s.tables; outcomes = answers_left s.outcomes } in
      let (kept, made) = create_all-exists t ts s' in
      rw (create_all, good)
        (
          λ h. kept (ground (arith, add_table-exists t u s.tables)),
          λ done h. elim (Bool-cases (number_of t == number_of u)) [
            | inl this ↦ kept (ground (arith, add_table-exists t u s.tables))
            | inr other ↦ made done (ground (arith, exists_in-cons t u ts))
          ],
        )
]

stmts_complete : (t : TableName) → exists_in t stmts ≡ true
unfolding exists_in stmts number_of
stmts_complete users_cache = refl
stmts_complete peers_cache = refl
stmts_complete vpn_sessions = refl
stmts_complete resources = refl
stmts_complete netbird_resources_cache = refl
stmts_complete network_flows = refl
stmts_complete admin_audit = refl

-- A migration drops no table, whichever statement fails, and if it returns no error, all seven tables
-- are there.
pub migrate-exists :
    (t : TableName) (s : Schema)
    → (exists_in t s.tables ≡ true → exists_in t (migrate s).1.tables ≡ true)
      × ((migrate s).0 ≡ ok tt → exists_in t (migrate s).1.tables ≡ true)
unfolding migrate
migrate-exists t s =
    let (kept, made) = create_all-exists t stmts s in (kept, λ done. made done (stmts_complete t))
