-- ===== src/Db/Resources/Frame.antt =====
-- The tables before and after the methods on resources of internal/db/db.go.
use net_bird_audit.Prelude.{
  Text, not, ◌&&◌, List, [], ◌∷◌, Option, none, some, refl, inl, inr, Bool-cases, ◌==◌, text_eq,
  codes,
}
use net_bird_audit.Prelude.Int.{ℤ}
use net_bird_audit.Db.Collation.{Collation, same}
use net_bird_audit.Db.Tables.{Db, Resource, NetBirdResource}
use net_bird_audit.Db.Query.{any}
use net_bird_audit.Db.Monad.{◌>>◌, Result, ok, err, statement, answer, answers_left, Result-cases}
use net_bird_audit.Db.Queries.{KeepsRecords, KeepsRecords-trans}
use net_bird_audit.Db.Resources.{
  normalize_audit_cidr, delete_resource, put_resource, add_resource, insert_netbird, insert_all,
  clear_netbird, replace_body, finish, in_transaction, replace_netbird_resources, netbird_row,
  enable_row, enable_found, enable_audit,
}

pub delete_resource-KeepsRecords : (id : ℤ) (d : Db) → KeepsRecords d (delete_resource id d).1
unfolding delete_resource statement
delete_resource-KeepsRecords id d = elim (Result-cases (answer d.outcomes)) [
  | inl good ↦ rw good refl
  | inr (e, bad) ↦ rw bad refl
]

module _ ⦃c : Collation⦄ where
  add_resource-KeepsRecords : (r : Resource) (d : Db) → KeepsRecords d (add_resource r d).1
  unfolding add_resource statement put_resource
  add_resource-KeepsRecords r d = elim (Result-cases (answer d.outcomes)) [
    | inl good ↦ rw good refl
    | inr (e, bad) ↦ rw bad refl
  ]

  insert_netbird-KeepsRecords :
      (r : NetBirdResource) (d : Db) → KeepsRecords d (insert_netbird r d).1
  unfolding insert_netbird statement
  insert_netbird-KeepsRecords r d = elim (Result-cases (answer d.outcomes)) [
    | inr (e, bad) ↦ rw bad refl
    | inl good ↦
        elim (Bool-cases (any (λ (q : NetBirdResource). same q.id r.id) d.netbird_resources)) [
          | inl there ↦ rw (good, there) refl
          | inr new ↦ rw (good, new) refl
        ]
  ]

  insert_all-KeepsRecords :
      (rs : List NetBirdResource) (d : Db) → KeepsRecords d (insert_all rs d).1
  unfolding insert_all
  insert_all-KeepsRecords [] d = refl
  insert_all-KeepsRecords (r ∷ rs) d = elim (Result-cases (insert_netbird r d).0) [
    | inr (e, bad) ↦ rw bad (insert_netbird-KeepsRecords r d)
    | inl good ↦ rw good (
        KeepsRecords-trans d (insert_netbird r d).1 _ (insert_netbird-KeepsRecords r d)
          (insert_all-KeepsRecords rs (insert_netbird r d).1))
  ]

  insert_and_commit :
      (rs : List NetBirdResource) (d : Db) → KeepsRecords d ((do insert_all rs; statement) d).1
  unfolding statement
  insert_and_commit rs d = elim (Result-cases (insert_all rs d).0) [
    | inr (e, bad) ↦ rw bad (insert_all-KeepsRecords rs d)
    | inl good ↦
        rw good (KeepsRecords-trans d (insert_all rs d).1 _ (insert_all-KeepsRecords rs d) refl)
  ]

  finish-KeepsRecords :
      (before d : Db) (out : Result (Unit {0}) × Db)
      → KeepsRecords d out.1
      → KeepsRecords d (finish before out).1
  unfolding finish
  finish-KeepsRecords before d (ok tt, t) h = h
  finish-KeepsRecords before d (err e, t) h = KeepsRecords-trans d t _ h refl

  replace_body-KeepsRecords :
      (rs : List NetBirdResource) (d : Db) → KeepsRecords d (replace_body rs d).1
  unfolding replace_body clear_netbird statement
  replace_body-KeepsRecords rs d = elim (Result-cases (answer d.outcomes)) [
    | inr (e, bad) ↦ rw bad refl
    | inl good ↦ rw good (
        insert_and_commit rs
          (record d { netbird_resources = []; outcomes = answers_left d.outcomes }))
  ]

  pub replace_netbird_resources-KeepsRecords :
      (rs : List NetBirdResource) (d : Db) → KeepsRecords d (replace_netbird_resources rs d).1
  unfolding replace_netbird_resources in_transaction statement
  replace_netbird_resources-KeepsRecords rs d = elim (Result-cases (answer d.outcomes)) [
    | inr (e, bad) ↦ rw bad refl
    | inl good ↦
        let t = record d { outcomes = answers_left d.outcomes } in
        rw good (finish-KeepsRecords t t (replace_body rs t) (replace_body-KeepsRecords rs t))
  ]

  enable_row-KeepsRecords :
      (protocol ports : Text) (n : NetBirdResource) (cidr : Option Text) (d : Db)
      → KeepsRecords d (enable_row protocol ports n cidr d).1
  unfolding enable_row
  enable_row-KeepsRecords protocol ports n none d = refl
  enable_row-KeepsRecords protocol ports n (some cidr) d =
      elim (Bool-cases (not (protocol == codes "tcp") && not (protocol == codes "udp"))) [
        | inl bad ↦ rw bad refl
        | inr good ↦ rw good (add_resource-KeepsRecords _ d)
      ]

  enable_found-KeepsRecords :
      (protocol ports : Text) (found : Option NetBirdResource) (d : Db)
      → KeepsRecords d (enable_found protocol ports found d).1
  unfolding enable_found
  enable_found-KeepsRecords protocol ports none d = refl
  enable_found-KeepsRecords protocol ports (some n) d =
      enable_row-KeepsRecords protocol ports n (normalize_audit_cidr n.address) d

  pub enable_audit-KeepsRecords :
      (id protocol ports : Text) (d : Db) → KeepsRecords d (enable_audit id protocol ports d).1
  unfolding enable_audit statement
  enable_audit-KeepsRecords id protocol ports d = elim (Result-cases (answer d.outcomes)) [
    | inr (e, bad) ↦ rw bad refl
    | inl good ↦
        let t = record d { outcomes = answers_left d.outcomes } in
        rw good (enable_found-KeepsRecords protocol ports (netbird_row id t) t)
  ]
