-- ===== src/Server/Login/Frame.antt =====
-- The tables before and after login and logout of internal/server/server.go.
use net_bird_audit.Prelude.{
  Text, codes, Bool, true, Option, none, some, ◌==◌, text_eq, text_beq_iff, ◌≡◌, refl, sym, ap, ◌∙◌,
  inl, inr, Bool-cases,
}
use net_bird_audit.Time.{Time}
use net_bird_audit.Auth.Sessions.{SessionStore, new}
use net_bird_audit.Db.Tables.{Db}
use net_bird_audit.Db.Monad.{statement, answer, Result-cases}
use net_bird_audit.Db.Audit.{log_admin_audit}
use net_bird_audit.Db.Queries.{KeepsRecords}
use net_bird_audit.Server.Access.Laws.{DiscloseNothing}
use net_bird_audit.Server.Types.{Server, World, Request}
use net_bird_audit.Server.RateLimit.{client_ip, rate_ok}
use net_bird_audit.Server.Login.{
  Surroundings, credentials_ok, refuse, admit, try_credentials, limited, login,
}

-- The tables are those of `d`, but for the audit table.
abbrev pub OnlyAudit : Db → Db → Type 0
OnlyAudit d e = e ≡ record d { admin_audit = e.admin_audit; outcomes = e.outcomes }

log_admin_audit-OnlyAudit :
    (now : Time) (user action detail remote : Text) (d : Db)
    → OnlyAudit d (log_admin_audit now user action detail remote d).1
unfolding log_admin_audit statement
log_admin_audit-OnlyAudit now user action detail remote d =
    elim (Result-cases (answer d.outcomes)) [ inl good ↦ rw good refl | inr (e, bad) ↦ rw bad refl ]

admit-OnlyAudit :
    (out : Surroundings) (ip : Text) (s : Server) (d : Db) (opened : Option Text × SessionStore)
    → OnlyAudit d (admit out ip s d opened).1.1
unfolding admit
admit-OnlyAudit out ip s d (none, store) = refl
admit-OnlyAudit out ip s d (some token, store) = log_admin_audit-OnlyAudit out.db_time _ _ _ _ d

pub login-OnlyAudit :
    (compare : Text → Text → Bool) (out : Surroundings) (r : Request) (s : Server) (d : Db)
    → OnlyAudit d (login compare out r (s, d)).1.1
unfolding login limited try_credentials refuse
login-OnlyAudit compare out r s d = elim (Bool-cases (r.method == codes "GET")) [
  | inl get ↦ rw get refl
  | inr other ↦
      let ip = client_ip r.remote_addr in
      elim (Bool-cases (rate_ok ip out.limit_time s.failures).0) [
        | inr many ↦ rw (other, many) refl
        | inl few ↦ elim (Bool-cases (credentials_ok compare s.cfg out.code_time r)) [
          | inr wrong ↦ rw (other, few, wrong) (log_admin_audit-OnlyAudit out.db_time _ _ _ _ d)
          | inl right ↦
              rw (other, few, right)
                (admit-OnlyAudit out ip
                  (record s { failures = (rate_ok ip out.limit_time s.failures).1 }) d
                  (new out.token_bytes out.record_time s.sessions))
        ]
      ]
]

pub login_get :
    (compare : Text → Text → Bool) (out : Surroundings) (r : Request) (w : World)
    → r.method ≡ codes "GET"
    → (login compare out r w).1 ≡ w
unfolding login
login_get compare out r w h =
    let e : (r.method == codes "GET") ≡ true = (text_beq_iff r.method (codes "GET")).1 h in
    rw e refl

pub KeepsRecords-of_OnlyAudit : (d e : Db) → OnlyAudit d e → KeepsRecords d e
KeepsRecords-of_OnlyAudit d e h =
    h
    ∙ ap
        (λ (x : Db). record d {
          resources = x.resources;
          next_resource = x.next_resource;
          netbird_resources = x.netbird_resources;
          admin_audit = e.admin_audit;
          outcomes = e.outcomes;
        })
        (sym h)

admit-DiscloseNothing :
    (out : Surroundings) (ip : Text) (s : Server) (d : Db) (opened : Option Text × SessionStore)
    → DiscloseNothing (admit out ip s d opened).0.body
unfolding admit
admit-DiscloseNothing out ip s d (none, store) = tt
admit-DiscloseNothing out ip s d (some token, store) = tt

pub login-DiscloseNothing :
    (compare : Text → Text → Bool) (out : Surroundings) (r : Request) (s : Server) (d : Db)
    → DiscloseNothing (login compare out r (s, d)).0.body
unfolding login limited try_credentials refuse
login-DiscloseNothing compare out r s d = elim (Bool-cases (r.method == codes "GET")) [
  | inl get ↦ rw get tt
  | inr other ↦
      let ip = client_ip r.remote_addr in
      elim (Bool-cases (rate_ok ip out.limit_time s.failures).0) [
        | inr many ↦ rw (other, many) tt
        | inl few ↦ elim (Bool-cases (credentials_ok compare s.cfg out.code_time r)) [
          | inr wrong ↦ rw (other, few, wrong) tt
          | inl right ↦
              rw (other, few, right)
                (admit-DiscloseNothing out ip
                  (record s { failures = (rate_ok ip out.limit_time s.failures).1 }) d
                  (new out.token_bytes out.record_time s.sessions))
        ]
      ]
]
