-- ===== src/Server/Login/Laws.antt =====
-- Who may log in, and what a login leaves.
use net_bird_audit.Prelude.{
  ℕ, ◌+◌, ◌≤◌, Text, codes, Bool, true, false, List, [], ◌∷◌, some, ◌==◌, text_eq, nat_eq,
  text_beq_iff, text_beq_refl, length, In, keep, ◌≡◌, ◌≢◌, ◌⊎◌, inl, inr, refl, ◌∙◌, arith,
  Bool-cases, Option-cases,
}
use net_bird_audit.Prelude.Int.{pos}
use net_bird_audit.Time.{Time}
use net_bird_audit.Crypto.Hex.{hex}
use net_bird_audit.GoMap
use net_bird_audit.Auth.Sessions.{new, valid}
use net_bird_audit.Auth.Sessions.Laws.{valid-eq, deadline-new}
use net_bird_audit.Auth.Totp.{verify_password, validate_totp}
use net_bird_audit.Db.Tables.{Db}
use net_bird_audit.Server.Types.{Server, World, Request, Response, redirect}
use net_bird_audit.Server.RateLimit.{client_ip, rate_ok, recent}
use net_bird_audit.Server.RateLimit.Laws.{Event, run, failures_in, InOrder, rate_ok-run}
use net_bird_audit.Server.Login.{
  Surroundings, session_cookie, csrf_cookie, credentials_ok, refuse, admit, try_credentials,
  limited, login,
}

module _ (compare : Text → Text → Bool) (out : Surroundings) (r : Request) (s : Server)
    (d : Db) where
  abbrev pub address : Text
  address = client_ip r.remote_addr

  abbrev pub answered : Response × World
  answered = login compare out r (s, d)

  -- What it takes to get a session: the three credentials, an address under its limit, and random
  -- bytes.
  abbrev pub Admits : Text → Type 0
  Admits b =
      (r.method ≢ codes "GET")
      × ((rate_ok address out.limit_time s.failures).0 ≡ true)
      × (r.form (codes "username") ≡ s.cfg.admin_user)
      × (compare s.cfg.admin_hash (r.form (codes "password")) ≡ true)
      × (validate_totp s.cfg.totp_secret (r.form (codes "totp")) out.code_time ≡ true)
      × (out.token_bytes ≡ some b)

  Proven : Type 0
  Proven =
      (r.form (codes "username") ≡ s.cfg.admin_user)
      × (compare s.cfg.admin_hash (r.form (codes "password")) ≡ true)
      × (validate_totp s.cfg.totp_secret (r.form (codes "totp")) out.code_time ≡ true)

  credentials_ok-true : credentials_ok compare s.cfg out.code_time r ≡ true → Proven
  unfolding credentials_ok verify_password Proven
  credentials_ok-true h = (
    ground (arith, text_beq_iff (r.form (codes "username")) s.cfg.admin_user),
    ground arith,
    ground arith,
  )

  credentials_ok-false : credentials_ok compare s.cfg out.code_time r ≡ false → Proven → ⊥
  unfolding credentials_ok verify_password Proven
  credentials_ok-false h (user, password, code) =
      ground (arith, text_beq_iff (r.form (codes "username")) s.cfg.admin_user)

  -- The session is open, and the answer hands its token over.
  abbrev pub Opens : Text → Type 0
  Opens b =
      (answered.0
        ≡ redirect (codes "/")
            (session_cookie s.cfg (hex b) ∷ csrf_cookie s.cfg (hex out.csrf_bytes) ∷ []))
      × (answered.1.0.sessions ≡ (new (some b) out.record_time s.sessions).1)

  -- Either the method is not GET, the address is under its limit, the name, the password and the
  -- code are right, and there are random bytes: then a session is opened, and the answer is a
  -- redirect with its token and a CSRF token. Or not all of that holds: then the status is not that
  -- of a redirect, and the sessions are as they were.
  pub login-cases :
      ((b : Text) × Admits b × Opens b)
      ⊎ ((b : Text) → ¬ Admits b) × (answered.0.status ≢ 303) × (answered.1.0.sessions ≡ s.sessions)
  unfolding login refuse admit try_credentials limited new Proven
  login-cases = elim (Bool-cases (r.method == codes "GET")) [
    | inl get ↦ inr (
      λ b (post, _, _, _, _, _). post ((text_beq_iff r.method (codes "GET")).0 get),
      rw get (λ e. omega (arith, e)),
      rw get,
    )
    | inr post ↦ elim (Bool-cases (rate_ok address out.limit_time s.failures).0) [
      | inr over ↦ inr (
        λ b (_, under, _, _, _, _). ground arith,
        rw (post, over) (λ e. omega (arith, e)),
        rw (post, over),
      )
      | inl under ↦ elim (Bool-cases (credentials_ok compare s.cfg out.code_time r)) [
        | inr wrong ↦ inr (
          λ b (_, _, user, password, code, _). credentials_ok-false wrong (user, password, code),
          rw (post, under, wrong) (λ e. omega (arith, e)),
          rw (post, under, wrong),
        )
        | inl right ↦
            let (user, password, code) = credentials_ok-true right in
            elim (Option-cases out.token_bytes) [
              | inl no_bytes ↦ inr (
                λ b (_, _, _, _, _, bytes). ground arith,
                rw (post, under, right, no_bytes) (λ e. omega (arith, e)),
                rw (post, under, right, no_bytes),
              )
              | inr (b, bytes) ↦ inl (
                b,
                (
                  λ get. ground (arith, text_beq_iff r.method (codes "GET")),
                  under,
                  user,
                  password,
                  code,
                  bytes,
                ),
                rw (post, under, right, bytes) (refl, refl),
              )
            ]
      ]
    ]
  ]

-- If a login answers with a redirect, and sessions last for `n`, the answer has a cookie with a
-- token that the store accepts until `n` after the login.
pub login-opens_session :
    (compare : Text → Text → Bool) (out : Surroundings) (r : Request) (s : Server) (d : Db) (n : ℕ)
    (now later : Time)
    → s.sessions.ttl ≡ pos n
    → (login compare out r (s, d)).0.status ≡ 303
    → now ≤ out.record_time + n
    → (token : Text) × In (session_cookie s.cfg token) (login compare out r (s, d)).0.cookies
      × ((valid token now later (login compare out r (s, d)).1.0.sessions).0 ≡ true)
login-opens_session compare out r s d n now later ttl done before =
    elim (login-cases compare out r s d) [
      | inr (_, other, _) ↦ absurd (other done)
      | inl (b, _, (answer, store)) ↦ (
        hex b,
        rw answer (inl refl),
        rw store (
            ground (
              arith,
              valid-eq (hex b) now later (new (some b) out.record_time s.sessions).1,
              deadline-new b (hex b) out.record_time s.sessions,
              text_beq_refl (hex b),
            )),
      )
    ]

-- If a run of calls in the order of time has led to the recorded failures, and eight of those of
-- the address lie in the last ten minutes, then a request that is no GET is refused with the status
-- 429, and neither the sessions nor the database change.
pub login-locked_out :
    (compare : Text → Text → Bool) (out : Surroundings) (r : Request) (s : Server) (d : Db)
    (es : List Event)
    → s.failures ≡ run es GoMap.empty
    → InOrder 0 es out.limit_time
    → r.method ≢ codes "GET"
    → 8 ≤ length (keep (recent out.limit_time) (failures_in (client_ip r.remote_addr) es))
    → ((login compare out r (s, d)).0.status ≡ 429)
      × ((login compare out r (s, d)).1.0.sessions ≡ s.sessions)
      × ((login compare out r (s, d)).1.1 ≡ d)
unfolding login limited
login-locked_out compare out r s d es history order post many =
    let ip = client_ip r.remote_addr in
    let over : (rate_ok ip out.limit_time s.failures).0 ≡ false =
      rw history (rate_ok-run ip out.limit_time es order ∙ ground arith) in
    let not_get : (r.method == codes "GET") ≡ false =
      ground (arith, text_beq_iff r.method (codes "GET")) in
    rw (not_get, over) (refl, refl, refl)
