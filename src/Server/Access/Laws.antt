-- ===== src/Server/Access/Laws.antt =====
-- Who gets past requireAuth.
use net_bird_audit.Prelude.{
  Text, codes, true, false, not, ◌&&◌, [], some, ◌==◌, text_eq, text_beq_iff, ◌≡◌, ◌≢◌, ◌⊎◌, inl,
  inr, refl, arith, Bool-cases, Option-cases,
}
use net_bird_audit.Time.{Time}
use net_bird_audit.Auth.Sessions.{valid}
use net_bird_audit.Db.Tables.{Db}
use net_bird_audit.Server.Types.{
  Server, World, Request, Response, Handler, Body, failure, netbird_failure, stored, page, csv_file,
}
use net_bird_audit.Server.Access.{
  to_login, csrf_failed, needs_csrf, csrf_ok, guarded, checked, with_session, require_auth,
}

-- The request has a token that is valid, and, if its method can change something, a CSRF cookie
-- that is not empty and that the form repeats.
abbrev pub HasCsrf : Request → Type 0
HasCsrf r =
    (c : Text) × (r.cookie (codes "nba_csrf") ≡ some c) × (c ≢ []) × (r.form (codes "csrf") ≡ c)

abbrev pub Admitted : Time → Time → Server → Request → Type 0
Admitted now later s r =
    (token : Text) × (r.cookie (codes "nba_session") ≡ some token)
    × ((valid token now later s.sessions).0 ≡ true)
    × (needs_csrf r.method ≡ true → HasCsrf r)

-- The request goes no further: the database is left alone.
abbrev pub TurnedAway : Db → Response × World → Type 0
TurnedAway d out =
    ((out.0.status ≡ 303) × (out.0.location ≡ some (codes "/login")) ⊎ (out.0.status ≡ 403))
    × (out.1.1 ≡ d)

csrf_ok-true : (r : Request) → csrf_ok r ≡ true → HasCsrf r
unfolding csrf_ok
csrf_ok-true r h = elim (Option-cases (r.cookie (codes "nba_csrf"))) [
  | inl none_sent ↦ absurd (ground arith)
  | inr (c, sent) ↦
      let e : (not (c == []) && c == r.form (codes "csrf")) ≡ true = ground arith in
      (
        c,
        sent,
        λ empty. ground (arith, text_beq_iff c []),
        ground (arith, text_beq_iff c (r.form (codes "csrf"))),
      )
]

csrf_ok-false : (r : Request) → csrf_ok r ≡ false → HasCsrf r → ⊥
unfolding csrf_ok
csrf_ok-false r h (c, sent, full, repeated) =
    let e : (not (c == []) && c == r.form (codes "csrf")) ≡ false = ground arith in
    ground (arith, text_beq_iff c [], text_beq_iff c (r.form (codes "csrf")))

-- Either the request is admitted, and the handler runs with the session's new deadline; or it is
-- not admitted, whatever the handler is, it goes to the login page or gets the status 403, and the
-- database is left alone.
pub require_auth-cases :
    (now later : Time) (next : Handler) (r : Request) (s : Server) (d : Db)
    → Admitted now later s r
        × ((token : Text) × (r.cookie (codes "nba_session") ≡ some token)
            × (require_auth now later next r (s, d)
                ≡ next r (record s { sessions = (valid token now later s.sessions).1 }, d)))
      ⊎ (¬ Admitted now later s r) × TurnedAway d (require_auth now later next r (s, d))
unfolding require_auth to_login csrf_failed guarded checked with_session
require_auth-cases now later next r s d = elim (Option-cases (r.cookie (codes "nba_session"))) [
  | inl none_sent ↦ inr (λ (_, sent, _, _). ground arith, rw none_sent (inl (refl, refl), refl))
  | inr (token, sent) ↦ elim (Bool-cases (valid token now later s.sessions).0) [
    | inr old ↦
        inr (λ (token', sent', good, _). ground arith, rw (sent, old) (inl (refl, refl), refl))
    | inl good ↦ elim (Bool-cases (needs_csrf r.method && not (csrf_ok r))) [
      | inl bad ↦ inr (
        λ (_, _, _, csrf). csrf_ok-false r (ground arith) (csrf (ground arith)),
        rw (sent, good, bad) (inr refl, refl),
      )
      | inr fine ↦ inl (
        (token, sent, good, λ needs. csrf_ok-true r (ground arith)),
        (token, sent, rw (sent, good, fine) refl),
      )
    ]
  ]
]

-- A request that is not admitted gets one of two answers, which do not depend on the handler.
pub require_auth_turned_away :
    (now later : Time) (next : Handler) (r : Request) (s : Server) (d : Db)
    → ¬ Admitted now later s r
    → ((require_auth now later next r (s, d)).0 ≡ to_login)
      ⊎ ((require_auth now later next r (s, d)).0 ≡ csrf_failed)
unfolding require_auth guarded checked with_session
require_auth_turned_away now later next r s d out =
    elim (Option-cases (r.cookie (codes "nba_session"))) [
      | inl none_sent ↦ inl (rw none_sent refl)
      | inr (token, sent) ↦ elim (Bool-cases (valid token now later s.sessions).0) [
        | inr old ↦ inl (rw (sent, old) refl)
        | inl good ↦ elim (Bool-cases (needs_csrf r.method && not (csrf_ok r))) [
          | inl bad ↦ inr (rw (sent, good, bad) refl)
          | inr fine ↦ absurd (out (token, sent, good, λ needs. csrf_ok-true r (ground arith)))
        ]
      ]
    ]

-- The answer has no data of the database.
abbrev pub DiscloseNothing : Body → Type 0
DiscloseNothing (page d) = ⊥
DiscloseNothing (csv_file t) = ⊥
DiscloseNothing (failure e) = ⊥
DiscloseNothing (stored n) = ⊥
DiscloseNothing netbird_failure = ⊥
DiscloseNothing _ = Unit

pub to_login-DiscloseNothing : DiscloseNothing to_login.body
unfolding to_login
to_login-DiscloseNothing = tt

pub csrf_failed-DiscloseNothing : DiscloseNothing csrf_failed.body
unfolding csrf_failed
csrf_failed-DiscloseNothing = tt
