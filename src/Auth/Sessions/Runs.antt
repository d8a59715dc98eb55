-- ===== src/Auth/Sessions/Runs.antt =====
-- Runs of the store: any sequence of calls, against what they mean for one token.
use net_bird_audit.Prelude.{
  Text, true, false, Option, none, some, List, [], ◌∷◌, if◌then◌else◌, ◌≡◌, ◌≢◌, refl, arith, ◌==◌,
  text_eq, text_beq_iff, All,
}
use net_bird_audit.Time.{Time, Duration, add}
use net_bird_audit.GoMap.{lookup-empty}
use net_bird_audit.Crypto.Hex.{hex}
use net_bird_audit.Auth.Sessions.{SessionStore, new_session_store, new, valid, delete}
use net_bird_audit.Auth.Sessions.Laws.{
  deadline, expired_at, valid-eq, deadline-valid, ttl-valid, deadline-new, deadline-delete,
}

-- A call of a method with what it reads from outside.
pub data Call : Type 0 where
  create : Option Text → Time → Call
  check : Text → Time → Time → Call
  logout : Text → Call

unfoldable pub call : Call → SessionStore → SessionStore
call (create b now) s = (new b now s).1
call (check t now later) s = (valid t now later s).1
call (logout t) s = delete t s

unfoldable pub run : List Call → SessionStore → SessionStore
run [] s = s
run (c ∷ cs) s = run cs (call c s)

-- What a call means for the deadline of one token, with no other token in sight.
abbrev pub follow : Text → Duration → Call → Option Time → Option Time
follow t ttl (create none now) d = d
follow t ttl (create (some b) now) d = if hex b == t then some (add now ttl) else d
follow t ttl (check j now later) d =
    if j == t then (if expired_at now d then none else some (add later ttl)) else d
follow t ttl (logout j) d = if j == t then none else d

abbrev pub follow_all : Text → Duration → List Call → Option Time → Option Time
follow_all t ttl [] d = d
follow_all t ttl (c ∷ cs) d = follow_all t ttl cs (follow t ttl c d)

ttl-call : (c : Call) (s : SessionStore) → (call c s).ttl ≡ s.ttl
unfolding call new delete
ttl-call (create none now) s = refl
ttl-call (create (some b) now) s = refl
ttl-call (check t now later) s = ttl-valid t now later s
ttl-call (logout t) s = refl

deadline-call :
    (t : Text) (c : Call) (s : SessionStore)
    → deadline (call c s) t ≡ follow t s.ttl c (deadline s t)
unfolding call
deadline-call t (create none now) s = unfold new in refl
deadline-call t (create (some b) now) s = deadline-new b t now s
deadline-call t (check j now later) s =
    ground (arith, deadline-valid j t now later s, text_beq_iff j t)
deadline-call t (logout j) s = deadline-delete j t s

deadline-run_from :
    (t : Text) (cs : List Call) (s : SessionStore)
    → deadline (run cs s) t ≡ follow_all t s.ttl cs (deadline s t)
unfolding run
deadline-run_from t [] s = refl
deadline-run_from t (c ∷ cs) s =
    rw (deadline-run_from t cs (call c s)) (rw (ttl-call c s) (rw (deadline-call t c s)))

-- Whatever the calls, a check accepts a token exactly if the calls on that token alone leave it a
-- deadline that has not passed: sessions do not disturb one another.
pub valid-run :
    (ttl : Duration) (t : Text) (cs : List Call) (now later : Time)
    → (valid t now later (run cs (new_session_store ttl))).0
      ≡ (if expired_at now (follow_all t ttl cs none) then false else true)
unfolding new_session_store
valid-run ttl t cs now later = ground (
  arith,
  valid-eq t now later (run cs (new_session_store ttl)),
  deadline-run_from t cs (new_session_store ttl),
  lookup-empty {V = Time} t,
)

-- The call does not create the token again.
abbrev pub Spares : Text → Call → Type 0
Spares t (create (some b) now) = hex b ≢ t
Spares t _ = Unit

follow-none : (t : Text) (ttl : Duration) (c : Call) → Spares t c → follow t ttl c none ≡ none
follow-none t ttl (create none now) h = refl
follow-none t ttl (create (some b) now) h = ground (arith, text_beq_iff (hex b) t)
follow-none t ttl (check j now later) h = ground arith
follow-none t ttl (logout j) h = ground arith

follow_all-none :
    (t : Text) (ttl : Duration) (cs : List Call)
    → All (Spares t) cs
    → follow_all t ttl cs none ≡ none
follow_all-none t ttl [] h = refl
follow_all-none t ttl (c ∷ cs) h = rw (follow-none t ttl c h.0) (follow_all-none t ttl cs h.1)

rejected_without_deadline :
    (t : Text) (cs : List Call) (now later : Time) (s : SessionStore)
    → deadline s t ≡ none
    → All (Spares t) cs
    → (valid t now later (run cs s)).0 ≡ false
rejected_without_deadline t cs now later s gone h =
    ground (
      arith,
      valid-eq t now later (run cs s),
      deadline-run_from t cs s,
      follow_all-none t s.ttl cs h,
    )

-- After a logout no check accepts the token, whatever calls come between, unless one of them
-- creates the same token again.
pub logout_is_final :
    (t : Text) (cs : List Call) (now later : Time) (s : SessionStore)
    → All (Spares t) cs
    → (valid t now later (run cs (delete t s))).0 ≡ false
logout_is_final t cs now later s h =
    rejected_without_deadline t cs now later (delete t s)
      (ground (arith, deadline-delete t t s, text_beq_iff t t)) h

-- A token that a check has rejected is rejected by every later check, unless it is created again.
pub rejection_is_final :
    (t : Text) (cs : List Call) (now later now' later' : Time) (s : SessionStore)
    → (valid t now later s).0 ≡ false
    → All (Spares t) cs
    → (valid t now' later' (run cs (valid t now later s).1)).0 ≡ false
rejection_is_final t cs now later now' later' s rejected h =
    rejected_without_deadline t cs now' later' (valid t now later s).1
      (ground (arith, deadline-valid t t now later s, valid-eq t now later s, text_beq_iff t t)) h
