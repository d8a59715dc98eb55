-- ===== src/Server/RateLimit/Laws.antt =====
-- The limit over any sequence of logins and failures, of all addresses.
use net_bird_audit.Prelude.{
  ◌≤◌, Text, Bool, List, [], ◌∷◌, ◌++◌, ◌==◌, text_eq, nat_eq, text_beq_iff, if◌then◌else◌, length,
  keep, keep-append, keep-keep, keep-congr, append_assoc, append-nil, ltb, ◌≡◌, sym, ◌∙◌, ap, arith,
}
use net_bird_audit.Time.{Time}
use net_bird_audit.GoMap
use net_bird_audit.GoMap.{lookup-insert, lookup-empty}
use net_bird_audit.Server.RateLimit.{Failures, times_of, failures_of, recent, rate_ok, fail}

-- A call of one of the two methods, with the address and the time that it reads.
pub data Event : Type 0 where
  attempt failure : Text → Time → Event

abbrev pub time_of : Event → Time
time_of (attempt ip t) = t
time_of (failure ip t) = t

unfoldable pub follow : Event → Failures → Failures
follow (attempt ip t) m = (rate_ok ip t m).1
follow (failure ip t) m = fail ip t m

unfoldable pub run : List Event → Failures → Failures
run [] m = m
run (e ∷ es) m = run es (follow e m)

-- The times of the failures of one address, the first one first.
unfoldable pub failures_in : Text → List Event → List Time
failures_in ip [] = []
failures_in ip (attempt j t ∷ es) = failures_in ip es
failures_in ip (failure j t ∷ es) =
    let rest = failures_in ip es in if j == ip then t ∷ rest else rest

-- The times do not fall, from `start` on and up to `now`.
abbrev pub InOrder : Time → List Event → Time → Type 0
InOrder start [] now = start ≤ now
InOrder start (e ∷ es) now = (start ≤ time_of e) × InOrder (time_of e) es now

failures_of-insert :
    (j ip : Text) (ts : List Time) (m : Failures)
    → failures_of ip (GoMap.insert j ts m) ≡ (if j == ip then ts else failures_of ip m)
unfolding failures_of times_of
failures_of-insert j ip ts m = ground (arith, lookup-insert j ip ts m)

-- What was not recent before is not recent now.
recent-twice :
    (u now : Time) (xs : List Time)
    → u ≤ now
    → keep (recent now) (keep (recent u) xs) ≡ keep (recent now) xs
recent-twice u now xs le =
    keep-keep (recent now) (recent u) xs ∙ keep-congr _ (recent now) xs (λ x. ground arith)

abbrev recent_of : Text → Time → Failures → List Time
recent_of ip now m = keep (recent now) (failures_of ip m)

recent_of-attempt :
    (ip j : Text) (t now : Time) (m : Failures)
    → t ≤ now
    → recent_of ip now (follow (attempt j t) m) ≡ recent_of ip now m
unfolding follow rate_ok
recent_of-attempt ip j t now m le = ground (
  arith,
  failures_of-insert j ip (keep (recent t) (failures_of j m)) m,
  recent-twice t now (failures_of j m) le,
  text_beq_iff j ip,
)

recent_of-failure :
    (ip j : Text) (t now : Time) (m : Failures)
    → recent_of ip now (follow (failure j t) m)
      ≡ (if j == ip then recent_of ip now m ++ keep (recent now) (t ∷ []) else recent_of ip now m)
unfolding follow fail
recent_of-failure ip j t now m = ground (
  arith,
  failures_of-insert j ip (failures_of j m ++ t ∷ []) m,
  keep-append (recent now) (failures_of j m) (t ∷ []),
  text_beq_iff j ip,
)

InOrder-bound : (start now : Time) (es : List Event) → InOrder start es now → start ≤ now
InOrder-bound start now [] h = h
InOrder-bound start now (e ∷ es) h = omega (arith, h.0, InOrder-bound (time_of e) now es h.1)

keep-cons :
    (p : Time → Bool) (t : Time) (xs : List Time) → keep p (t ∷ xs) ≡ keep p (t ∷ []) ++ keep p xs
keep-cons p t xs = keep-append p (t ∷ []) xs

none_yet :
    (ip : Text) (now : Time) (es : List Event)
    → recent_of ip now GoMap.empty ++ keep (recent now) (failures_in ip es)
      ≡ keep (recent now) (failures_in ip es)
unfolding failures_of times_of
none_yet ip now es = rw (lookup-empty {V = List Time} ip)

recent_of-run :
    (ip : Text) (start now : Time) (es : List Event) (m : Failures)
    → InOrder start es now
    → recent_of ip now (run es m) ≡ recent_of ip now m ++ keep (recent now) (failures_in ip es)
unfolding run failures_in
recent_of-run ip start now [] m h = sym (append-nil (recent_of ip now m))
recent_of-run ip start now (attempt j t ∷ es) m h =
    recent_of-run ip t now es (follow (attempt j t) m) h.1
    ∙ ap (λ (xs : List Time). xs ++ keep (recent now) (failures_in ip es))
        (recent_of-attempt ip j t now m (InOrder-bound t now es h.1))
recent_of-run ip start now (failure j t ∷ es) m h = ground (
  arith,
  recent_of-run ip t now es (follow (failure j t) m) h.1,
  recent_of-failure ip j t now m,
  keep-cons (recent now) t (failures_in ip es),
  append_assoc (recent_of ip now m) (keep (recent now) (t ∷ []))
      (keep (recent now) (failures_in ip es)),
)

-- After any sequence of calls with a clock that does not go back, an address may try to log in if
-- and only if fewer than eight of its own failures lie in the last ten minutes; what other
-- addresses do, and how often the limit was asked, make no difference.
pub rate_ok-run :
    (ip : Text) (now : Time) (es : List Event)
    → InOrder 0 es now
    → (rate_ok ip now (run es GoMap.empty)).0
      ≡ ltb (length (keep (recent now) (failures_in ip es))) 8
unfolding rate_ok
rate_ok-run ip now es h =
    ap (λ (xs : List Time). ltb (length xs) 8)
      (recent_of-run ip 0 now es GoMap.empty h ∙ none_yet ip now es)
