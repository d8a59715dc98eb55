-- ===== src/Db/Statistics/Laws.antt =====
-- The totals of internal/db/db.go, whatever fails.
use net_bird_audit.Prelude.{
  ◌≤◌, Bool, List, [], ◌∷◌, ℕ, count, length, ◌≡◌, ◌⊎◌, inl, inr, refl, arith,
}
use net_bird_audit.Time.{Time}
use net_bird_audit.Db.Tables.{Db, PeerEntry}
use net_bird_audit.Db.Monad.{Result-cases, statement, answer, answers_left}
use net_bird_audit.Db.Collation.{Collation}
use net_bird_audit.Db.Queries.{SameTables, SameTables-trans}
use net_bird_audit.Db.Statistics.{
  or_zero, scan_number, count_online, count_peers, counts, failed_logins_24h, unique_users_24h,
  active_flows_24h,
}

count_le_length : {A : Type 0} (p : A → Bool) (xs : List A) → count p xs ≤ length xs
count_le_length p [] = omega arith
count_le_length p (x ∷ xs) = ground (arith, count_le_length p xs)

-- No more peers are online than there are, unless the number of peers was not answered, which
-- counts as none.
pub online-counts :
    (now later : Time) (s : Db)
    → ((counts now later s).0.online ≤ (counts now later s).0.peers)
      ⊎ ((counts now later s).0.peers ≡ 0)
unfolding counts scan_number or_zero statement count_online count_peers
online-counts now later s = elim (Result-cases (answer s.outcomes)) [
  | inr (e, bad) ↦ inl (rw bad (omega arith))
  | inl good ↦ elim (Result-cases (answer (answers_left s.outcomes))) [
    | inr (e, bad) ↦ inr (rw (good, bad) refl)
    | inl good' ↦ inl (rw (good, good') (count_le_length (λ (p : PeerEntry). p.connected) s.peers))
  ]
]

scan_number-SameTables : (f : Db → ℕ) (d : Db) → SameTables d (scan_number f d).1
unfolding scan_number or_zero statement
scan_number-SameTables f d = elim (Result-cases (answer d.outcomes)) [
  | inl good ↦ rw good refl
  | inr (e, bad) ↦ rw bad refl
]

pub counts-SameTables : (now later : Time) (d : Db) → SameTables d (counts now later d).1
unfolding counts
counts-SameTables now later d =
    let d1 = (scan_number count_online d).1 in
    let d2 = (scan_number count_peers d1).1 in
    SameTables-trans d d1 _ (scan_number-SameTables _ d) (
      SameTables-trans d1 d2 _ (scan_number-SameTables _ d1)
        (SameTables-trans d2 _ _ (scan_number-SameTables _ d2) (scan_number-SameTables _ _)))

pub active_flows_24h-SameTables : (now : Time) (d : Db) → SameTables d (active_flows_24h now d).1
unfolding active_flows_24h
active_flows_24h-SameTables now = scan_number-SameTables _

module _ ⦃c : Collation⦄ where
  pub failed_logins_24h-SameTables :
      (now : Time) (d : Db) → SameTables d (failed_logins_24h now d).1
  unfolding failed_logins_24h
  failed_logins_24h-SameTables now = scan_number-SameTables _

  pub unique_users_24h-SameTables : (now : Time) (d : Db) → SameTables d (unique_users_24h now d).1
  unfolding unique_users_24h
  unique_users_24h-SameTables now = scan_number-SameTables _
