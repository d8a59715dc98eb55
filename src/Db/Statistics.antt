-- ===== src/Db/Statistics.antt =====
-- Counts, UniqueUsers24h, ActiveFlows24h and FailedLogins24h of internal/db/db.go.
pub mod Laws
use net_bird_audit.Prelude.{
  ℕ, suc, ◌*◌, Text, codes, Bool, true, false, not, ◌&&◌, List, [], ◌∷◌, Option, none, some, map,
  keep, count, length, leb, if◌then◌else◌,
}
use net_bird_audit.Prelude.Int.{minus}
use net_bird_audit.Time.{Time, add, hour}
use net_bird_audit.Db.Collation.{Collation, same}
use net_bird_audit.Db.Tables.{Db, PeerEntry, SessionRow, FlowRow, AuditRow}
use net_bird_audit.Db.Query.{any}
use net_bird_audit.Db.Monad.{M, Result, ok, err, ◌>>=◌, ◌>>◌, gets, statement}

-- Scan leaves the number at zero if the query fails.
or_zero : Result ℕ × Db → ℕ × Db
or_zero (ok n, s) = (n, s)
or_zero (err e, s) = (0, s)

-- One query for a number.
pub scan_number : (Db → ℕ) → Db → ℕ × Db
unfolding or_zero
scan_number f s = or_zero ((do statement; gets f) s)

-- NOW() - INTERVAL 24 HOUR
abbrev pub day_before : Time → Time
day_before now = add now (minus (24 * hour))

pub record Totals : Type 0 where
  pub online : ℕ
  pub peers : ℕ
  pub sessions : ℕ
  pub flows : ℕ

flow_since : Time → FlowRow → Bool
flow_since start r = leb start r.started_at

pub count_online : Db → ℕ
count_online s = count (λ (p : PeerEntry). p.connected) s.peers

pub count_peers : Db → ℕ
count_peers s = length s.peers

-- Counts; the last two queries read NOW() at `now` and at `later`.
unfoldable pub counts : Time → Time → Db → Totals × Db
unfolding scan_number flow_since count_online count_peers
counts now later s0 =
    let (online, s1) = scan_number count_online s0 in
    let (peers, s2) = scan_number count_peers s1 in
    let (sessions, s3) =
      scan_number
        (λ s. count (λ (r : SessionRow). leb (day_before now) r.connected_at) s.vpn_sessions) s2 in
    let (flows, s4) = scan_number (λ s. count (flow_since (day_before later)) s.flows) s3 in
    (record { online = online; peers = peers; sessions = sessions; flows = flows }, s4)

is_running : FlowRow → Bool
is_running r = elim r.ended_at [ none ↦ true | some t ↦ false ]

unfoldable pub active_flows_24h : Time → Db → ℕ × Db
unfolding scan_number flow_since is_running
active_flows_24h now =
    scan_number (λ s. count (λ r. flow_since (day_before now) r && is_running r) s.flows)

module _ ⦃c : Collation⦄ where
  unfoldable pub failed_logins_24h : Time → Db → ℕ × Db
  unfolding scan_number
  failed_logins_24h now = scan_number (λ s.
      count
        (λ (r : AuditRow).
          same r.action (codes "login_failed") && leb (day_before now) r.occurred_at)
        s.admin_audit)

  -- COUNT(DISTINCT …)
  pub count_distinct : List Text → ℕ
  count_distinct [] = 0
  count_distinct (t ∷ ts) =
      let rest = count_distinct ts in if any (λ u. same u t) ts then rest else suc rest

  -- COALESCE(NULLIF(user_id, ''), src_ip)
  user_or_ip : FlowRow → Text
  user_or_ip r = if same r.user_id [] then r.src_ip else r.user_id

  unfoldable pub unique_users_24h : Time → Db → ℕ × Db
  unfolding scan_number flow_since user_or_ip count_distinct
  unique_users_24h now =
      scan_number
        (λ s. count_distinct (map user_or_ip (keep (flow_since (day_before now)) s.flows)))
