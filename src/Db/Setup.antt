-- ===== src/Db/Setup.antt =====
-- Open, PingContext and Migrate of internal/db/db.go.
pub mod Laws
use net_bird_audit.Prelude.{
  ℕ, ◌*◌, Bool, true, false, ◌||◌, List, [], ◌∷◌, ◌++◌, Option, none, some, ◌==◌, nat_eq,
  if◌then◌else◌,
}
use net_bird_audit.Prelude.Int.{pos}
use net_bird_audit.Time.{Duration, minute}
use net_bird_audit.Db.Monad.{M, Result, ok, err, answer, answers_left, statement}

-- The limits that Open sets on the pool of connections.
pub record Pool : Type 0 where
  pub max_open_conns : ℕ
  pub max_idle_conns : ℕ
  pub conn_max_lifetime : Duration

-- `opened` and `pinged` tell whether sql.Open and Ping return no error; `none` is an error.
unfoldable pub open_db : Bool → Bool → Option Pool
open_db opened pinged =
    if opened
    then (if pinged
        then some (record {
          max_open_conns = 20;
          max_idle_conns = 10;
          conn_max_lifetime = pos (30 * minute);
        })
        else none)
    else none

-- PingContext is a statement of its own.
unfoldable pub ping_context : M (Unit {0})
ping_context = statement

pub data TableName : Type 0 where
  users_cache peers_cache vpn_sessions resources netbird_resources_cache : TableName
  network_flows admin_audit : TableName

number_of : TableName → ℕ
number_of users_cache = 0
number_of peers_cache = 1
number_of vpn_sessions = 2
number_of resources = 3
number_of netbird_resources_cache = 4
number_of network_flows = 5
number_of admin_audit = 6

-- The tables that exist, and what the server will answer.
pub record Schema : Type 0 where
  pub tables : List TableName
  pub outcomes : List Bool

pub exists_in : TableName → List TableName → Bool
unfolding number_of
exists_in t [] = false
exists_in t (u ∷ us) = number_of t == number_of u || exists_in t us

pub stmts : List TableName
stmts =
    users_cache ∷ peers_cache ∷ vpn_sessions ∷ resources ∷ netbird_resources_cache ∷ network_flows
    ∷ admin_audit ∷ []

-- CREATE TABLE IF NOT EXISTS
pub add_table : TableName → List TableName → List TableName
add_table t ts = if exists_in t ts then ts else ts ++ t ∷ []

-- The loop: the first error ends it.
pub create_all : List TableName → Schema → Result (Unit {0}) × Schema
create_all [] s = (ok tt, s)
create_all (t ∷ ts) s = elim (answer s.outcomes) [
  | err e ↦ (err e, record s { outcomes = answers_left s.outcomes })
  | ok u ↦
      create_all ts (record s { tables = add_table t s.tables; outcomes = answers_left s.outcomes })
]

unfoldable pub migrate : Schema → Result (Unit {0}) × Schema
unfolding number_of exists_in stmts add_table create_all
migrate s = create_all stmts s
