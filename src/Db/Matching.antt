-- ===== src/Db/Matching.antt =====
-- MatchResource of internal/db/db.go.
pub mod Laws
use net_bird_audit.Prelude.{
  ℕ, Text, Bool, true, false, not, ◌&&◌, ◌||◌, List, [], ◌∷◌, Option, none, some, if◌then◌else◌,
  ◌==◌, text_eq,
}
use net_bird_audit.Text.{to_lower}
use net_bird_audit.Netip.{Addr, Prefix, parse_addr, parse_prefix, contains}
use net_bird_audit.Ports.{port_allowed}
use net_bird_audit.Db.Collation.{Collation}
use net_bird_audit.Db.Tables.{Db, Resource}
use net_bird_audit.Db.Query.{find}
use net_bird_audit.Db.Monad.{M, ◌>>=◌, pure}
use net_bird_audit.Db.Resources.{list_resources}

in_prefix : Option Prefix → Addr → Bool
in_prefix none ip = false
in_prefix (some p) ip = contains p ip

-- One round of the loop: the two `continue`s and the test before the return.
unfoldable pub resource_matches : Addr → ℕ → Text → Resource → Bool
unfolding in_prefix
resource_matches ip port proto r =
    if not r.enabled || not (to_lower r.protocol == to_lower proto)
    then false
    else in_prefix (parse_prefix r.cidr) ip && port_allowed r.ports port

pub match_in : Text → ℕ → Text → List Resource → Option Resource
match_in dst port proto rs = elim (parse_addr dst) [
  | none ↦ none
  | some ip ↦ find (resource_matches ip port proto) rs
]

module _ ⦃c : Collation⦄ where
  unfoldable pub match_resource : Text → ℕ → Text → M (Option Resource)
  unfolding match_in
  match_resource dst port proto = do rs ← list_resources; pure (match_in dst port proto rs)
