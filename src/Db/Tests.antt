-- ===== src/Db/Tests.antt =====
-- Runs of the methods under the binary collation, and the theorems at concrete inputs.
pub mod Reports
pub mod Lists
use net_bird_audit.Prelude.{
  ◌≡◌, ◌≢◌, ◌⊎◌, inl, refl, codes, Text, true, false, [], ◌∷◌, none, some, arith, List, In,
  text_beq,
}
use net_bird_audit.Text.{trim_space, to_lower}
use net_bird_audit.Netip.{Addr, v4, parse_addr, parse_prefix, contains}
use net_bird_audit.Ports.{port_allowed}
use net_bird_audit.Db.Collation.{Collation, binary, byte_le, same, le_text}
use net_bird_audit.Db.Tables.{
  Db, User, Peer, Resource, NetBirdResource, FlowRow, FlowUpsert, empty_db,
}
use net_bird_audit.Db.Query.{any, find, newest, sort_by}
use net_bird_audit.Db.Query.Keyed.{IsUnique}
use net_bird_audit.Db.Monad.{ok, err, DbError, answer, answers_left, statement}
use net_bird_audit.Db.VpnSessions.{reconcile_session}
use net_bird_audit.Db.VpnSessions.Invariant.{IsValid, open_count}
use net_bird_audit.Db.VpnSessions.Reconcile.{
  reconcile_session-IsValid, open_count-reconcile_session,
}
use net_bird_audit.Db.Resources.{
  normalize_audit_cidr, enable_audit, netbird_row, replace_netbird_resources, add_resource,
  list_resources,
}
use net_bird_audit.Db.Resources.Enable.{
  name_of, audited, Enables, add_resource-IsUnique, enable_audit-ok, enable_audit-same_name,
}
use net_bird_audit.Db.Resources.Replace.{
  replace_netbird_resources-atomic, replace_netbird_resources-total,
}
use net_bird_audit.Db.Matching.{match_resource, resource_matches}
use net_bird_audit.Db.Matching.Laws.{Covers, match_resource-some, match_resource-none}
use net_bird_audit.Db.Flows.{upsert_flow}
use net_bird_audit.Db.Flows.Rows.{key_of, flow_at, matched, Continues}
use net_bird_audit.Db.Flows.Reports.{
  Reflects, upsert_flow-Continues, upsert_flow-stored, upsert_flow-IsUnique,
}

instance abbrev pub binary_collation : Collation
binary_collation = binary

abbrev ann : User
ann = record { id = codes "u1"; name = codes "Ann"; email = codes "ann@x" }

abbrev laptop : Peer
laptop = record {
  id = codes "p1";
  user_id = codes "u1";
  name = codes "laptop";
  ip = codes "100.64.0.1";
  public_ip = [];
  connected = true;
  last_seen = 7;
}

empty-IsValid : IsValid empty_db
empty-IsValid = record {
  at_most_one = λ peer. omega arith;
  distinct = λ i. omega arith;
  below = tt;
}

reconciled-IsValid : IsValid (reconcile_session 50 laptop ann empty_db).1
reconciled-IsValid = reconcile_session-IsValid 50 laptop ann empty_db empty-IsValid

reconciled : (reconcile_session 50 laptop ann empty_db).0 ≡ ok tt
unfolding reconcile_session statement answer answers_left newest
reconciled = refl

one_session : open_count (codes "p1") (reconcile_session 50 laptop ann empty_db).1.vpn_sessions ≡ 1
one_session = open_count-reconcile_session 50 laptop ann empty_db empty-IsValid reconciled

abbrev first_site : NetBirdResource
first_site = record {
  id = codes "r1";
  network_id = codes "n1";
  network_name = codes "office";
  name = codes "db";
  address = codes "10.0.0.9";
  kind = codes "host";
  enabled = true;
}

abbrev second_site : NetBirdResource
second_site = record first_site {
  id = codes "r2";
  network_id = codes "n2";
  address = codes "10.1.0.0/16";
}

abbrev sites : List NetBirdResource
sites = first_site ∷ second_site ∷ []

replace_netbird_resources-atomic_example :
    ((replace_netbird_resources sites empty_db).0 ≡ ok tt)
      × ((replace_netbird_resources sites empty_db).1.netbird_resources ≡ sites)
    ⊎ ((e : DbError) × ((replace_netbird_resources sites empty_db).0 ≡ err e)
        × ((replace_netbird_resources sites empty_db).1.netbird_resources ≡ []))
replace_netbird_resources-atomic_example = replace_netbird_resources-atomic sites empty_db

replace_netbird_resources-total_example :
    ((replace_netbird_resources sites empty_db).0 ≡ ok tt)
    × ((replace_netbird_resources sites empty_db).1.netbird_resources ≡ sites)
unfolding any same byte_le
replace_netbird_resources-total_example =
    replace_netbird_resources-total sites empty_db (refl, (refl, tt)) refl

abbrev with_sites : Db
with_sites = record empty_db { netbird_resources = sites }

abbrev enabled_one : Db
enabled_one = (enable_audit (codes "r1") (codes "tcp") (codes "5432") with_sites).1

enabled_first : (enable_audit (codes "r1") (codes "tcp") (codes "5432") with_sites).0 ≡ ok tt
unfolding enable_audit add_resource statement answer answers_left find same byte_le
    normalize_audit_cidr text_beq trim_space parse_prefix parse_addr
enabled_first = refl

found_first : netbird_row (codes "r1") with_sites ≡ some first_site
unfolding netbird_row find same byte_le
found_first = refl

audited_now :
    (r : NetBirdResource) × (netbird_row (codes "r1") with_sites ≡ some r)
    × Enables (codes "tcp") (codes "5432") r with_sites enabled_one
audited_now = enable_audit-ok (codes "r1") (codes "tcp") (codes "5432") with_sites enabled_first

enabled_second : (enable_audit (codes "r2") (codes "udp") (codes "53") enabled_one).0 ≡ ok tt
unfolding enable_audit statement answer find same byte_le normalize_audit_cidr parse_prefix
    trim_space text_beq add_resource answers_left
enabled_second = refl

name_taken_over :
    (a : Resource) × (audited
        (codes "db")
        (enable_audit (codes "r2") (codes "udp") (codes "53") enabled_one).1
      ≡ some a)
    × (normalize_audit_cidr (codes "10.1.0.0/16") ≡ some a.cidr)
unfolding netbird_row find enable_audit statement answer same byte_le normalize_audit_cidr
    parse_prefix trim_space text_beq add_resource answers_left
name_taken_over =
    enable_audit-same_name (codes "r1") (codes "r2") (codes "tcp") (codes "udp") (codes "5432")
      (codes "53") with_sites first_site second_site enabled_first found_first enabled_second refl
      refl

no_names : IsUnique name_of []
no_names k = omega arith

abbrev web : Resource
web = record {
  id = 0;
  name = codes "web";
  cidr = codes "10.0.0.0/24";
  protocol = codes "TCP";
  ports = codes "80,443";
  enabled = true;
}

one_name : IsUnique name_of (add_resource web empty_db).1.resources
one_name = add_resource-IsUnique web empty_db no_names

abbrev with_web : Db
with_web = record empty_db { resources = web ∷ [] }

web_found : (match_resource (codes "10.0.0.9") 443 (codes "tcp") with_web).0 ≡ ok (some web)
unfolding match_resource list_resources statement answer parse_addr find sort_by resource_matches
    text_beq to_lower parse_prefix contains port_allowed
web_found = refl

match_resource-some_example :
    (ip : Addr) × (parse_addr (codes "10.0.0.9") ≡ some ip)
    × In web (web ∷ [])
    × Covers ip 443 (codes "tcp") web
    × ((b : Resource)
        → In b (web ∷ [])
        → Covers ip 443 (codes "tcp") b
        → le_text web.name b.name ≡ true)
match_resource-some_example =
    match_resource-some (codes "10.0.0.9") 443 (codes "tcp") with_web web web_found

web_not_found : (match_resource (codes "10.0.0.9") 22 (codes "tcp") with_web).0 ≡ ok none
unfolding match_resource list_resources statement answer parse_addr find sort_by resource_matches
    text_beq to_lower parse_prefix contains port_allowed
web_not_found = refl

nothing_matches : ¬ Covers (v4 0x0a000009) 22 (codes "tcp") web
unfolding parse_addr
nothing_matches =
    match_resource-none (codes "10.0.0.9") 22 (codes "tcp") with_web (v4 0x0a000009) web
      web_not_found refl (inl refl)
