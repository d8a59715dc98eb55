-- ===== src/Db/Resources.antt =====
-- Audited resources and the cache of NetBird's resources: ListResources, AddResource,
-- DeleteResource, ReplaceNetBirdResources, ListResourceViews and EnableAuditForNetBirdResource of
-- internal/db/db.go.
pub mod Enable
pub mod Replace
pub mod Frame
use net_bird_audit.Prelude.{
  ℕ, ◌+◌, Text, codes, Bool, true, false, not, ◌&&◌, ◌||◌, List, [], ◌∷◌, ◌++◌, Option, none, some,
  map, if◌then◌else◌, ◌==◌, nat_eq, text_eq, keep,
}
use net_bird_audit.Prelude.Int.{ℤ, pos, negsuc}
use net_bird_audit.Text.{trim_space, to_lower, last_index}
use net_bird_audit.Netip.{parse_addr, parse_prefix, prefix_from, bit_len, print_prefix}
use net_bird_audit.Db.Collation.{Collation, same, le_text}
use net_bird_audit.Db.Tables.{Db, Resource, NetBirdResource, ResourceView}
use net_bird_audit.Db.Query.{any, find, upsert, sort_by}
use net_bird_audit.Db.Monad.{
  M, Result, ok, err, DbError, duplicate, no_rows, not_an_ip, bad_protocol, ◌>>=◌, ◌>>◌, pure, fail,
  gets, modify, statement,
}

-- normalizeAuditCIDR: `none` where it reports false.
unfoldable pub normalize_audit_cidr : Text → Option Text
normalize_audit_cidr address =
    let addr = trim_space address in
    elim (parse_prefix addr) [
      | some p ↦ some (print_prefix p)
      | none ↦ elim (parse_addr addr) [
        | some ip ↦ some (print_prefix (prefix_from ip (bit_len ip)))
        | none ↦ none
      ]
    ]

has_byte : ℕ → Text → Bool
has_byte b s = elim (last_index s b) [ none ↦ false | some i ↦ true ]

-- The CASE of the join in ListResourceViews.
unfoldable pub join_cidr : Text → Text
unfolding has_byte
join_cidr address =
    if has_byte b'/' address
    then address
    else address ++ (if has_byte b':' address then codes "/128" else codes "/32")

same_id : ℤ → Resource → Bool
same_id (pos n) r = r.id == n
same_id (negsuc n) r = false

-- DeleteResource
unfoldable pub delete_resource : ℤ → M Unit
unfolding same_id
delete_resource id = do
  statement
  modify (λ s. record s { resources = keep (λ r. not (same_id id r)) s.resources })

no_audit : NetBirdResource → ResourceView
no_audit n = record {
  resource = n;
  audit_id = 0;
  audit_enabled = false;
  audit_protocol = [];
  audit_ports = [];
  supported = false;
}

audited_by : NetBirdResource → Resource → ResourceView
audited_by n a = record {
  resource = n;
  audit_id = a.id;
  audit_enabled = a.enabled;
  audit_protocol = a.protocol;
  audit_ports = a.ports;
  supported = false;
}

is_some : Option Text → Bool
is_some none = false
is_some (some t) = true

with_support : ResourceView → ResourceView
with_support v = record v { supported = is_some (normalize_audit_cidr v.resource.address) }

or_unaudited : NetBirdResource → List ResourceView → List ResourceView
or_unaudited n [] = no_audit n ∷ []
or_unaudited n (v ∷ vs) = v ∷ vs

module _ ⦃c : Collation⦄ where
  unfoldable pub list_resources : M (List Resource)
  list_resources = do
    statement
    gets (λ s. sort_by (λ (a : Resource) (b : Resource). le_text a.name b.name) s.resources)

  pub has_name : Text → Resource → Bool
  has_name name q = same q.name name

  -- The columns that ON DUPLICATE KEY UPDATE takes from the new row.
  pub renew : Resource → Resource → Resource
  renew r q = record q {
    cidr = r.cidr;
    protocol = to_lower r.protocol;
    ports = r.ports;
    enabled = r.enabled;
  }

  -- The id of a new row is the counter, which goes up with every new row.
  -- InnoDB takes the next id for the INSERT also where the row is updated.
  pub put_resource : Resource → Db → Db
  unfolding has_name renew
  put_resource r s = record s {
    resources =
        upsert (has_name r.name) (renew r)
          (record r { id = s.next_resource; protocol = to_lower r.protocol }) s.resources;
    next_resource = s.next_resource + 1;
  }

  unfoldable pub add_resource : Resource → M Unit
  unfolding put_resource
  add_resource r = do statement; modify (put_resource r)

  -- One INSERT of the loop: an id that is there already is an error.
  insert_netbird : NetBirdResource → M Unit
  insert_netbird r = do
    statement
    s ← gets (λ t. t)
    if any (λ (q : NetBirdResource). same q.id r.id) s.netbird_resources
        then fail duplicate
        else modify (λ t. record t { netbird_resources = t.netbird_resources ++ r ∷ [] })

  pub insert_all : List NetBirdResource → M Unit
  insert_all [] = pure tt
  insert_all (r ∷ rs) = do insert_netbird r; insert_all rs

  clear_netbird : M Unit
  clear_netbird = do statement; modify (λ s. record s { netbird_resources = [] })

  replace_body : List NetBirdResource → M Unit
  replace_body rs = do clear_netbird; insert_all rs; statement

  -- What the transaction leaves: all of it after a commit, else the table as it was.
  finish : Db → Result (Unit {0}) × Db → Result (Unit {0}) × Db
  finish before (ok u, s) = (ok u, s)
  finish before (err e, s) = (err e, record s { netbird_resources = before.netbird_resources })

  in_transaction : M Unit → M Unit
  in_transaction body s = finish s (body s)

  unfoldable pub replace_netbird_resources : List NetBirdResource → M Unit
  unfolding insert_netbird insert_all clear_netbird replace_body finish in_transaction
  replace_netbird_resources rs = do statement; in_transaction (replace_body rs)

  joins : NetBirdResource → Resource → Bool
  joins n a = same a.name n.name && same a.cidr (join_cidr n.address)

  views_of : List Resource → NetBirdResource → List ResourceView
  views_of resources n = or_unaudited n (map (audited_by n) (keep (joins n) resources))

  views_of_all : List Resource → List NetBirdResource → List ResourceView
  views_of_all resources [] = []
  views_of_all resources (n ∷ ns) = views_of resources n ++ views_of_all resources ns

  -- ORDER BY n.network_name, n.name
  view_before : ResourceView → ResourceView → Bool
  view_before a b =
      if same a.resource.network_name b.resource.network_name
      then le_text a.resource.name b.resource.name
      else le_text a.resource.network_name b.resource.network_name

  unfoldable pub list_resource_views : M (List ResourceView)
  unfolding joins views_of views_of_all view_before no_audit audited_by or_unaudited with_support
      is_some
  list_resource_views = do
    statement
    gets
        (λ s. map with_support (sort_by view_before (views_of_all s.resources s.netbird_resources)))

  unfoldable pub netbird_row : Text → Db → Option NetBirdResource
  netbird_row id s = find (λ (r : NetBirdResource). same r.id id) s.netbird_resources

  enable_row : Text → Text → NetBirdResource → Option Text → M Unit
  enable_row protocol ports r none = fail not_an_ip
  enable_row protocol ports r (some cidr) =
      if not (protocol == codes "tcp") && not (protocol == codes "udp")
      then fail bad_protocol
      else add_resource (record {
        id = 0;
        name = r.name;
        cidr = cidr;
        protocol = protocol;
        ports = if trim_space ports == [] then codes "*" else ports;
        enabled = true;
      })

  enable_found : Text → Text → Option NetBirdResource → M Unit
  enable_found protocol ports none = fail no_rows
  enable_found protocol ports (some r) =
      enable_row protocol ports r (normalize_audit_cidr r.address)

  unfoldable pub enable_audit : Text → Text → Text → M Unit
  unfolding netbird_row enable_row enable_found
  enable_audit netbird_id protocol ports = do
    statement
    found ← gets (netbird_row netbird_id)
    enable_found protocol ports found
