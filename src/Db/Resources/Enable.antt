-- ===== src/Db/Resources/Enable.antt =====
-- What enabling the audit of a NetBird resource does to the table of audited resources.
use net_bird_audit.Prelude.{
  ℕ, Text, codes, true, false, not, ◌&&◌, List, [], Option, none, some, if◌then◌else◌, ◌==◌, nat_eq,
  text_eq, text_beq_iff, ◌≡◌, ◌⊎◌, refl, sym, ◌∙◌, arith,
}
use net_bird_audit.Text.{trim_space, to_lower}
use net_bird_audit.Db.Collation.{Collation, same, same_refl}
use net_bird_audit.Db.Tables.{Db, Resource, NetBirdResource}
use net_bird_audit.Db.Query.Laws.{find_sound}
use net_bird_audit.Db.Query.Keyed.{
  IsUnique, row_at, row_at-upsert, row_at-same, upsert-IsUnique, written, has,
}
use net_bird_audit.Db.Monad.{answer, ok, statement}
use net_bird_audit.Db.Resources.{
  normalize_audit_cidr, has_name, renew, put_resource, add_resource, netbird_row, enable_row,
  enable_found, enable_audit,
}

abbrev pub name_of : Resource → Text
name_of r = r.name

module _ ⦃c : Collation⦄ where
  -- The audited resource with a name.
  abbrev pub audited : Text → Db → Option Resource
  audited name s = row_at name_of name s.resources

  -- What the table holds under the name of `r` after AddResource.
  abbrev pub stored : Resource → Db → Resource
  stored r s =
      written (renew r) (record r { id = s.next_resource; protocol = to_lower r.protocol })
        (audited r.name s)

  renew-name : (r q : Resource) → name_of (renew r q) ≡ name_of q
  unfolding renew
  renew-name r q = refl

  pub audited-put_resource :
      (r : Resource) (name : Text) (s : Db)
      → audited name (put_resource r s)
        ≡ (if same r.name name then some (stored r s) else audited name s)
  unfolding put_resource has_name
  audited-put_resource r name s =
      row_at-upsert name_of (renew r) (renew-name r)
        (record r { id = s.next_resource; protocol = to_lower r.protocol }) name s.resources

  -- Names are unique, and AddResource keeps them so, whatever the server answers.
  pub add_resource-IsUnique :
      (r : Resource) (s : Db)
      → IsUnique name_of s.resources
      → IsUnique name_of (add_resource r s).1.resources
  unfolding add_resource statement put_resource has_name
  add_resource-IsUnique r s u k = ground (
    arith,
    u k,
    upsert-IsUnique name_of (renew r) (renew-name r)
        (record r { id = s.next_resource; protocol = to_lower r.protocol }) s.resources u k,
  )

  abbrev pub proper_ports : Text → Text
  proper_ports ports = if trim_space ports == [] then codes "*" else ports

  -- The row for an enabled resource.
  abbrev pub Audits : Text → Text → Text → Text → Resource → Type 0
  Audits name cidr protocol ports a =
      (same a.name name ≡ true)
      × (a.cidr ≡ cidr)
      × (a.protocol ≡ to_lower protocol)
      × (a.ports ≡ ports)
      × (a.enabled ≡ true)

  written-Audits :
      (r : Resource) (id : ℕ) (name : Text) (old : Option Resource)
      → r.enabled ≡ true
      → ((q : Resource) → old ≡ some q → same q.name r.name ≡ true)
      → Audits r.name r.cidr r.protocol r.ports
          (written (renew r) (record r { id = id; protocol = to_lower r.protocol }) old)
  unfolding renew
  written-Audits r id name none on found = (same_refl r.name, refl, refl, refl, on)
  written-Audits r id name (some q) on found = (found q refl, refl, refl, refl, on)

  row_at-name :
      (name : Text) (q : Resource) (rows : List Resource)
      → row_at name_of name rows ≡ some q
      → same q.name name ≡ true
  row_at-name name q rows h = (find_sound (has name_of name) rows q h).1

  stored-Audits :
      (r : Resource) (s : Db)
      → r.enabled ≡ true
      → Audits r.name r.cidr r.protocol r.ports (stored r s)
  stored-Audits r s on =
      written-Audits r s.next_resource r.name (audited r.name s) on
        (λ q h. row_at-name r.name q s.resources h)

  add_resource-ok :
      (r : Resource) (s : Db)
      → r.enabled ≡ true
      → (add_resource r s).0 ≡ ok tt
      → (a : Resource) × (audited r.name (add_resource r s).1 ≡ some a)
        × Audits r.name r.cidr r.protocol r.ports a
        × ((name : Text)
            → same r.name name ≡ false
            → audited name (add_resource r s).1 ≡ audited name s)
  unfolding add_resource statement
  add_resource-ok r s on h =
      let t = (statement s).1 in
      (
        stored r t,
        ground (arith, audited-put_resource r r.name t, same_refl r.name),
        stored-Audits r t on,
        λ name other. ground (arith, audited-put_resource r name t),
      )

  abbrev pub IsProtocol : Text → Type 0
  IsProtocol protocol = (protocol ≡ codes "tcp") ⊎ (protocol ≡ codes "udp")

  -- `s'` has an enabled row for the NetBird resource, and under other names what `s` has.
  abbrev pub Enables : Text → Text → NetBirdResource → Db → Db → Type 0
  Enables protocol ports r s s' =
      (cidr : Text) × (a : Resource) × (normalize_audit_cidr r.address ≡ some cidr)
      × IsProtocol protocol
      × (audited r.name s' ≡ some a)
      × Audits r.name cidr protocol (proper_ports ports) a
      × ((name : Text) → same r.name name ≡ false → audited name s' ≡ audited name s)

  enable_row-ok :
      (protocol ports : Text) (r : NetBirdResource) (cidr : Option Text) (s : Db)
      → normalize_audit_cidr r.address ≡ cidr
      → (enable_row protocol ports r cidr s).0 ≡ ok tt
      → Enables protocol ports r s (enable_row protocol ports r cidr s).1
  unfolding enable_row
  enable_row-ok protocol ports r none s e h = cc
  enable_row-ok protocol ports r (some cidr) s e h =
      let known : IsProtocol protocol =
        ground (arith, text_beq_iff protocol (codes "tcp"), text_beq_iff protocol (codes "udp")) in
      let passes : (not (protocol == codes "tcp") && not (protocol == codes "udp")) ≡ false =
        ground arith in
      let row : Resource = record {
        id = 0;
        name = r.name;
        cidr = cidr;
        protocol = protocol;
        ports = proper_ports ports;
        enabled = true;
      } in
      let (a, found, audits, others) = add_resource-ok row s refl (rw passes at h) in
      rw passes (cidr, a, e, known, found, audits, others)

  enable_found-ok :
      (protocol ports : Text) (found : Option NetBirdResource) (s : Db)
      → (enable_found protocol ports found s).0 ≡ ok tt
      → (r : NetBirdResource) × (found ≡ some r)
        × Enables protocol ports r s (enable_found protocol ports found s).1
  unfolding enable_found
  enable_found-ok protocol ports none s h = cc
  enable_found-ok protocol ports (some r) s h =
      (r, refl, enable_row-ok protocol ports r (normalize_audit_cidr r.address) s refl h)

  -- If EnableAuditForNetBirdResource succeeds, the cache has a resource with the id, its address is
  -- an IP or a prefix, the protocol is tcp or udp, the table has under its name an enabled row with
  -- the normalised prefix, the protocol and the ports (a star for none), and under every other
  -- name what it had.
  pub enable_audit-ok :
      (id protocol ports : Text) (s : Db)
      → (enable_audit id protocol ports s).0 ≡ ok tt
      → (r : NetBirdResource) × (netbird_row id s ≡ some r)
        × Enables protocol ports r s (enable_audit id protocol ports s).1
  unfolding enable_audit statement
  enable_audit-ok id protocol ports s h =
      let t = (statement s).1 in
      let good : answer s.outcomes ≡ ok tt = ground arith in
      let (r, found, enables) =
        enable_found-ok protocol ports (netbird_row id s) t (rw good at h) in
      (r, found, rw good enables)

  audited-same_name : (a b : Text) (s : Db) → same a b ≡ true → audited a s ≡ audited b s
  audited-same_name a b s h = row_at-same name_of a b s.resources h

  -- If a resource is enabled, and after it another one whose name the collation takes for the same,
  -- the row under the name of the first has the prefix of the second.
  pub enable_audit-same_name :
      (id id' protocol protocol' ports ports' : Text) (s : Db) (r r' : NetBirdResource)
      → (enable_audit id protocol ports s).0 ≡ ok tt
      → netbird_row id s ≡ some r
      → (enable_audit id' protocol' ports' (enable_audit id protocol ports s).1).0 ≡ ok tt
      → netbird_row id' (enable_audit id protocol ports s).1 ≡ some r'
      → same r'.name r.name ≡ true
      → (a : Resource) × (audited r.name
            (enable_audit id' protocol' ports' (enable_audit id protocol ports s).1).1
          ≡ some a)
        × (normalize_audit_cidr r'.address ≡ some a.cidr)
  enable_audit-same_name id id' protocol protocol' ports ports' s r r' first found second found'
        same_name =
      let t = (enable_audit id protocol ports s).1 in
      let (q, found_q, enables) = enable_audit-ok id' protocol' ports' t second in
      let (cidr, a, e, _, at, audits, _) = enables in
      let q_is : q ≡ r' = ground arith in
      let at' : audited r'.name (enable_audit id' protocol' ports' t).1 ≡ some a = rw (← q_is) at in
      (
        a,
        sym (audited-same_name r'.name r.name (enable_audit id' protocol' ports' t).1 same_name)
            ∙ at',
        rw (← q_is) (ground arith),
      )
