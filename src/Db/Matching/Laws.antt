-- ===== src/Db/Matching/Laws.antt =====
-- Which resource MatchResource returns.
use net_bird_audit.Prelude.{
  In, ℕ, Text, Bool, true, ◌||◌, List, Option, none, some, text_eq, text_beq_iff, ◌≡◌, inl, inr,
  refl, arith, Option-cases,
}
use net_bird_audit.Text.{to_lower}
use net_bird_audit.Netip.{Addr, Prefix, parse_addr, parse_prefix, contains}
use net_bird_audit.Ports.{port_allowed}
use net_bird_audit.Db.Collation.{Collation, le_text}
use net_bird_audit.Db.Tables.{Db, Resource}
use net_bird_audit.Db.Query.{find, sort_by}
use net_bird_audit.Db.Query.Sorting.{find-sort_by, find-sort_by-none}
use net_bird_audit.Db.Monad.{ok, statement}
use net_bird_audit.Db.Resources.{list_resources}
use net_bird_audit.Db.Matching.{in_prefix, resource_matches, match_in, match_resource}

-- What it is for a resource to cover a destination.
abbrev pub Covers : Addr → ℕ → Text → Resource → Type 0
Covers ip port proto r =
    (p : Prefix) × (parse_prefix r.cidr ≡ some p)
    × (contains p ip ≡ true)
    × (r.enabled ≡ true)
    × (to_lower r.protocol ≡ to_lower proto)
    × (port_allowed r.ports port ≡ true)

in_prefix-true :
    (o : Option Prefix) (ip : Addr)
    → in_prefix o ip ≡ true
    → (p : Prefix) × (o ≡ some p) × (contains p ip ≡ true)
unfolding in_prefix
in_prefix-true none ip h = cc
in_prefix-true (some p) ip h = (p, refl, h)

matches-Covers :
    (ip : Addr) (port : ℕ) (proto : Text) (r : Resource)
    → resource_matches ip port proto r ≡ true
    → Covers ip port proto r
unfolding resource_matches
matches-Covers ip port proto r h =
    let (p, e, inside) = in_prefix-true (parse_prefix r.cidr) ip (ground arith) in
    (
      p,
      e,
      inside,
      ground arith,
      ground (arith, text_beq_iff (to_lower r.protocol) (to_lower proto)),
      ground arith,
    )

Covers-matches :
    (ip : Addr) (port : ℕ) (proto : Text) (r : Resource)
    → Covers ip port proto r
    → resource_matches ip port proto r ≡ true
unfolding resource_matches
Covers-matches ip port proto r (p, e, inside, on, same_proto, allowed) =
    ground (arith, text_beq_iff (to_lower r.protocol) (to_lower proto))

module _ ⦃c : Collation⦄ where
  by_name : Resource → Resource → Bool
  by_name a b = le_text a.name b.name

  by_name-total : (a b : Resource) → (by_name a b || by_name b a) ≡ true
  unfolding by_name le_text
  by_name-total a b = c.total a.name b.name

  by_name_trans : (a b d : Resource) → by_name a b ≡ true → by_name b d ≡ true → by_name a d ≡ true
  unfolding by_name le_text
  by_name_trans a b d = c.trans a.name b.name d.name

  found_in :
      (dst : Text) (port : ℕ) (proto : Text) (s : Db) (found : Option Resource)
      → (match_resource dst port proto s).0 ≡ ok found
      → match_in dst port proto (sort_by by_name s.resources) ≡ found
  unfolding match_resource list_resources statement by_name
  found_in dst port proto s found h = ground arith

  match_in-some :
      (dst : Text) (port : ℕ) (proto : Text) (rows : List Resource) (r : Resource)
      → match_in dst port proto rows ≡ some r
      → (ip : Addr) × (parse_addr dst ≡ some ip)
        × (find (resource_matches ip port proto) rows ≡ some r)
  unfolding match_in
  match_in-some dst port proto rows r h = elim (Option-cases (parse_addr dst)) [
    | inl bad ↦ absurd (ground arith)
    | inr (ip, good) ↦ (ip, good, ground arith)
  ]

  match_in-none :
      (dst : Text) (port : ℕ) (proto : Text) (rows : List Resource) (ip : Addr)
      → parse_addr dst ≡ some ip
      → match_in dst port proto rows ≡ none
      → find (resource_matches ip port proto) rows ≡ none
  unfolding match_in
  match_in-none dst port proto rows ip parsed h = ground arith

  -- The resource that is returned covers the destination, and no resource that covers it comes
  -- before it in the order of names.
  pub match_resource-some :
      (dst : Text) (port : ℕ) (proto : Text) (s : Db) (r : Resource)
      → (match_resource dst port proto s).0 ≡ ok (some r)
      → (ip : Addr) × (parse_addr dst ≡ some ip)
        × In r s.resources
        × Covers ip port proto r
        × ((b : Resource)
            → In b s.resources
            → Covers ip port proto b
            → le_text r.name b.name ≡ true)
  unfolding by_name
  match_resource-some dst port proto s r h =
      let (ip, parsed, found) =
        match_in-some dst port proto (sort_by by_name s.resources) r
          (found_in dst port proto s (some r) h) in
      let (member, matched, least) =
        find-sort_by by_name by_name-total by_name_trans (resource_matches ip port proto)
          s.resources r found in
      (
        ip,
        parsed,
        member,
        matches-Covers ip port proto r matched,
        λ b mb cb. least b mb (Covers-matches ip port proto b cb),
      )

  -- If no resource is returned and the destination is an address, no resource covers it.
  pub match_resource-none :
      (dst : Text) (port : ℕ) (proto : Text) (s : Db) (ip : Addr) (b : Resource)
      → (match_resource dst port proto s).0 ≡ ok none
      → parse_addr dst ≡ some ip
      → In b s.resources
      → ¬ Covers ip port proto b
  match_resource-none dst port proto s ip b h parsed member covers =
      let nothing : find (resource_matches ip port proto) (sort_by by_name s.resources) ≡ none =
        match_in-none dst port proto (sort_by by_name s.resources) ip parsed
          (found_in dst port proto s none h) in
      let no_match =
        find-sort_by-none by_name by_name-total by_name_trans (resource_matches ip port proto)
          s.resources b nothing member in
      cc (no_match, Covers-matches ip port proto b covers)
