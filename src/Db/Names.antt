-- ===== src/Db/Names.antt =====
-- FlowUsers and FlowResources of internal/db/db.go, with distinctStrings.
pub mod Laws
use net_bird_audit.Prelude.{
  Text, Bool, true, false, not, List, [], ◌∷◌, Option, none, some, keep, map, if◌then◌else◌, ◌==◌,
  text_eq,
}
use net_bird_audit.Db.Collation.{Collation, same, le_text}
use net_bird_audit.Db.Tables.{Db, FlowRow}
use net_bird_audit.Db.Query.{sort_by}
use net_bird_audit.Db.Query.Grouping.{distinct}
use net_bird_audit.Db.Monad.{M, ◌>>=◌, ◌>>◌, gets, statement}

-- The loop of distinctStrings over the rows; `none` is NULL.
unfoldable pub scan_strings : List (Option Text) → List Text
scan_strings [] = []
scan_strings (none ∷ vs) = scan_strings vs
scan_strings (some v ∷ vs) = let rest = scan_strings vs in if v == [] then rest else v ∷ rest

module _ ⦃c : Collation⦄ where
  is_blank : Text → Bool
  is_blank t = same t []

  -- NULLIF(t, '')
  null_if_blank : Text → Option Text
  null_if_blank t = if is_blank t then none else some t

  -- COALESCE(NULLIF(user_email_snapshot,''), NULLIF(user_name_snapshot,''))
  user_label : FlowRow → Option Text
  user_label r = elim (null_if_blank r.user_email) [
    | none ↦ null_if_blank r.user_name
    | some e ↦ some e
  ]

  -- COALESCE(user_email_snapshot, user_name_snapshot, '') <> '': UpsertFlow always writes an e-mail
  -- address, which may be empty, and so the name is never reached.
  has_user : FlowRow → Bool
  has_user r = not (is_blank r.user_email)

  has_resource : FlowRow → Bool
  has_resource r = not (is_blank r.resource_name)

  same_label : Option Text → Option Text → Bool
  same_label none none = true
  same_label none (some u) = false
  same_label (some t) none = false
  same_label (some t) (some u) = same t u

  -- NULL comes first.
  le_label : Option Text → Option Text → Bool
  le_label none l = true
  le_label (some t) none = false
  le_label (some t) (some u) = le_text t u

  -- SELECT DISTINCT … ORDER BY v
  labels : (FlowRow → Bool) → (FlowRow → Option Text) → List FlowRow → List (Option Text)
  unfolding le_label same_label
  labels p f rows = sort_by le_label (distinct same_label (map f (keep p rows)))

  unfoldable pub flow_users : M (List Text)
  unfolding is_blank null_if_blank user_label has_user labels scan_strings
  flow_users = do statement; gets (λ s. scan_strings (labels has_user user_label s.flows))

  unfoldable pub flow_resources : M (List Text)
  unfolding is_blank has_resource labels scan_strings
  flow_resources = do
    statement
    gets (λ s. scan_strings (labels has_resource (λ r. some r.resource_name) s.flows))
