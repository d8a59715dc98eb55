-- ===== src/Server/Admin/Laws.antt =====
-- What the routes of the resources let through, and what they leave.
use net_bird_audit.Prelude.{
  Text, codes, true, false, List, ◌++◌, Option, some, ◌==◌, text_eq, nat_eq, text_beq_iff, ◌≡◌, ◌≢◌,
  ◌⊎◌, inl, inr, refl, ◌∙◌, ap, arith, Bool-cases,
}
use net_bird_audit.Time.{Time}
use net_bird_audit.Text.{trim_space, to_lower}
use net_bird_audit.Db.Collation.{Collation}
use net_bird_audit.Db.Tables.{Db, NetBirdResource}
use net_bird_audit.Db.Monad.{Result, ok, err, statement}
use net_bird_audit.Db.Audit.{log_admin_audit}
use net_bird_audit.Db.Resources.{enable_audit, netbird_row}
use net_bird_audit.Db.Resources.Enable.{Enables, enable_audit-ok}
use net_bird_audit.Server.Types.{Server, World, Request, Response, Handler}
use net_bird_audit.Server.Access.{require_auth, needs_csrf}
use net_bird_audit.Server.Access.Laws.{Admitted, HasCsrf, require_auth-cases}
use net_bird_audit.Server.Admin.{
  post_only, or_default, enabled, audited_action, delete_resource, enable_resource,
  sync_resources_handler,
}

-- The routes that change something, with what they read from outside.
pub data Action : Type 0 where
  enabling deleting : Time → Action
  syncing : Time → Time → Option (List NetBirdResource) → Action

module _ ⦃c : Collation⦄ where
  unfoldable pub action_handler : Action → Handler
  action_handler (enabling db_time) = enable_resource db_time
  action_handler (deleting db_time) = delete_resource db_time
  action_handler (syncing now db_time resources) = sync_resources_handler now db_time resources

  not_post : (m : Text) → m ≢ codes "POST" → (m == codes "POST") ≡ false
  not_post m h = ground (arith, text_beq_iff m (codes "POST"))

  pub action_handler-other :
      (a : Action) (r : Request) (w : World)
      → r.method ≢ codes "POST"
      → (action_handler a r w).1 ≡ w
  unfolding action_handler enable_resource delete_resource sync_resources_handler post_only
  action_handler-other (enabling db_time) r w h = rw (not_post r.method h)
  action_handler-other (deleting db_time) r w h = rw (not_post r.method h)
  action_handler-other (syncing now db_time resources) r w h = rw (not_post r.method h)

  post_needs_csrf : (m : Text) → m ≡ codes "POST" → needs_csrf m ≡ true
  unfolding needs_csrf
  post_needs_csrf m e = ground (arith, text_beq_iff m (codes "POST"))

  -- enableResource, deleteResource and syncResourcesHandler behind requireAuth leave the database
  -- alone, unless the request is a POST with the token of a valid session and with a CSRF token
  -- that is not empty and stands in the cookie and in the form.
  pub action_handler-guarded :
      (now later : Time) (a : Action) (r : Request) (s : Server) (d : Db)
      → ((require_auth now later (action_handler a) r (s, d)).1.1 ≡ d)
        ⊎ (r.method ≡ codes "POST") × Admitted now later s r × HasCsrf r
  action_handler-guarded now later a r s d =
      elim (require_auth-cases now later (action_handler a) r s d) [
        | inr (_, (_, same_db)) ↦ inl same_db
        | inl (admitted, (token, sent, runs)) ↦ elim (Bool-cases (r.method == codes "POST")) [
          | inl hit ↦
              let post : r.method ≡ codes "POST" = (text_beq_iff r.method (codes "POST")).0 hit in
              let (_, _, _, csrf) = admitted in
              inr (post, admitted, csrf (post_needs_csrf r.method post))
          | inr miss ↦ inl (
              ap (λ (out : Response × World). out.1.1) runs
              ∙ ap (λ (w : World). w.1)
                  (action_handler-other a r _
                    (λ post. ground (arith, text_beq_iff r.method (codes "POST")))))
        ]
      ]

  log_admin_audit-audited :
      (now : Time) (user action detail remote : Text) (d : Db)
      → (log_admin_audit now user action detail remote d).1.resources ≡ d.resources
  unfolding log_admin_audit statement
  log_admin_audit-audited now user action detail remote d = ground arith

  abbrev pub protocol_of : Request → Text
  protocol_of r = or_default (to_lower (trim_space (r.form (codes "protocol")))) (codes "tcp")

  abbrev pub ports_of : Request → Text
  ports_of r = or_default (trim_space (r.form (codes "ports"))) (codes "*")

  enabled-ok :
      (db_time : Time) (detail : Text) (r : Request) (s : Server) (out : Result (Unit {0}) × Db)
      → (enabled db_time detail r s out).0.status ≡ 303
      → (out.0 ≡ ok tt) × ((enabled db_time detail r s out).1.1.resources ≡ out.1.resources)
  unfolding enabled audited_action
  enabled-ok db_time detail r s (ok tt, d) h = (refl, log_admin_audit-audited _ _ _ _ _ d)
  enabled-ok db_time detail r s (err e, d) h = absurd (omega (arith, h))

  -- If enableResource sends the browser back to the page, NetBird's resource with the id of the
  -- form is audited: the table has an enabled row under its name with its normalised prefix, and
  -- with the protocol and the ports of the form, where an empty protocol is tcp and no ports are
  -- all ports; under every other name it has what it had.
  pub enable_resource-Enables :
      (db_time : Time) (r : Request) (s : Server) (d : Db)
      → (enable_resource db_time r (s, d)).0.status ≡ 303
      → (n : NetBirdResource) × (netbird_row (r.form (codes "netbird_id")) d ≡ some n)
        × Enables (protocol_of r) (ports_of r) n d (enable_resource db_time r (s, d)).1.1
  unfolding enable_resource post_only
  enable_resource-Enables db_time r s d h = elim (Bool-cases (r.method == codes "POST")) [
    | inr miss ↦ absurd (omega (arith, rw (enable_resource, post_only, miss) at h))
    | inl hit ↦
        let id = r.form (codes "netbird_id") in
        let out = enable_audit id (protocol_of r) (ports_of r) d in
        let detail = id ++ codes " " ++ protocol_of r ++ codes "/" ++ ports_of r in
        let h' : (enabled db_time detail r s out).0.status ≡ 303 = rw hit at h in
        let (done, same_rows) = enabled-ok db_time detail r s out h' in
        let (n, found, enables) = enable_audit-ok id (protocol_of r) (ports_of r) d done in
        (n, found, rw (hit, same_rows) enables)
  ]
