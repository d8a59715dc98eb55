-- ===== src/Server/Routes/Laws.antt =====
-- What requests to the public server of Run, in internal/server/server.go, can read and change.
use net_bird_audit.Prelude.{
  Text, codes, Bool, text_eq, ◌≡◌, ◌≢◌, ◌⊎◌, inl, inr, refl, sym, ◌∙◌, arith, Bool-cases,
}
use net_bird_audit.Db.Collation.{Collation}
use net_bird_audit.Db.Tables.{Db}
use net_bird_audit.Db.Queries.{SameTables, KeepsRecords, KeepsRecords-of_SameTables}
use net_bird_audit.Auth.Sessions.{valid}
use net_bird_audit.Server.Types.{Server, World, Request, Response}
use net_bird_audit.Server.Access.{to_login, csrf_failed}
use net_bird_audit.Server.Access.Laws.{
  Admitted, require_auth-cases, require_auth_turned_away, DiscloseNothing, to_login-DiscloseNothing,
  csrf_failed-DiscloseNothing,
}
use net_bird_audit.Server.Login.{logout}
use net_bird_audit.Server.Login.Frame.{
  OnlyAudit, KeepsRecords-of_OnlyAudit, login-OnlyAudit, login-DiscloseNothing, login_get,
}
use net_bird_audit.Server.Admin.Laws.{
  action_handler, action_handler-other, enabling, deleting, syncing,
}
use net_bird_audit.Server.Admin.Frame.{
  delete_resource-KeepsRecords, enable_resource-KeepsRecords, sync_resources_handler-KeepsRecords,
}
use net_bird_audit.Server.Views.Frame.{
  overview-ReadsOnly, access_logs-ReadsOnly, vpn_sessions-ReadsOnly, resources_page-ReadsOnly,
  peers_page-ReadsOnly, system_health_page-ReadsOnly, export_flows_csv-ReadsOnly,
}
use net_bird_audit.Server.Routes.{
  Url, View, overview_view, logs_view, sessions_view, resources_view, peers_view, health_view,
  sync_view, enable_view, delete_view, export_view, Route, health_check, login_asset, app_asset,
  sign_in, sign_out, protected, public_route, Outside, answer_200, redirects, moved,
  with_clean_path, view_handler, route_handler, public_mux,
}

get_is_not_post : codes "GET" ≢ codes "POST"
get_is_not_post e = ground (arith, e)

module _ ⦃c : Collation⦄ where
  view_handler-KeepsRecords :
      (out : Outside) (url : Url) (v : View) (r : Request) (s : Server) (d : Db)
      → KeepsRecords d (view_handler out url v r (s, d)).1.1
  unfolding view_handler
  view_handler-KeepsRecords out url overview_view r s d =
      KeepsRecords-of_SameTables d _ (overview-ReadsOnly out.view r s d)
  view_handler-KeepsRecords out url logs_view r s d =
      KeepsRecords-of_SameTables d _ (access_logs-ReadsOnly out.view url.query r s d)
  view_handler-KeepsRecords out url sessions_view r s d =
      KeepsRecords-of_SameTables d _ (vpn_sessions-ReadsOnly out.view r s d)
  view_handler-KeepsRecords out url resources_view r s d =
      KeepsRecords-of_SameTables d _ (resources_page-ReadsOnly out.view r s d)
  view_handler-KeepsRecords out url peers_view r s d =
      KeepsRecords-of_SameTables d _ (peers_page-ReadsOnly out.view r s d)
  view_handler-KeepsRecords out url health_view r s d =
      KeepsRecords-of_SameTables d _ (system_health_page-ReadsOnly out.view r s d)
  view_handler-KeepsRecords out url sync_view r s d =
      sync_resources_handler-KeepsRecords out.sync_time out.db_time out.netbird_resources r s d
  view_handler-KeepsRecords out url enable_view r s d =
      enable_resource-KeepsRecords out.db_time r s d
  view_handler-KeepsRecords out url delete_view r s d =
      delete_resource-KeepsRecords out.db_time r s d
  view_handler-KeepsRecords out url export_view r s d =
      KeepsRecords-of_SameTables d _ (export_flows_csv-ReadsOnly out.export_time r s d)

  same_world : (d : Db) (s : Server) (w : World) → w ≡ (s, d) → SameTables d w.1
  same_world d s w e = rw e refl

  view_handler-SameTables :
      (out : Outside) (url : Url) (v : View) (r : Request) (s : Server) (d : Db)
      → r.method ≢ codes "POST"
      → SameTables d (view_handler out url v r (s, d)).1.1
  unfolding view_handler action_handler
  view_handler-SameTables out url overview_view r s d h = overview-ReadsOnly out.view r s d
  view_handler-SameTables out url logs_view r s d h = access_logs-ReadsOnly out.view url.query r s d
  view_handler-SameTables out url sessions_view r s d h = vpn_sessions-ReadsOnly out.view r s d
  view_handler-SameTables out url resources_view r s d h = resources_page-ReadsOnly out.view r s d
  view_handler-SameTables out url peers_view r s d h = peers_page-ReadsOnly out.view r s d
  view_handler-SameTables out url health_view r s d h = system_health_page-ReadsOnly out.view r s d
  view_handler-SameTables out url sync_view r s d h =
      same_world d s _
        (action_handler-other (syncing out.sync_time out.db_time out.netbird_resources) r (s, d) h)
  view_handler-SameTables out url enable_view r s d h =
      same_world d s _ (action_handler-other (enabling out.db_time) r (s, d) h)
  view_handler-SameTables out url delete_view r s d h =
      same_world d s _ (action_handler-other (deleting out.db_time) r (s, d) h)
  view_handler-SameTables out url export_view r s d h =
      export_flows_csv-ReadsOnly out.export_time r s d

  same_database : (d e : Db) → e ≡ d → SameTables d e
  same_database d e h = rw h refl

  route_handler-SameTables :
      (compare : Text → Text → Bool) (out : Outside) (url : Url) (p : Route) (r : Request)
      (s : Server) (d : Db)
      → r.method ≡ codes "GET"
      → SameTables d (route_handler compare out url p r (s, d)).1.1
  unfolding route_handler answer_200 logout
  route_handler-SameTables compare out url health_check r s d h = refl
  route_handler-SameTables compare out url login_asset r s d h = refl
  route_handler-SameTables compare out url app_asset r s d h = refl
  route_handler-SameTables compare out url sign_in r s d h =
      same_world d s _ (login_get compare out.signing_in r (s, d) h)
  route_handler-SameTables compare out url sign_out r s d h = refl
  route_handler-SameTables compare out url (protected v) r s d h =
      elim (require_auth-cases out.valid_time out.valid_later (view_handler out url v) r s d) [
        | inr (_, (_, same)) ↦ same_database d _ same
        | inl (_, (token, sent, runs)) ↦ rw runs (
            view_handler-SameTables out url v r
              (record s { sessions = (valid token out.valid_time out.valid_later s.sessions).1 }) d
              (λ post. get_is_not_post (sym h ∙ post)))
      ]

  -- A GET of the public server, whatever its path, its cookies and its query, changes no table of the
  -- database.
  pub public_mux-SameTables :
      (compare : Text → Text → Bool) (out : Outside) (url : Url) (r : Request) (s : Server) (d : Db)
      → r.method ≡ codes "GET"
      → SameTables d (public_mux compare out url r (s, d)).1.1
  unfolding public_mux with_clean_path
  public_mux-SameTables compare out url r s d h = elim (Bool-cases (redirects url r)) [
    | inl unclean ↦ rw unclean refl
    | inr clean ↦
        rw clean (route_handler-SameTables compare out url (public_route url.path) r s d h)
  ]

  route_handler-KeepsRecords :
      (compare : Text → Text → Bool) (out : Outside) (url : Url) (p : Route) (r : Request)
      (s : Server) (d : Db)
      → KeepsRecords d (route_handler compare out url p r (s, d)).1.1
  unfolding route_handler answer_200 logout
  route_handler-KeepsRecords compare out url health_check r s d = refl
  route_handler-KeepsRecords compare out url login_asset r s d = refl
  route_handler-KeepsRecords compare out url app_asset r s d = refl
  route_handler-KeepsRecords compare out url sign_in r s d =
      KeepsRecords-of_OnlyAudit d _ (login-OnlyAudit compare out.signing_in r s d)
  route_handler-KeepsRecords compare out url sign_out r s d = refl
  route_handler-KeepsRecords compare out url (protected v) r s d =
      elim (require_auth-cases out.valid_time out.valid_later (view_handler out url v) r s d) [
        | inr (_, (_, same)) ↦ rw same refl
        | inl (_, (token, sent, runs)) ↦ rw runs (
            view_handler-KeepsRecords out url v r
              (record s { sessions = (valid token out.valid_time out.valid_later s.sessions).1 }) d)
      ]

  -- No request to the public server, whoever sends it, changes the users, peers, VPN sessions and
  -- flows that are on record.
  pub public_mux-KeepsRecords :
      (compare : Text → Text → Bool) (out : Outside) (url : Url) (r : Request) (s : Server) (d : Db)
      → KeepsRecords d (public_mux compare out url r (s, d)).1.1
  unfolding public_mux with_clean_path
  public_mux-KeepsRecords compare out url r s d = elim (Bool-cases (redirects url r)) [
    | inl unclean ↦ rw unclean refl
    | inr clean ↦
        rw clean (route_handler-KeepsRecords compare out url (public_route url.path) r s d)
  ]

  -- Nothing is told, and nothing changes but the audit table.
  abbrev pub KeptOut : Db → Response × World → Type 0
  KeptOut d out = DiscloseNothing out.0.body × OnlyAudit d out.1.1

  guard_discloses_nothing :
      (a : Response) → (a ≡ to_login) ⊎ (a ≡ csrf_failed) → DiscloseNothing a.body
  guard_discloses_nothing a (inl e) = rw e to_login-DiscloseNothing
  guard_discloses_nothing a (inr e) = rw e csrf_failed-DiscloseNothing

  route_handler-KeptOut :
      (compare : Text → Text → Bool) (out : Outside) (url : Url) (p : Route) (r : Request)
      (s : Server) (d : Db)
      → ¬ Admitted out.valid_time out.valid_later s r
      → KeptOut d (route_handler compare out url p r (s, d))
  unfolding route_handler answer_200 logout
  route_handler-KeptOut compare out url health_check r s d h = (tt, refl)
  route_handler-KeptOut compare out url login_asset r s d h = (tt, refl)
  route_handler-KeptOut compare out url app_asset r s d h = (tt, refl)
  route_handler-KeptOut compare out url sign_in r s d h = (
    login-DiscloseNothing compare out.signing_in r s d,
    login-OnlyAudit compare out.signing_in r s d,
  )
  route_handler-KeptOut compare out url sign_out r s d h = (tt, refl)
  route_handler-KeptOut compare out url (protected v) r s d h =
      elim (require_auth-cases out.valid_time out.valid_later (view_handler out url v) r s d) [
        | inl (admitted, _) ↦ absurd (h admitted)
        | inr (_, (_, same)) ↦ (
          guard_discloses_nothing _ (
              require_auth_turned_away out.valid_time out.valid_later (view_handler out url v) r s d
                h),
          rw same refl,
        )
      ]

  -- Without the token of a valid session, and for a method that changes something without the CSRF
  -- token in the cookie and in the form, a request to the public server gets no page, no file and no
  -- text of an error from the database or from NetBird, whatever its path, and changes no table but
  -- the audit table.
  pub public_mux-KeptOut :
      (compare : Text → Text → Bool) (out : Outside) (url : Url) (r : Request) (s : Server) (d : Db)
      → ¬ Admitted out.valid_time out.valid_later s r
      → KeptOut d (public_mux compare out url r (s, d))
  unfolding public_mux with_clean_path moved
  public_mux-KeptOut compare out url r s d h = elim (Bool-cases (redirects url r)) [
    | inl unclean ↦ rw unclean (tt, refl)
    | inr clean ↦ rw clean (route_handler-KeptOut compare out url (public_route url.path) r s d h)
  ]
