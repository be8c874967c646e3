-- ===== src/Server/Controller/Passed.antt =====
-- What each step of a provisioning has called that ends without an error.
use vault_operator.Base.{
  String, ◌≡◌, ◌≢◌, refl, sym, ap, ◌∙◌, inl, inr, Option, none, some, Option-cases, Result-cases,
  Bool-cases, List, [], ◌∷◌, ◌++◌, Error, wrap, ok, arith,
}
use vault_operator.Base.Act.{Act, pure, ◌>>=◌}
use vault_operator.Meta.{ObjectMeta, Vendor, AggregateLaw, aggregate-ne-none}
use vault_operator.PatchUtil
use vault_operator.PatchUtil.Status.{IsWritten, update_status_ok}
use vault_operator.PatchUtil.Silent.{patch-IsSilent, update_status-IsSilent}
use vault_operator.Server.Storage.{storage_config}
use vault_operator.Server.Cluster.{
  Server, Call, ensure_secret, ensure_config_map, ensure_app_binding, Event, called, Env, client,
  Outcome, returned, panicked, attempt, plain, calls, calls-IsSilent,
}
use vault_operator.Server.Monitoring.Called.{IsMonitored, monitoring_lem}
use vault_operator.Server.Monitoring.{stats_service, manage_monitor}
use vault_operator.Server.Deploy.{
  VaultSrv, get_server_tls, vault_config, create_vault_tls_secret, create_vault_config,
  deploy_vault, ensure_app_bindings,
}
use vault_operator.Server.Deploy.Performed.{
  log, objects_plan, at_once, attempt-Performs, deploy_objects-Performs,
}
use vault_operator.Server.Controller.{with_failed, with_ready, fail, step, finish}

module _ (v : Vendor) (env : Env) where
  -- The server is read and written, but nothing else is called.
  create_or_patch-calls :
      (meta : ObjectMeta) (transform : Server → Server) (h : List Event)
      → calls (PatchUtil.create_or_patch v (client env) meta transform h).1 ≡ calls h
  unfolding PatchUtil.create_or_patch
  create_or_patch-calls meta transform h =
      elim (Option-cases (env.get h meta.namespace meta.name).1) [
        | inl p ↦ rw p (patch-IsSilent v (client env) calls (calls-IsSilent env) _ transform _)
        | inr (e, p) ↦ elim (Bool-cases (v.is_not_found e)) [
          | inl missing ↦ rw (p, missing) refl
          | inr other ↦ rw (p, other) refl
        ]
      ]

  fail-ne-none :
      AggregateLaw v
      → (vs : Server) (reason context : String) (e : Error) (h : List Event)
      → (fail v env vs reason context e h).0 ≢ returned none
  unfolding fail
  fail-ne-none law vs reason context e h p =
      let r =
        PatchUtil.update_status v (client env) env.updates vs.meta
          (with_failed v reason e (env.now h)) h in
      aggregate-ne-none v law r.0.1 (wrap context e) (ground arith)

  module _ (law : AggregateLaw v) (vs : Server) (reason context : String)
      (m rest : Act Event Outcome) (h : List Event)
      (ends : (step v env vs reason context m rest h).0 ≡ returned none) where
    passed :
        (o : Outcome)
        → (m h).0 ≡ o
        → ((m h).0 ≡ returned none) × (step v env vs reason context m rest h ≡ rest (m h).1)
    passed panicked p = absurd (ground arith)
    passed (returned none) p = (p, ground arith)
    passed (returned (some e)) p =
        absurd (fail-ne-none law vs reason context e (m h).1 (ground arith))

    -- A step that is passed ended without an error.
    pub step_lem :
        ((m h).0 ≡ returned none) × (step v env vs reason context m rest h ≡ rest (m h).1)
    step_lem = passed (m h).0 refl

  abbrev with_tls : String → Option String → Server → Server
  with_tls name ca x = record x {
    spec = record (x.spec) { tls = some (record { tls_secret = name; ca_bundle = ca }) };
  }

  abbrev write_tls : Server → String → Option String → Act Event Outcome
  write_tls vs name ca = do
    r ← PatchUtil.create_or_patch v (client env) vs.meta (with_tls name ca)
    pure (returned r.2)

  pub tls_secret_lem :
      (vs : Server) (h : List Event)
      → (create_vault_tls_secret v env vs h).0.0 ≡ returned none
      → (name : String) × (ca : Option String) × ((get_server_tls v env vs h).0 ≡ ok (name, ca))
        × (calls (create_vault_tls_secret v env vs h).1 ≡ (ensure_secret name, none) ∷ calls h)
  unfolding create_vault_tls_secret
  tls_secret_lem vs h ends = elim (Result-cases (get_server_tls v env vs h).0) [
    | inr (e, p) ↦ absurd (ground arith)
    | inl ((name, ca), p) ↦
        let m = write_tls vs name ca in
        let q : (create_vault_tls_secret v env vs h).0.0
            ≡ (attempt env plain (ensure_secret name) m h).0 =
          ground arith in
        let q' : (create_vault_tls_secret v env vs h).1
            ≡ (attempt env plain (ensure_secret name) m h).1 =
          ground arith in
        let (g, r, t) =
          (attempt-Performs env plain (ensure_secret name) m m [] (at_once m)).after h
            (sym q ∙ ends) in
        (
          name,
          ca,
          p,
          ap calls (q' ∙ ap (λ x. x.1) r) ∙ create_or_patch-calls vs.meta (with_tls name ca) g ∙ t,
        )
  ]

  -- A last call.
  call_lem :
      (c : Call) (h : List Event) (r : Outcome × List Event)
      → r ≡ attempt env plain c (pure (returned none)) h
      → r.0 ≡ returned none
      → calls r.1 ≡ (c, none) ∷ calls h
  call_lem c h r p ends = elim (Option-cases (env.call h c)) [
    | inl made ↦
        let q : attempt env plain c (pure (returned none)) h ≡ (returned none, called c none ∷ h) =
          ground arith in
        ap (λ x. calls x.1) (p ∙ q)
    | inr (x, failed) ↦ absurd (ground arith)
  ]

  pub config_lem :
      (vs : Server) (srv : VaultSrv) (h : List Event)
      → (create_vault_config v env vs srv h).0 ≡ returned none
      → (cfg : String) × (storage_config (env.kube h) vs.meta.namespace srv.strg ≡ (cfg, none))
        × (calls (create_vault_config v env vs srv h).1
            ≡ (
              ensure_config_map (v.name_with_suffix vs.meta.name "vault-config") (vault_config cfg),
              none,
            )
              ∷ calls h)
  unfolding create_vault_config
  config_lem vs srv h ends =
      let (cfg, e) = storage_config (env.kube h) vs.meta.namespace srv.strg in
      elim (Option-cases e) [
        | inr (x, p) ↦ absurd (ground arith)
        | inl p ↦ (
          cfg,
          ground arith,
          call_lem
              (ensure_config_map (v.name_with_suffix vs.meta.name "vault-config")
                (vault_config cfg))
              h (create_vault_config v env vs srv h) (ground arith) ends,
        )
      ]

  pub app_binding_lem :
      (vs : Server) (h : List Event)
      → (ensure_app_bindings v env vs h).0 ≡ returned none
      → (ca : Option String) × (calls (ensure_app_bindings v env vs h).1
          ≡ (ensure_app_binding vs.meta.name ca, none) ∷ calls h)
  unfolding ensure_app_bindings
  app_binding_lem vs h ends = elim (Result-cases (get_server_tls v env vs h).0) [
    | inr (e, p) ↦ absurd (ground arith)
    | inl ((name, ca), p) ↦ (
      ca,
      call_lem (ensure_app_binding vs.meta.name ca) h (ensure_app_bindings v env vs h)
          (ground arith) ends,
    )
  ]

  pub deploy_lem :
      (vs : Server) (srv : VaultSrv) (h : List Event)
      → (deploy_vault v env vs srv h).0 ≡ returned none
      → (extra : List (Call × Option Error)) × IsMonitored v env vs.meta.name vs.spec.monitor extra
        × (calls (deploy_vault v env vs srv h).1
            ≡ extra ++ log (objects_plan v env vs srv) (calls h))
  unfolding deploy_vault
  deploy_lem vs srv h ends =
      let rest : Act Event Outcome = stats_service v env vs >>= (λ _. manage_monitor v env vs) in
      let (g, p, q) = (deploy_objects-Performs v env vs srv rest).after h ends in
      let (extra, m, r) = monitoring_lem v env vs g (ap (λ x. x.0) (sym p) ∙ ends) in
      (extra, m, ap (λ x. calls x.1) p ∙ r ∙ ap (λ t. extra ++ t) q)

  pub finish-calls : (vs : Server) (h : List Event) → calls (finish v env vs h).1 ≡ calls h
  unfolding finish
  finish-calls vs h =
      update_status-IsSilent v (client env) calls (calls-IsSilent env) env.updates vs.meta _ h

  pub finish_ok :
      (vs : Server) (h : List Event)
      → (finish v env vs h).0 ≡ returned none
      → (status : Option Server) × IsWritten
          (client env)
          vs.meta
          (with_ready v vs.meta.generation (env.now h))
          status
  unfolding finish
  finish_ok vs h ends =
      let ready = with_ready v vs.meta.generation (env.now h) in
      let r = PatchUtil.update_status v (client env) env.updates vs.meta ready h in
      (
        r.0.0,
        update_status_ok v (client env) vs.meta ready env.updates h
            (elim (Option-cases r.0.1) [ inl p ↦ p | inr (e, p) ↦ absurd (ground arith) ]),
      )
