-- ===== src/Server/Deploy.antt =====
-- How a Vault server is deployed: `NewVault` and `GetServerTLS` of pkg/controller/vault.go,
-- `CreateVaultTLSSecret`, `CreateVaultConfig` and `DeployVault` of pkg/controller/vaultservers.go
-- and `ensureAppBindings` of pkg/controller/appbinding.go. The calls of the
-- event recorder and of the log are left out.
pub mod Performed
use vault_operator.Base.{
  String, not, Option, none, some, List, [], ◌∷◌, ◌==◌, if◌then◌else◌, wrap, Result, ok, err,
}
use vault_operator.Base.Act.{Act, pure, ◌>>=◌}
use vault_operator.Meta.{Vendor}
use vault_operator.PatchUtil
use vault_operator.Server.Spec.{VaultServer, TlsPolicy, UnsealerSpec}
use vault_operator.Server.Storage.{Storage, new_storage, storage_config}
use vault_operator.Server.Unsealer.{Unsealer, new_unsealer_service}
use vault_operator.Server.Monitoring
use vault_operator.Server.Cluster.{
  Server, ensure_secret, ensure_config_map, ensure_service_account, ensure_service, ensure_role,
  ensure_role_binding, ensure_cluster_role_binding, apply_pod_template, ensure_deployment,
  ensure_app_binding, Event, Env, client, Outcome, returned, attempt, plain,
}
use Prim.Native.String

-- `vaultSrv`, as far as the model reads it; its `vs` is the server that the caller holds too.
pub record VaultSrv : Type 0 where
  pub strg : Storage
  pub unslr : Option (UnsealerSpec × Unsealer)

abbrev pub vault_server : Server → VaultServer
vault_server vs = record { name = vs.meta.name; namespace = vs.meta.namespace; spec = vs.spec }

-- `GetRBAC` of the unsealers: the names of the roles.
abbrev pub get_rbac : Option (UnsealerSpec × Unsealer) → String → List String
get_rbac none prefix = []
get_rbac (some (u, Unsealer.kubernetes s)) prefix =
    String.◌++◌ prefix "-unsealer-secret-reader" ∷ []
get_rbac (some (u, Unsealer.google s)) prefix = []
get_rbac (some (u, Unsealer.aws s)) prefix = []
get_rbac (some (u, Unsealer.azure s)) prefix = []

abbrev listener_config : String
listener_config =
    "\nlistener \"tcp\" {\n  address = \"0.0.0.0:8200\"\n  cluster_address = \"0.0.0.0:8201\"\n  tls_cert_file = \"/etc/vault/tls/tls.crt\"\n  tls_key_file  = \"/etc/vault/tls/tls.key\"\n}\n"

abbrev telemetry_config : String
telemetry_config = "telemetry {\n  statsd_address = \"0.0.0.0:9125\"\n}"

-- `fmt.Sprintf("%s\n%s\n%s", …)`.
abbrev pub vault_config : String → String
vault_config storage_cfg =
    String.◌++◌ listener_config
      (String.◌++◌ "\n" (String.◌++◌ storage_cfg (String.◌++◌ "\n" telemetry_config)))

module _ (v : Vendor) (env : Env) where
  unfoldable pub new_vault : Server → Act Event (Result VaultSrv)
  new_vault vs h = elim ((env.kube h).get_version vs.spec.version) [
    | some e ↦ (err (wrap "failed to get vault server version" e), h)
    | none ↦ elim (new_storage (env.kube h) (vault_server vs)) [
      | err e ↦ (err e, h)
      | ok strg ↦ elim (new_unsealer_service vs.spec.unsealer (env.new_for_config h)) [
        | err e ↦ (err e, h)
        | ok unslr ↦ (ok (record { strg = strg; unslr = unslr }), h)
      ]
    ]
  ]

  abbrev tls_secret_name : Server → String
  tls_secret_name vs = v.name_with_suffix vs.meta.name "vault-tls"

  -- The secret that a policy without a name of one gets, with the policy that `vs` has afterwards:
  -- an existing secret, or new certificates.
  unfoldable pub own_tls :
      Server → TlsPolicy → List Event → Result (String × Option String) × TlsPolicy
  own_tls vs tls h = elim ((env.kube h).get_secret vs.meta.namespace tls.tls_secret) [
    | ok sr ↦ (ok (tls.tls_secret, tls.ca_bundle), tls)
    | err _ ↦ elim (env.new_certificates h) [
      | err e ↦ (err e, tls)
      | ok ca ↦ (ok (tls.tls_secret, some ca), record tls { ca_bundle = some ca })
    ]
  ]

  -- The policy is set on the server that the caller holds.
  unfoldable pub get_server_tls :
      Server → List Event → Result (String × Option String) × Option TlsPolicy
  unfolding own_tls
  get_server_tls vs h = elim vs.spec.tls [
    | none ↦
        let r = own_tls vs (record { tls_secret = tls_secret_name vs; ca_bundle = none }) h in
        (r.0, some r.1)
    | some tls ↦
        if not (tls.tls_secret == "")
        then (
          elim ((env.kube h).get_secret vs.meta.namespace tls.tls_secret) [
            | err e ↦ err e
            | ok sr ↦ ok (tls.tls_secret, tls.ca_bundle)
          ],
          some tls,
        )
        else let r = own_tls vs tls h in (r.0, some r.1)
  ]

  -- The server comes back with the policy that was set on it.
  unfoldable pub create_vault_tls_secret : Server → Act Event (Outcome × Server)
  create_vault_tls_secret vs h =
      let (r, tls) = get_server_tls vs h in
      let vs' = record vs { spec = record (vs.spec) { tls = tls } } in
      let out : Outcome × List Event = elim r [
        | err e ↦ (returned (some e), h)
        | ok (name, ca) ↦
            attempt env plain (ensure_secret name)
              (do
                r' ← PatchUtil.create_or_patch v (client env) vs.meta (λ x. record x {
                  spec = record (x.spec) {
                    tls = some (record { tls_secret = name; ca_bundle = ca });
                  };
                })
                pure (returned r'.2))
              h
      ] in
      ((out.0, vs'), out.1)

  unfoldable pub create_vault_config : Server → VaultSrv → Act Event Outcome
  create_vault_config vs srv h =
      let (storage_cfg, e) = storage_config (env.kube h) vs.meta.namespace srv.strg in
      elim e [
        | some x ↦ (returned (some (wrap "failed to get storage config" x)), h)
        | none ↦
            attempt env plain
              (ensure_config_map (v.name_with_suffix vs.meta.name "vault-config")
                (vault_config storage_cfg))
              (pure (returned none)) h
      ]

  -- The loops of `ensureRoleAndRoleBinding`: first all roles, then all role bindings.
  unfoldable pub ensure_roles : List String → Act Event Outcome → Act Event Outcome
  ensure_roles [] rest = rest
  ensure_roles (r ∷ roles) rest =
      attempt env (wrap "failed to create rbac role %s/%s") (ensure_role r)
        (ensure_roles roles rest)

  unfoldable pub ensure_role_bindings : List String → Act Event Outcome → Act Event Outcome
  ensure_role_bindings [] rest = rest
  ensure_role_bindings (r ∷ roles) rest =
      attempt env (wrap "failed to create rbac role binding %s/%s") (ensure_role_binding r)
        (ensure_role_bindings roles rest)

  abbrev reviewer : Server → String
  reviewer vs = v.name_with_suffix vs.meta.name "k8s-token-reviewer"

  -- The calls of `DeployVault` up to the deployment.
  unfoldable pub deploy_objects : Server → VaultSrv → Act Event Outcome → Act Event Outcome
  unfolding ensure_roles ensure_role_bindings
  deploy_objects vs srv rest =
      let roles = get_rbac srv.unslr vs.meta.name in
      attempt env plain (ensure_service_account vs.meta.name) (
        attempt env plain (ensure_service_account (reviewer vs)) (
          attempt env plain (ensure_service vs.meta.name) (
            ensure_roles roles (
              ensure_role_bindings roles (
                attempt env (wrap "failed to create rbac role %s/%s")
                  (ensure_cluster_role_binding (String.◌++◌ vs.meta.name "-k8s-token-reviewer"))
                  (attempt env plain apply_pod_template
                    (attempt env plain (ensure_deployment vs.meta.name) rest)))))))

  unfoldable pub deploy_vault : Server → VaultSrv → Act Event Outcome
  unfolding deploy_objects
  deploy_vault vs srv =
      deploy_objects vs srv
        (do _ ← Monitoring.stats_service v env vs; Monitoring.manage_monitor v env vs)

  -- `ensureAppBindings` takes the certificate authority of the server's TLS policy.
  unfoldable pub ensure_app_bindings : Server → Act Event Outcome
  ensure_app_bindings vs h = elim (get_server_tls vs h).0 [
    | err e ↦ (returned (some e), h)
    | ok (name, ca) ↦
        attempt env plain (ensure_app_binding vs.meta.name ca) (pure (returned none)) h
  ]
