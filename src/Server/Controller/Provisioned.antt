-- ===== src/Server/Controller/Provisioned.antt =====
-- What a provisioning of a Vault server that ends without an error has called.
use vault_operator.Base.{ℕ, String, ◌≡◌, Option, none, List, ◌∷◌, ◌++◌, Error, ok}
use vault_operator.Base.Act.{Act}
use vault_operator.Meta.{Vendor, AggregateLaw}
use vault_operator.PatchUtil.Status.{IsWritten}
use vault_operator.Server.Storage.{storage_config}
use vault_operator.Server.Cluster.{
  Server, Call, ensure_secret, ensure_config_map, ensure_app_binding, Event, Env, client, Outcome,
  calls,
}
use vault_operator.Server.Monitoring.Called.{IsMonitored}
use vault_operator.Server.Deploy.{
  VaultSrv, get_server_tls, vault_config, create_vault_config, deploy_vault, ensure_app_bindings,
}
use vault_operator.Server.Deploy.Performed.{log, objects_plan}
use vault_operator.Server.Controller.{with_ready, step, finish}
use vault_operator.Server.Controller.Passed.{config_lem}

-- What a provisioning leaves: `before` is the trace at its start and `after` at its end.
pub record IsProvisioned (v : Vendor) (env : Env) (vs : Server) (srv : VaultSrv)
    (before after : List Event) : Type 0 where
  -- The certificates of the server, as they were found or made.
  pub secret : String
  pub ca : Option String
  pub secret_lem : (get_server_tls v env vs before).0 ≡ ok (secret, ca)
  -- The configuration of the storage, got without an error.
  pub config : String
  pub config_read : List Event
  pub config_lem : storage_config (env.kube config_read) vs.meta.namespace srv.strg ≡ (config, none)
  -- What the monitoring called, and the certificate authority of the app binding.
  pub monitoring : List (Call × Option Error)
  pub monitoring_lem : IsMonitored v env vs.meta.name vs.spec.monitor monitoring
  pub binding_ca : Option String
  pub calls_lem :
      calls after
      ≡ (ensure_app_binding vs.meta.name binding_ca, none)
        ∷ (monitoring
            ++ log
                (ensure_secret secret
                  ∷ ensure_config_map
                      (v.name_with_suffix vs.meta.name "vault-config")
                      (vault_config config)
                  ∷ objects_plan v env vs srv)
                (calls before))
  -- The status of a success was written, over that of an object that was read.
  pub now : ℕ
  pub status : Option Server
  pub status_lem : IsWritten (client env) vs.meta (with_ready v vs.meta.generation now) status

module _ (v : Vendor) (env : Env) (law : AggregateLaw v) where
  abbrev binding_step : Server → Act Event Outcome
  binding_step vs =
      step v env vs "FailedToCreateAppBinding" "failed to deploy vault"
        (ensure_app_bindings v env vs) (finish v env vs)

  abbrev deploy_step : Server → VaultSrv → Act Event Outcome
  deploy_step vs srv =
      step v env vs "FailedToDeployVault" "failed to deploy vault" (deploy_vault v env vs srv)
        (binding_step vs)

  abbrev config_step : Server → VaultSrv → Act Event Outcome
  config_step vs srv =
      step v env vs "FailedToCreateVaultConfig" "failed to create vault config"
        (create_vault_config v env vs srv) (deploy_step vs srv)
