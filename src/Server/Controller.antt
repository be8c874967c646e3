-- ===== src/Server/Controller.antt =====
-- The controller of Vault servers: `runVaultServerInjector` and `reconcileVault` of
-- pkg/controller/vaultservers.go. The goroutines that it starts and stops are those of
-- Server.Routines.
pub mod Steps
pub mod Passed
pub mod Provisioned
use vault_operator.Base.{
  ℕ, String, Bool, Option, none, some, List, [], ◌∷◌, Error, wrap, wrap_error, Result, ok, err,
}
use vault_operator.Base.Act.{Act, pure, ◌>>=◌}
use vault_operator.Meta.{Vendor, Conditions, condition_failed, condition_true}
use vault_operator.PatchUtil
use vault_operator.Server.Health.{ServerStatus, monitor_key}
use vault_operator.Server.Cluster.{Server, Event, Env, client, Outcome, returned, panicked}
use vault_operator.Server.Deploy.{
  VaultSrv, new_vault, create_vault_tls_secret, create_vault_config, deploy_vault,
  ensure_app_bindings,
}
use vault_operator.Server.Routines.Reach.{Controllers, after_reconcile, after_gone}

abbrev pub condition_ready : String
condition_ready = "Ready"

abbrev pub key_of : Server → String
key_of vs = monitor_key vs.meta.namespace vs.meta.name

module _ (v : Vendor) where
  abbrev pub with_failed : String → Error → ℕ → ServerStatus → ServerStatus
  with_failed reason e now status = record status {
    conditions = v.set_condition now status.conditions (record {
      type = condition_failed;
      status = condition_true;
      observed_generation = 0;
      last_transition_time = 0;
      reason = reason;
      message = v.error_text e;
    });
  }

  abbrev pub with_ready : ℕ → ℕ → ServerStatus → ServerStatus
  with_ready generation now status = record status {
    observed_generation = generation;
    conditions = v.set_condition now status.conditions (record {
      type = condition_ready;
      status = condition_true;
      observed_generation = 0;
      last_transition_time = 0;
      reason = "Provisioned";
      message = "vault server is ready to use";
    });
  }

module _ (v : Vendor) (env : Env) where
  unfoldable pub fail : Server → String → String → Error → Act Event Outcome
  fail vs reason context e h =
      let (r, h') =
        PatchUtil.update_status v (client env) env.updates vs.meta
          (with_failed v reason e (env.now h)) h in
      (returned (v.new_aggregate (r.1 ∷ some (wrap context e) ∷ [])), h')

  -- `err = …; if err != nil { … }` around a step.
  abbrev pub step :
      Server → String → String → Act Event Outcome → Act Event Outcome → Act Event Outcome
  step vs reason context m rest h =
      let (o, h') = m h in
      elim o [
        | panicked ↦ (panicked, h')
        | returned e ↦ elim e [ some x ↦ fail vs reason context x h' | none ↦ rest h' ]
      ]

  unfoldable pub finish : Server → Act Event Outcome
  finish vs h =
      let (r, h') =
        PatchUtil.update_status v (client env) env.updates vs.meta
          (with_ready v vs.meta.generation (env.now h)) h in
      (returned (wrap_error "failed to update status" r.1), h')

  -- `reconcileVault` up to the goroutines. The TLS policy that the first step sets on the server is
  -- seen by the later ones.
  unfoldable pub provision : Server → VaultSrv → Act Event Outcome
  provision vs srv h =
      let ((o, vs'), h') = create_vault_tls_secret v env vs h in
      step vs "FailedToCreateVaultTLSSecret" "failed to create vault server tls secret" (pure o)
        (step vs' "FailedToCreateVaultConfig" "failed to create vault config"
          (create_vault_config v env vs' srv)
          (step vs' "FailedToDeployVault" "failed to deploy vault" (deploy_vault v env vs' srv) (
            step vs' "FailedToCreateAppBinding" "failed to deploy vault"
              (ensure_app_bindings v env vs') (finish vs'))))
        h'

  -- The goroutines are started last, after a provisioning without an error.
  abbrev pub started : Server → Outcome → Controllers → Controllers
  started vs panicked cs = cs
  started vs (returned (some e)) cs = cs
  started vs (returned none) cs = after_reconcile (key_of vs) cs

  unfoldable pub reconcile_vault :
      Server → VaultSrv → Controllers → Act Event (Outcome × Controllers)
  reconcile_vault vs srv cs = do o ← provision vs srv; pure (o, started vs o cs)

  abbrev pub wrapped : Outcome → Outcome
  wrapped panicked = panicked
  wrapped (returned e) = returned (wrap_error "for VaultServer %s/%s" e)

  -- The server is in the store.
  unfoldable pub handle : Server → Controllers → Act Event (Outcome × Controllers)
  unfolding reconcile_vault
  handle vs cs = elim vs.meta.deletion_timestamp [
    | some _ ↦ pure (returned none, cs)
    | none ↦ do
      r ← new_vault v env vs
      elim r [
        | err e ↦ pure (returned (some (wrap "for VaultServer %s/%s" e)), cs)
        | ok srv ↦ do r' ← reconcile_vault vs srv cs; pure (wrapped r'.0, r'.1)
      ]
  ]

  unfoldable pub run_injector : String → Controllers → Act Event (Outcome × Controllers)
  unfolding handle
  run_injector key cs h = elim (env.get_by_key h key) [
    | err e ↦ ((returned (some e), cs), h)
    | ok found ↦ elim found [
      | none ↦ ((returned none, after_gone key cs), h)
      | some vs ↦ handle vs cs h
    ]
  ]
