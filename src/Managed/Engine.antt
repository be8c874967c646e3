-- ===== src/Managed/Engine.antt =====
-- The controller of secret engines: pkg/controller/secret_engine.go.
pub mod Steps
pub mod Runs
use vault_operator.Base.{
  String, Option, none, some, List, [], ◌∷◌, if◌then◌else◌, Error, wrap, wrap_error, ok, err,
}
use vault_operator.Base.Act.{Act, pure, ◌>>=◌}
use vault_operator.Meta.{Object, Vendor, finalizer, condition_failed}
use vault_operator.Managed.World.{
  ManagedStatus, Event, Env, VaultCall, new_client, create_policy, update_auth_role, enable_engine,
  create_config, delete_policy_and_update_role, disable_engine, attempt, dispatch, with_failed,
  provisioned, update_status, patch_finalizers,
}
use Prim.Native.Nat.{ℕ}

abbrev pub with_available : Vendor → ℕ → ℕ → ManagedStatus → ManagedStatus
with_available v generation now status = record status {
  phase = "Success";
  conditions =
      provisioned v "secret engine is ready to use" now
        (v.remove_condition status.conditions condition_failed);
  observed_generation = generation;
}

abbrev pub processing : ManagedStatus → ManagedStatus
processing status = record status { phase = "Processing" }

module _ {Spec : Type 0} (v : Vendor) (env : Env Spec) where
  unfoldable pub fail :
      Object Spec ManagedStatus → String → String → Error → Act (Event Spec) (Option Error)
  fail se reason context e h =
      let (r, h') = update_status v env se.meta (with_failed v reason e (env.now h)) h in
      (v.new_aggregate (r.1 ∷ some (wrap context e) ∷ []), h')

  unfoldable pub finish : Object Spec ManagedStatus → Act (Event Spec) (Option Error)
  finish se h =
      let (r, h') =
        update_status v env se.meta (with_available v se.meta.generation (env.now h)) h in
      (r.1, h')

  -- The four steps of `reconcileSecretEngine`, from the last to the first.
  pub configure : Object Spec ManagedStatus → Act (Event Spec) (Option Error)
  configure se =
      attempt env create_config
        (fail se "FailedToCreateSecretEngineConfig" "failed to create secret engine config")
        (finish se)

  pub enable : Object Spec ManagedStatus → Act (Event Spec) (Option Error)
  enable se =
      attempt env enable_engine
        (fail se "FailedToEnableSecretEngine" "failed to enable secret engine") (configure se)

  pub authorize : Object Spec ManagedStatus → Act (Event Spec) (Option Error)
  authorize se =
      attempt env update_auth_role (fail se "FailedToUpdateAuthRole" "failed to update auth role")
        (enable se)

  unfoldable pub reconcile : Object Spec ManagedStatus → Act (Event Spec) (Option Error)
  reconcile se =
      attempt env create_policy
        (fail se "FailedToCreateSecretEnginePolicy" "failed to create secret engine policy")
        (authorize se)

  unfoldable pub remove_finalizer : Object Spec ManagedStatus → Act (Event Spec) (Option Error)
  remove_finalizer se = do
    e ← patch_finalizers v env v.remove_finalizer se
    pure (wrap_error "failed to remove finalizer for SecretEngine: %s/%s" e)

  pub disable : Object Spec ManagedStatus → Act (Event Spec) (Option Error)
  disable se =
      attempt env disable_engine (λ e. pure (some (wrap "failed to disable secret engine" e)))
        (remove_finalizer se)

  unfoldable pub clean_up : Object Spec ManagedStatus → Act (Event Spec) (Option Error)
  clean_up se =
      attempt env delete_policy_and_update_role
        (λ e. pure (some (wrap "failed to delete policy or update policy controller role" e)))
        (disable se)

  unfoldable pub run_finalizer : Object Spec ManagedStatus → Act (Event Spec) (Option Error)
  run_finalizer se = attempt env new_client (λ _. remove_finalizer se) (clean_up se)

  pub provision : Object Spec ManagedStatus → Act (Event Spec) (Option Error)
  provision se =
      attempt env new_client (λ e. pure (some e))
        (do e ← reconcile se; pure (wrap_error "for SecretEngine %s/%s:" e))

  -- The object that the status update returned is taken from there on.
  pub started :
      Object Spec ManagedStatus
      → (Option (Object Spec ManagedStatus) × Option Error) × List (Event Spec)
      → Option Error × List (Event Spec)
  started se ((result, some e), h) =
      (some (wrap "failed to update status for SecretEngine: %s/%s" e), h)
  started se ((some new_se, none), h) = provision new_se h
  started se ((none, none), h) = provision se h

  unfoldable pub serve : Object Spec ManagedStatus → Act (Event Spec) (Option Error)
  serve se h = elim se.status.conditions [
    | none ↦ started se (update_status v env se.meta processing h)
    | some _ ↦ provision se h
  ]

  -- What follows when the finalizer was added, or could not be.
  pub prepared :
      Object Spec ManagedStatus
      → Option Error × List (Event Spec)
      → Option Error × List (Event Spec)
  prepared se (some e, h) = (some (wrap "failed to add finalizer for secretEngine: %s/%s" e), h)
  prepared se (none, h) = serve se h

  unfoldable pub handle : Object Spec ManagedStatus → Act (Event Spec) (Option Error)
  handle se =
      dispatch se.meta.deletion_timestamp (v.has_finalizer se.meta finalizer) (run_finalizer se)
        (serve se) (λ h. prepared se (patch_finalizers v env v.add_finalizer se h))

  unfoldable pub run_injector : String → Act (Event Spec) (Option Error)
  run_injector key h = elim (env.get_by_key h key) [
    | err e ↦ (some e, h)
    | ok found ↦ elim found [ none ↦ (none, h) | some se ↦ handle se h ]
  ]
