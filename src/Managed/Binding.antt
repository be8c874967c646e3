-- ===== src/Managed/Binding.antt =====
-- The controller of policy bindings: pkg/controller/vault_policy_binding.go.
pub mod Laws
pub mod Runs
pub mod Client
use vault_operator.Base.{
  ℕ, String, not, ◌==◌, Option, none, some, List, [], ◌∷◌, if◌then◌else◌, Error, wrap, wrap_error,
  Result, ok, err,
}
use vault_operator.Managed.Policy.{dotted}
use vault_operator.Base.Act.{Act, pure, ◌>>=◌}
use vault_operator.Meta.{ObjectMeta, Object, Vendor, finalizer, condition_failed}
use vault_operator.PatchUtil
use vault_operator.Managed.World.{
  ManagedStatus, Event, Env, new_client, ensure_binding, delete_binding, client, attempt, dispatch,
  with_failed, provisioned, update_status, patch_finalizers,
}

-- The fields that the controller reads.
pub record BindingSpec : Type 0 where
  pub vault_ref : String
  pub vault_role_name : String

abbrev pub VaultPolicyBinding : Type 0
VaultPolicyBinding = Object BindingSpec ManagedStatus

-- As for a policy (apis/policy/v1alpha1/vaultpolicybinding_helpers.go).
pub policy_binding_name : String → VaultPolicyBinding → String
policy_binding_name cluster_name b =
    if not (b.spec.vault_role_name == "")
    then b.spec.vault_role_name
    else dotted (if cluster_name == "" then "-" else cluster_name) b.meta.namespace b.meta.name

abbrev pub with_phase_failed : Vendor → Error → ℕ → ManagedStatus → ManagedStatus
with_phase_failed v e now status =
    with_failed v "FailedToEnsurePolicyBinding" e now (record status { phase = "Failed" })

abbrev pub with_available : Vendor → ℕ → ℕ → ManagedStatus → ManagedStatus
with_available v generation now status = record status {
  phase = "Success";
  conditions =
      provisioned v "policy binding is ready to use" now
        (v.remove_condition status.conditions condition_failed);
  observed_generation = generation;
}

module _ (v : Vendor) (cluster_name : String) (env : Env BindingSpec) where
  unfoldable pub fail : VaultPolicyBinding → Error → Act (Event BindingSpec) (Option Error)
  fail p e h =
      let (r, h') = update_status v env p.meta (with_phase_failed v e (env.now h)) h in
      (v.new_aggregate (r.1 ∷ some e ∷ []), h')

  unfoldable pub finish : VaultPolicyBinding → Act (Event BindingSpec) (Option Error)
  finish p h =
      let (r, h') = update_status v env p.meta (with_available v p.meta.generation (env.now h)) h in
      (r.1, h')

  unfoldable pub reconcile : VaultPolicyBinding → Act (Event BindingSpec) (Option Error)
  reconcile b =
      attempt env (ensure_binding (policy_binding_name cluster_name b)) (fail b) (finish b)

  unfoldable pub remove_finalizer : VaultPolicyBinding → Act (Event BindingSpec) (Option Error)
  remove_finalizer p h =
      let (r, h') =
        PatchUtil.try_patch v (client env) env.updates p
          (λ x. record x { meta = v.remove_finalizer x.meta finalizer }) h in
      (wrap_error "failed to remove finalizer for VaultPolicyBinding: %s/%s" r.1, h')

  unfoldable pub clean_up : VaultPolicyBinding → Act (Event BindingSpec) (Option Error)
  clean_up p =
      attempt env (delete_binding (policy_binding_name cluster_name p))
        (λ e. pure (some (wrap "failed to delete the auth role created for policy binding" e)))
        (remove_finalizer p)

  unfoldable pub run_finalizer : VaultPolicyBinding → Act (Event BindingSpec) (Option Error)
  run_finalizer p = attempt env new_client (λ _. remove_finalizer p) (clean_up p)

  pub provision : VaultPolicyBinding → Act (Event BindingSpec) (Option Error)
  provision p =
      attempt env new_client (λ e. pure (some (wrap "for VaultPolicyBinding %s/%s" e)))
        (do e ← reconcile p; pure (wrap_error "for VaultPolicyBinding %s/%s" e))

  -- What follows when the finalizer was added, or could not be.
  pub prepared :
      VaultPolicyBinding
      → Option Error × List (Event BindingSpec)
      → Option Error × List (Event BindingSpec)
  prepared p (some e, h) = (some (wrap "failed to add VaultPolicyBinding finalizer for %s/%s" e), h)
  prepared p (none, h) = provision p h

  unfoldable pub handle : VaultPolicyBinding → Act (Event BindingSpec) (Option Error)
  handle p =
      dispatch p.meta.deletion_timestamp (v.has_finalizer p.meta finalizer) (run_finalizer p)
        (provision p) (λ h. prepared p (patch_finalizers v env v.add_finalizer p h))

  unfoldable pub run_injector : String → Act (Event BindingSpec) (Option Error)
  run_injector key h = elim (env.get_by_key h key) [
    | err e ↦ (some e, h)
    | ok found ↦ elim found [ none ↦ (none, h) | some p ↦ handle p h ]
  ]
