-- ===== src/Managed/Policy.antt =====
-- The controller of Vault policies: pkg/controller/vault_policy.go.
pub mod Laws
pub mod Runs
use vault_operator.Base.{
  ℕ, String, not, ◌==◌, Option, none, some, List, [], ◌∷◌, if◌then◌else◌, Error, wrap, wrap_error,
  Result, ok, err,
}
use vault_operator.Base.Act.{Act, pure, ◌>>=◌}
use vault_operator.Meta.{ObjectMeta, Object, Vendor, finalizer, condition_failed}
use Prim.Native.String
use vault_operator.PatchUtil
use vault_operator.Managed.World.{
  ManagedStatus, Event, Env, new_client, ensure_policy, delete_policy, client, attempt, dispatch,
  with_failed, provisioned, update_status, patch_finalizers,
}

-- `policy` is the JSON object of `.spec.policy`, by what `json.Marshal` makes of it.
pub record PolicySpec : Type 0 where
  pub vault_ref : String
  pub vault_policy_name : String
  pub policy_document : String
  pub policy : Option (Result String)

abbrev pub VaultPolicy : Type 0
VaultPolicy = Object PolicySpec ManagedStatus

-- `k8s.<cluster>.<namespace>.<name>`, unless the spec has a name of its own; a cluster with no name
-- is `-`.
abbrev pub dotted : String → String → String → String
dotted cluster namespace name =
    String.◌++◌ "k8s."
      (String.◌++◌ cluster (String.◌++◌ "." (String.◌++◌ namespace (String.◌++◌ "." name))))

pub policy_name : String → VaultPolicy → String
policy_name cluster_name p =
    if not (p.spec.vault_policy_name == "")
    then p.spec.vault_policy_name
    else dotted (if cluster_name == "" then "-" else cluster_name) p.meta.namespace p.meta.name

-- The document: that of the spec, or the serialised policy if there is none.
unfoldable pub document : VaultPolicy → Result String
document p =
    if p.spec.policy_document == ""
    then (elim p.spec.policy [ none ↦ ok p.spec.policy_document | some text ↦ text ])
    else ok p.spec.policy_document

abbrev pub with_phase_failed : Vendor → Error → ℕ → ManagedStatus → ManagedStatus
with_phase_failed v e now status =
    with_failed v "FailedToPutPolicy" e now (record status { phase = "Failed" })

abbrev pub with_available : Vendor → ℕ → ℕ → ManagedStatus → ManagedStatus
with_available v generation now status = record status {
  phase = "Success";
  conditions =
      provisioned v "policy is ready to use" now
        (v.remove_condition status.conditions condition_failed);
  observed_generation = generation;
}

module _ (v : Vendor) (cluster_name : String) (env : Env PolicySpec) where
  unfoldable pub fail : VaultPolicy → Error → Act (Event PolicySpec) (Option Error)
  fail p e h =
      let (r, h') = update_status v env p.meta (with_phase_failed v e (env.now h)) h in
      (v.new_aggregate (r.1 ∷ some e ∷ []), h')

  unfoldable pub finish : VaultPolicy → Act (Event PolicySpec) (Option Error)
  finish p h =
      let (r, h') = update_status v env p.meta (with_available v p.meta.generation (env.now h)) h in
      (r.1, h')

  unfoldable pub reconcile : VaultPolicy → Act (Event PolicySpec) (Option Error)
  reconcile p = elim (document p) [
    | err e ↦ pure (some (wrap "failed to serialize VaultPolicy %s/%s. Reason: %v" e))
    | ok doc ↦ attempt env (ensure_policy (policy_name cluster_name p) doc) (fail p) (finish p)
  ]

  unfoldable pub remove_finalizer : VaultPolicy → Act (Event PolicySpec) (Option Error)
  remove_finalizer p h =
      let (r, h') =
        PatchUtil.try_patch v (client env) env.updates p
          (λ x. record x { meta = v.remove_finalizer x.meta finalizer }) h in
      (wrap_error "failed to remove finalizer for VaultPolicy: %s/%s" r.1, h')

  unfoldable pub clean_up : VaultPolicy → Act (Event PolicySpec) (Option Error)
  clean_up p =
      attempt env (delete_policy (policy_name cluster_name p))
        (λ e. pure (some (wrap "failed to delete vault policy" e))) (remove_finalizer p)

  unfoldable pub run_finalizer : VaultPolicy → Act (Event PolicySpec) (Option Error)
  run_finalizer p = attempt env new_client (λ _. remove_finalizer p) (clean_up p)

  pub provision : VaultPolicy → Act (Event PolicySpec) (Option Error)
  provision p =
      attempt env new_client (λ e. pure (some (wrap "for VaultPolicy %s/%s" e)))
        (do e ← reconcile p; pure (wrap_error "for VaultPolicy %s/%s" e))

  -- What follows when the finalizer was added, or could not be.
  pub prepared :
      VaultPolicy → Option Error × List (Event PolicySpec) → Option Error × List (Event PolicySpec)
  prepared p (some e, h) = (some (wrap "failed to add VaultPolicy finalizer for %s/%s" e), h)
  prepared p (none, h) = provision p h

  unfoldable pub handle : VaultPolicy → Act (Event PolicySpec) (Option Error)
  handle p =
      dispatch p.meta.deletion_timestamp (v.has_finalizer p.meta finalizer) (run_finalizer p)
        (provision p) (λ h. prepared p (patch_finalizers v env v.add_finalizer p h))

  unfoldable pub run_injector : String → Act (Event PolicySpec) (Option Error)
  run_injector key h = elim (env.get_by_key h key) [
    | err e ↦ (some e, h)
    | ok found ↦ elim found [ none ↦ (none, h) | some p ↦ handle p h ]
  ]
