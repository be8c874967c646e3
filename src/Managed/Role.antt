-- ===== src/Managed/Role.antt =====
-- The controllers of Vault roles: pkg/controller/{mysql, mongodb, postgres, aws, azure, gcp}_role.go.
-- They have one text, but for the reason of a failed creation, the texts of errors and what a
-- success does to the condition of an earlier failure. The clock is read once for a status update.
pub mod Conditions
pub mod Finalizer
pub mod Runs
use vault_operator.Base.{
  ℕ, ◌/◌, ◌=ℕ◌, String, Bool, true, false, not, ◌&&◌, Option, none, some, List, [], ◌∷◌,
  if◌then◌else◌, Error, wrap, wrap_error, ok, err, is_nil,
}
use vault_operator.Base.Act.{Act, pure, ◌>>=◌}
use vault_operator.Meta.{Object, Vendor, finalizer, condition_failed}
use vault_operator.Managed.World.{
  ManagedStatus, Event, Env, new_client, create_role, delete_role, attempt, dispatch, with_failed,
  provisioned, update_status, patch_finalizers,
}

pub data Kind : Type 0 where
  mysql mongodb postgres aws azure gcp : Kind

abbrev pub failed_reason : Kind → String
failed_reason postgres = "FailedToCreateDatabaseRole"
failed_reason _ = "FailedToCreateRole"

abbrev pub finalizer_context : Kind → String
finalizer_context mongodb = "failed to set MongoDBRole finalizer for %s/%s"
finalizer_context postgres = "failed to add finalizer for postgresRole: %s/%s"
finalizer_context _ = "failed to add finalizer for %s: %s/%s"

abbrev pub create_context : Kind → String
create_context postgres = "failed to create role for postgresRole %s/%s"
create_context _ = "failed to create role"

abbrev pub delete_context : Kind → String
delete_context aws = "failed to delete aws role"
delete_context azure = "failed to delete azure role"
delete_context gcp = "failed to delete gcp role"
delete_context _ = "failed to delete database role"

-- `MongoDBRole` alone keeps the condition of an earlier failure.
abbrev pub clear_failed : Kind → Vendor → ManagedStatus → ManagedStatus
clear_failed mongodb v status = status
clear_failed _ v status = record status {
  conditions = v.remove_condition status.conditions condition_failed;
}

abbrev pub with_available : Kind → Vendor → ℕ → ℕ → ManagedStatus → ManagedStatus
with_available k v generation now status =
    let cleared = clear_failed k v status in
    record cleared {
      phase = "Success";
      conditions = provisioned v "role is ready to use" now cleared.conditions;
      observed_generation = generation;
    }

abbrev pub processing : ManagedStatus → ManagedStatus
processing status = record status { phase = "Processing" }

module _ {Spec : Type 0} (k : Kind) (v : Vendor) (env : Env Spec) where
  unfoldable pub fail : Object Spec ManagedStatus → Error → Act (Event Spec) (Option Error)
  fail role e h =
      let (r, h') =
        update_status v env role.meta (with_failed v (failed_reason k) e (env.now h)) h in
      (v.new_aggregate (r.1 ∷ some (wrap (create_context k) e) ∷ []), h')

  unfoldable pub finish : Object Spec ManagedStatus → Act (Event Spec) (Option Error)
  finish role h =
      let (r, h') =
        update_status v env role.meta (with_available k v role.meta.generation (env.now h)) h in
      (r.1, h')

  unfoldable pub reconcile : Object Spec ManagedStatus → Act (Event Spec) (Option Error)
  reconcile role = attempt env create_role (fail role) (finish role)

  unfoldable pub remove_finalizer : Object Spec ManagedStatus → Act (Event Spec) (Option Error)
  remove_finalizer role = do
    e ← patch_finalizers v env v.remove_finalizer role
    pure (wrap_error "failed to remove finalizer for %s: %s/%s" e)

  -- The deletion in Vault may fail with a client error (4xx), but not with another one.
  unfoldable pub delete : Object Spec ManagedStatus → Act (Event Spec) (Option Error)
  delete role h =
      let code = env.status_code h delete_role in
      attempt env delete_role
        (λ e.
          if not (code / 100 =ℕ 4)
          then pure (some (wrap (delete_context k) e))
          else remove_finalizer role)
        (remove_finalizer role) h

  unfoldable pub run_finalizer : Object Spec ManagedStatus → Act (Event Spec) (Option Error)
  run_finalizer role = attempt env new_client (λ _. remove_finalizer role) (delete role)

  pub provision : Object Spec ManagedStatus → Act (Event Spec) (Option Error)
  provision role =
      attempt env new_client (λ e. pure (some e))
        (do e ← reconcile role; pure (wrap_error "failed to reconcile %s: %s/%s" e))

  -- The object that the status update returned is taken from there on. It is never nil where the
  -- error is (`PatchUtil.Status`).
  pub started :
      Object Spec ManagedStatus
      → (Option (Object Spec ManagedStatus) × Option Error) × List (Event Spec)
      → Option Error × List (Event Spec)
  started role ((result, some e), h) = (some (wrap "failed to update status for %s: %s/%s" e), h)
  started role ((some new_role, none), h) = provision new_role h
  started role ((none, none), h) = provision role h

  unfoldable pub serve : Object Spec ManagedStatus → Act (Event Spec) (Option Error)
  serve role h = elim role.status.conditions [
    | none ↦ started role (update_status v env role.meta processing h)
    | some _ ↦ provision role h
  ]

  -- What follows when the finalizer was added, or could not be.
  pub prepared :
      Object Spec ManagedStatus
      → Option Error × List (Event Spec)
      → Option Error × List (Event Spec)
  prepared role (some e, h) = (some (wrap (finalizer_context k) e), h)
  prepared role (none, h) = serve role h

  unfoldable pub handle : Object Spec ManagedStatus → Act (Event Spec) (Option Error)
  handle role =
      dispatch role.meta.deletion_timestamp (v.has_finalizer role.meta finalizer)
        (run_finalizer role) (serve role)
        (λ h. prepared role (patch_finalizers v env v.add_finalizer role h))

  unfoldable pub run_injector : String → Act (Event Spec) (Option Error)
  run_injector key h = elim (env.get_by_key h key) [
    | err e ↦ (some e, h)
    | ok found ↦ elim found [ none ↦ (none, h) | some role ↦ handle role h ]
  ]
