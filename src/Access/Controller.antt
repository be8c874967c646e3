-- ===== src/Access/Controller.antt =====
-- The controllers of access requests: pkg/controller/{db_access_request, aws_access_key_request,
-- azure_access_key_request, gcp_access_key_request, access_key_request}.go, one text for all four.
-- The clock is read once for a status update, also where the update is tried again.
pub mod Calls
pub mod Reconcile
pub mod Issue
pub mod Undo
pub mod Served
use vault_operator.Base.{
  ℕ, String, not, ◌||◌, Option, none, some, List, [], ◌∷◌, ◌==◌, if◌then◌else◌, Error, message,
  wrap, wrap_error, ok, err, is_nil,
}
use vault_operator.Base.Act.{Act, pure, ◌>>=◌}
use vault_operator.Meta.{
  ObjectMeta, Vendor, finalizer, condition_failed, condition_available, condition_true,
  condition_request_approved,
}
use vault_operator.PatchUtil
use Prim.Native.String
use vault_operator.Access.Request.{
  Kind, database, aws, azure, gcp, resource_kind, Request, RequestStatus, Lease, Credential,
  lease_of, phase_waiting_for_approval, condition_type, successfully_processed,
}
use vault_operator.Access.World.{Event, Env, CredentialManager, client, new_manager, delete_secret}

-- `getSecretAccessRoleName`.
pub access_role_name : Kind → Vendor → String → String → String
access_role_name k v namespace name =
    v.name_with_suffix
      (String.◌++◌ (resource_kind k)
        (String.◌++◌ "-" (String.◌++◌ namespace (String.◌++◌ "-" name))))
      "cred-reader"

pub revoke_lease : Option CredentialManager → Option Lease → Act Event (Option Error)
revoke_lease none lease = pure (some (message "credential manager is empty"))
revoke_lease (some cm) none = pure none
revoke_lease (some cm) (some lease) = if lease.id == "" then pure none else cm.revoke_lease lease.id

abbrev pub finalizer_context : Kind → String
finalizer_context database = "failed to set DatabaseAccessRequest finalizer for %s/%s"
finalizer_context aws = "failed to add finalizer for AWSAccessKeyRequest: %s/%s"
finalizer_context azure = "failed to set AzureAccessKeyRequest finalizer for %s/%s"
finalizer_context gcp = "failed to add GCPAccessKeyRequest finalizer for %s/%s"

-- The status that a failed step leaves, and the one of a request that was served.
abbrev pub with_failed : Vendor → String → Error → ℕ → RequestStatus → RequestStatus
with_failed v reason e now status = record status {
  conditions = v.set_condition now status.conditions (record {
    type = condition_failed;
    status = condition_true;
    observed_generation = 0;
    last_transition_time = now;
    reason = reason;
    message = v.error_text e;
  });
}

abbrev pub with_available : Vendor → ℕ → ℕ → RequestStatus → RequestStatus
with_available v generation now status = record status {
  conditions = v.set_condition now (v.remove_condition status.conditions condition_failed) (record {
    type = condition_available;
    status = condition_true;
    observed_generation = 0;
    last_transition_time = now;
    reason = "SuccessfullyIssuedCredential";
    message = "The requested credentials successfully issued.";
  });
  observed_generation = generation;
}

abbrev pub with_references : Credential → String → RequestStatus → RequestStatus
with_references cred secret_name status = record status {
  lease = some (lease_of cred);
  secret = some secret_name;
}

abbrev pub without_references : ℕ → RequestStatus → RequestStatus
without_references generation status = record status {
  secret = none;
  lease = none;
  observed_generation = generation;
}

abbrev pub waiting : RequestStatus → RequestStatus
waiting status =
    if status.phase == "" then record status { phase = phase_waiting_for_approval } else status

module _ (k : Kind) (v : Vendor) (env : Env) where
  unfoldable pub update_status :
      Request → (RequestStatus → RequestStatus) → Act Event (Option Error)
  update_status req transform h =
      let (r, h') = PatchUtil.update_status v (client env) env.updates req.meta transform h in
      (r.1, h')

  -- `PatchXRequest` with a change of the finalizers.
  unfoldable pub patch_finalizers :
      (ObjectMeta → String → ObjectMeta) → Request → Act Event (Option Error)
  patch_finalizers change req h =
      let (r, h') =
        PatchUtil.patch v (client env) req (λ x. record x { meta = change x.meta finalizer }) h in
      (r.2, h')

  -- The status update after a failed step, and the error that the step returns.
  unfoldable pub fail : Request → String → Error → Act Event (Option Error)
  fail req reason e h =
      let (e', h') = update_status req (with_failed v reason e (env.now h)) h in
      (v.new_aggregate (e' ∷ some e ∷ []), h')

  unfoldable pub finish : Request → Act Event (Option Error)
  finish req h = update_status req (with_available v req.meta.generation (env.now h)) h

  unfoldable pub bind_role : CredentialManager → Request → Act Event (Option Error)
  bind_role cm req =
      let role_name = access_role_name k v req.meta.namespace req.meta.name in
      do
        e ← cm.create_role_binding role_name req.meta.namespace role_name req.spec.subjects
        elim e [ some e ↦ fail req "FailedToCreateRoleBinding" e | none ↦ finish req ]

  unfoldable pub grant : CredentialManager → Request → String → Act Event (Option Error)
  grant cm req secret_name = do
    e ←
        cm.create_role (access_role_name k v req.meta.namespace req.meta.name) req.meta.namespace
          secret_name
    elim e [ some e ↦ fail req "FailedToCreateRole" e | none ↦ bind_role cm req ]

  pub undo_credential : CredentialManager → Request → Credential → Error → Act Event (Option Error)
  undo_credential cm req cred e =
      if cred.lease_id == "" then fail req "FailedToCreateSecret" e else (do
        e' ← cm.revoke_lease cred.lease_id
        elim e' [
          | some _ ↦ pure (some (wrap "failed to revoke lease with %v" e))
          | none ↦ fail req "FailedToCreateSecret" e
        ])

  -- Role and binding follow once the references stand in the status.
  pub published :
      CredentialManager → Request → String → Option Error × List Event → Option Error × List Event
  published cm req secret_name (some e, h) = (some e, h)
  published cm req secret_name (none, h) = grant cm req secret_name h

  unfoldable pub publish :
      CredentialManager → Request → Credential → String → Act Event (Option Error)
  unfolding published
  publish cm req cred secret_name h =
      published cm req secret_name (update_status req (with_references cred secret_name) h)

  unfoldable pub store_credential :
      CredentialManager → Request → Credential → Act Event (Option Error)
  store_credential cm req cred h =
      let secret_name = env.uniq_suffix h req.meta.name in
      (do
        e ← cm.create_secret secret_name req.meta.namespace cred
        elim e [ some e ↦ undo_credential cm req cred e | none ↦ publish cm req cred secret_name ])
        h

  unfoldable pub reconcile : CredentialManager → Request → Act Event (Option Error)
  reconcile cm req =
      if not (is_nil req.status.lease) || not (is_nil req.status.secret)
      then pure (some (message "lease or secret ref is not empty"))
      else (do
        r ← cm.get_credential
        elim r [
          | err e ↦ fail req "FailedToGetCredential" e
          | ok cred ↦ store_credential cm req cred
        ])

  pub delete_cred_secret : Request → Act Event (Option Error)
  delete_cred_secret req = elim req.status.secret [
    | none ↦ pure none
    | some name ↦ delete_secret env req.meta.namespace name
  ]

  unfoldable pub remove_finalizer : Request → Act Event (Option Error)
  remove_finalizer req = do
    e ← patch_finalizers v.remove_finalizer req
    pure (wrap_error "%s/%s finalizer: %v" e)

  unfoldable pub run_finalizer : Request → Act Event (Option Error)
  run_finalizer req = do
    r ← new_manager env req
    elim r [
      | err e ↦ remove_finalizer req
      | ok cm ↦ do
        e ← revoke_lease (some cm) req.status.lease
        elim e [ some e ↦ pure (some (wrap "%s/%s finalizer: %v" e)) | none ↦ remove_finalizer req ]
    ]

  -- What follows a failed `reconcile`.
  pub roll_back : CredentialManager → Request → Error → Act Event (Option Error)
  roll_back cm req e = do
    e1 ← revoke_lease (some cm) req.status.lease
    e2 ← delete_cred_secret req
    (if not (is_nil e1) || not (is_nil e2) then pure (v.new_aggregate (e2 ∷ e1 ∷ [])) else (do
      e3 ← update_status req (without_references req.meta.generation)
      pure (wrap_error "For %s %s/%s" (v.new_aggregate (e3 ∷ some e ∷ [])))))

  pub serve_approved : Request → Act Event (Option Error)
  serve_approved req = if successfully_processed req then pure none else (do
    r ← new_manager env req
    elim r [
      | err e ↦ λ h.
          let (e', h') =
            update_status req
              (λ s. record (with_failed v "FailedToCreateCredentialManager" e (env.now h) s) {
                observed_generation = req.meta.generation;
              })
              h in
          (v.new_aggregate (e' ∷ some e ∷ []), h')
      | ok cm ↦ do e ← reconcile cm req; elim e [ none ↦ pure none | some e ↦ roll_back cm req e ]
    ])

  -- The request has its finalizer: what its conditions say is done.
  pub serve : Request → Act Event (Option Error)
  unfolding serve_approved
  serve req =
      let t = condition_type req in
      if t == ""
      then (do e ← update_status req waiting; pure (wrap_error "failed to update the status" e))
      else if t == condition_request_approved
      then serve_approved req
      else pure none

  unfoldable pub handle : Request → Act Event (Option Error)
  handle req = elim req.meta.deletion_timestamp [
    | some _ ↦ if v.has_finalizer req.meta finalizer then run_finalizer req else pure none
    | none ↦ if v.has_finalizer req.meta finalizer then serve req else (do
      e ← patch_finalizers v.add_finalizer req
      elim e [ some e ↦ pure (some (wrap (finalizer_context k) e)) | none ↦ serve req ])
  ]

  pub run_injector : String → Act Event (Option Error)
  run_injector key h = elim (env.get_by_key h key) [
    | err e ↦ (some e, h)
    | ok found ↦ elim found [ none ↦ (none, h) | some req ↦ handle req h ]
  ]
