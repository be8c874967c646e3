-- ===== src/Tests/AccessRequests.antt =====
-- A controller of access requests in a world where all goes well, and in ones where it does not.
use vault_operator.Base.{
  String, ◌≤◌, ◌≡◌, ◌≢◌, refl, true, false, Option, none, some, [], ◌∷◌, Error, message, wrap, ok,
}
use vault_operator.Meta.{Condition}
use vault_operator.PatchUtil
use vault_operator.PatchUtil.{UpdateState, TryState, attempts, update_status_round}
use vault_operator.Access.Request.{
  database, aws, azure, gcp, RequestSpec, RequestStatus, Request, Credential, Lease, condition_type,
  is_decision, decide_from, successfully_processed,
}
use vault_operator.Base.{
  ◌&&◌, eq_iff, List, Bool, if◌then◌else◌, false, ◌==◌, arith, Bool-cases, inl, inr,
}
use vault_operator.Access.Request.{Subject}
use vault_operator.Access.Admission.{
  AdmissionRequest, allowed, admit, validate, is_approved_or_denied,
}
use vault_operator.Access.Admission.Frozen.{DiffLaw, IsUpdate, admit-approved}
use vault_operator.Access.World.{
  Event, made_manager, issued, made_secret, revoked, deleted_secret, Env, manager,
}
use vault_operator.Access.Controller.{
  store_credential, publish, grant, bind_role, finish, update_status, reconcile, serve_approved,
  run_finalizer, run_injector, with_failed, with_available,
}
use vault_operator.Access.Controller.Calls.{credential_calls, issues, undone}
use vault_operator.Access.Controller.Reconcile.{granted, reconcile_ok}
use vault_operator.Access.Controller.Issue.{IsDue, run_injector-issues}
use vault_operator.Access.Controller.Undo.{
  serve_approved-undone, reconcile_secret_fails, serve_approved_references, run_finalizer_revokes,
}
use vault_operator.Tests.Systems.{plain, plain-AggregateLaw, thrice}

abbrev spec : RequestSpec
spec = record {
  role_ref = record { api_group = ""; kind = "PostgresRole"; name = "r"; namespace = "ns" };
  subjects = [];
  ttl = "";
}

abbrev approval : Condition
approval = record {
  type = "Approved";
  status = "True";
  observed_generation = 0;
  last_transition_time = 0;
  reason = "";
  message = "";
}

abbrev approved_status : RequestStatus
approved_status = record {
  phase = "Approved";
  conditions = some (approval ∷ []);
  secret = none;
  lease = none;
  observed_generation = 0;
}

abbrev request : Request
request = record {
  meta = record {
    name = "x";
    namespace = "ns";
    generation = 1;
    deletion_timestamp = none;
    finalizers = "kubevault.com" ∷ [];
  };
  spec = spec;
  status = approved_status;
}

abbrev lease : Lease
lease = record { id = "l"; duration = 0; renewable = true }

abbrev served : Request
served = record request {
  status = record approved_status { lease = some lease; secret = some "s" };
}

-- A request whose run failed after its references were written.
abbrev failed_before : Request
failed_before = record served { status = with_failed plain "r" (message "e") 1 served.status }

unserved : successfully_processed failed_before ≡ false
unfolding successfully_processed
unserved = refl

abbrev cred : Credential
cred = record { lease_id = "l"; lease_duration = 60; renewable = true }

-- `secret` and `role` are the errors of making a secret and a role.
abbrev world : Option Error → Option Error → Env
world secret role = record {
  get_by_key = λ h key. ok (some request);
  get = λ h ns n. (request, none);
  create = λ h o. (o, none);
  update = λ h o. (o, none);
  update_status = λ h o. (o, none);
  patch = λ h ns n p. (request, none);
  marshal = λ o. ok "";
  create_merge_patch = λ a b. ok "{}";
  zero_spec = spec;
  zero_status = approved_status;
  tries = thrice (TryState Event RequestSpec RequestStatus);
  updates = thrice (UpdateState Event RequestSpec RequestStatus);
  new_manager = λ h req. none;
  get_credential = λ h. ok cred;
  create_secret = λ h n ns c. secret;
  create_role = λ h n ns s. role;
  create_role_binding = λ h n ns r s. none;
  revoke_lease = λ h l. none;
  delete_secret = λ h ns n. none;
  now = λ h. 0;
  uniq_suffix = λ h n. "s";
}

abbrev refusal : Error
refusal = message "refused"

abbrev good : Env
good = world none none

-- The request counts as approved.
is_approved : condition_type request ≡ "Approved"
unfolding condition_type decide_from is_decision
is_approved = refl

reconciled : (reconcile database plain good (manager good) request []).0 ≡ none
unfolding reconcile store_credential publish grant bind_role finish update_status
    PatchUtil.update_status attempts update_status_round
reconciled = refl

reconcile_ok_example :
    (c : Credential) × (ok cred ≡ ok c)
    × (credential_calls (reconcile database plain good (manager good) request []).1
        ≡ granted database plain good plain-AggregateLaw request
            (good.uniq_suffix (issued (ok c) ∷ []) "x")
            (made_secret (good.uniq_suffix (issued (ok c) ∷ []) "x") "ns" c none
              ∷ issued (ok c)
              ∷ []))
reconcile_ok_example = reconcile_ok database plain good plain-AggregateLaw request [] reconciled

run_injector-issues_example :
    (issues (run_injector gcp plain good "ns/x" []).1 ≤ 1)
    × (issues (run_injector gcp plain good "ns/x" []).1 ≢ 0
        → (req : Request) × (ok (some request) ≡ ok (some req)) × IsDue req)
run_injector-issues_example = run_injector-issues gcp plain good "ns/x" []

abbrev roleless : Env
roleless = world none (some refusal)

serve_approved-undone_example : undone (serve_approved aws plain roleless request []).1 ≡ 0
serve_approved-undone_example =
    serve_approved-undone aws plain roleless request cred [] refl refl refl refl refl

abbrev secretless : Env
secretless = world (some refusal) none

reconcile_secret_fails_example :
    credential_calls (reconcile azure plain secretless (manager secretless) request []).1
    ≡ revoked "l" none ∷ made_secret "s" "ns" cred (some refusal) ∷ issued (ok cred) ∷ []
reconcile_secret_fails_example =
    reconcile_secret_fails azure plain secretless request cred refusal [] refl refl refl refl refl

serve_approved_references_example :
    (good.new_manager [] failed_before ≡ none
      → credential_calls (serve_approved database plain good failed_before []).1
        ≡ deleted_secret "ns" "s" none ∷ revoked "l" none ∷ made_manager none ∷ [])
    × ((e : Error)
        → good.new_manager [] failed_before ≡ some e
        → credential_calls (serve_approved database plain good failed_before []).1
          ≡ made_manager (some e) ∷ [])
serve_approved_references_example =
    serve_approved_references database plain good failed_before lease "s" [] refl refl refl unserved

run_finalizer_revokes_example :
    ((e : Error)
      → none ≡ some e
      → ((run_finalizer database plain good served []).0 ≡ some (wrap "%s/%s finalizer: %v" e))
        × ((run_finalizer database plain good served []).1
            ≡ revoked "l" (some e) ∷ made_manager none ∷ []))
    × ((run_finalizer database plain good served []).0 ≡ none
        → credential_calls (run_finalizer database plain good served []).1
          ≡ revoked "l" none ∷ made_manager none ∷ [])
run_finalizer_revokes_example =
    run_finalizer_revokes database plain good served lease [] refl refl refl

-- The request after a successful run.
abbrev available : Request
available = record served { status = with_available plain 1 9 served.status }

abbrev same_subjects : List Subject → List Subject → Bool
same_subjects [] [] = true
same_subjects (a ∷ l) (b ∷ r) =
    a.kind == b.kind && a.name == b.name && a.namespace == b.namespace && same_subjects l r
same_subjects _ _ = false

abbrev same_spec : RequestSpec → RequestSpec → Bool
same_spec a b =
    a.ttl == b.ttl
    && a.role_ref.api_group == b.role_ref.api_group
    && a.role_ref.kind == b.role_ref.kind
    && a.role_ref.name == b.role_ref.name
    && a.role_ref.namespace == b.role_ref.namespace
    && same_subjects a.subjects b.subjects

abbrev diff : RequestSpec → RequestSpec → String
diff a b = if same_spec a b then "" else "changed"

same_subjects_lem : (l r : List Subject) → same_subjects l r ≡ true → l ≡ r
same_subjects_lem [] [] p = refl
same_subjects_lem [] (_ ∷ _) p = cc
same_subjects_lem (_ ∷ _) [] p = cc
same_subjects_lem (a ∷ l) (b ∷ r) p = ground (
  arith,
  same_subjects_lem l r,
  eq_iff a.kind b.kind,
  eq_iff a.name b.name,
  eq_iff a.namespace b.namespace,
)

same_spec_lem : (a b : RequestSpec) → same_spec a b ≡ true → a ≡ b
same_spec_lem a b p = ground (
  arith,
  same_subjects_lem a.subjects b.subjects,
  eq_iff a.ttl b.ttl,
  eq_iff a.role_ref.api_group b.role_ref.api_group,
  eq_iff a.role_ref.kind b.role_ref.kind,
  eq_iff a.role_ref.name b.role_ref.name,
  eq_iff a.role_ref.namespace b.role_ref.namespace,
)

unchanged_lem : (a b : RequestSpec) → diff a b ≡ "" → same_spec a b ≡ true
unchanged_lem a b p = elim (Bool-cases (same_spec a b)) [
  | inl q ↦ q
  | inr q ↦ ground (arith, eq_iff "changed" "")
]

diff-DiffLaw : DiffLaw diff
diff-DiffLaw = record { equal = λ a b p. same_spec_lem a b (unchanged_lem a b p) }

abbrev update : AdmissionRequest
update = record {
  operation = "UPDATE";
  sub_resource = "";
  group = "engine.kubevault.com";
  kind = "DatabaseAccessRequest";
  object = ok request;
  old_object = ok request;
}

update-IsUpdate : IsUpdate database request request update
update-IsUpdate = record {
  operation = refl;
  sub_resource = refl;
  group = refl;
  kind = refl;
  object = refl;
  old_object = refl;
}

update_allowed : admit database diff true update ≡ allowed
unfolding admit validate is_approved_or_denied
update_allowed = refl

admit-approved_example :
    (true ≡ true) × (condition_type request ≡ "Approved" → request.spec ≡ request.spec)
admit-approved_example =
    admit-approved database diff diff-DiffLaw true request request update update-IsUpdate
      update_allowed
