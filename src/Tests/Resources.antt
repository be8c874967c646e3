-- ===== src/Tests/Resources.antt =====
-- Controllers of managed resources over a Vault that answers, and over ones that refuse.
use vault_operator.Base.{
  ℕ, String, ◌/◌, ◌=ℕ◌, ◌≡◌, refl, false, Option, none, some, List, [], ◌∷◌, ◌==◌, if◌then◌else◌,
  Error, message, wrap, ok,
}
use vault_operator.Meta.{
  IsUnique, items, ObjectMeta, Object, Condition, status_of, condition_failed, condition_available,
  condition_true,
}
use vault_operator.PatchUtil
use vault_operator.PatchUtil.{Client, UpdateState, attempts, update_status_round}
use vault_operator.Managed.World.{
  with_failed, ManagedStatus, Event, called, Env, VaultCall, new_client, create_role, delete_role,
  ensure_binding, vault_calls, update_status, patch_finalizers,
}
use vault_operator.Managed.Role
use vault_operator.Managed.Role.Runs.{role_run-Keeps}
use vault_operator.Managed.Engine.Runs.{engine_run-Keeps}
use vault_operator.Managed.Policy.Runs.{writes, policy_run-Keeps}
use vault_operator.Managed.Binding.Runs.{binding_run-Keeps}
use vault_operator.Managed.Plan.{Kept, Performs}
use vault_operator.Managed.Role.{
  mongodb, postgres, mysql, with_available, finish, reconcile, run_finalizer, handle,
}
use vault_operator.Managed.Role.Conditions.{with_available_conditions}
use vault_operator.Managed.Role.Finalizer.{run_finalizer_deletes}
use vault_operator.Managed.Engine
use vault_operator.Managed.Engine.Steps.{setup_plan, engine-Performs}
use vault_operator.Managed.Policy
use vault_operator.Managed.Policy.{PolicySpec, VaultPolicy, document}
use vault_operator.Managed.Binding
use vault_operator.Managed.Binding.{BindingSpec, VaultPolicyBinding}
use vault_operator.Tests.Systems.{plain, plain-AggregateLaw, plain-ConditionLaws, thrice}

abbrev failure : Condition
failure = record {
  type = "Failed";
  status = "True";
  observed_generation = 0;
  last_transition_time = 0;
  reason = "FailedToCreateRole";
  message = "";
}

abbrev failed_status : ManagedStatus
failed_status = record { phase = ""; conditions = some (failure ∷ []); observed_generation = 0 }

abbrev meta_with : List String → ObjectMeta
meta_with finalizers = record {
  name = "x";
  namespace = "ns";
  generation = 1;
  deletion_timestamp = none;
  finalizers = finalizers;
}

abbrev thing : {Spec : Type 0} → Spec → List String → Object Spec ManagedStatus
thing spec finalizers = record { meta = meta_with finalizers; spec = spec; status = failed_status }

abbrev text_of : List String → String
text_of [] = "a"
text_of (_ ∷ _) = "b"

-- What the API server answers to a patch and what Vault answers to a call are given.
abbrev world : {Spec : Type 0} → Spec → Option Error → (VaultCall → Option Error) → Env Spec
world spec patch vault = record {
  get_by_key = λ h key. ok (some (thing spec []));
  get = λ h ns n. (thing spec [], none);
  create = λ h o. (o, none);
  update = λ h o. (o, none);
  update_status = λ h o. (o, none);
  patch = λ h ns n p. (thing spec [], patch);
  marshal = λ o. ok (text_of o.meta.finalizers);
  create_merge_patch = λ a b. ok (if a == b then "{}" else "p");
  zero_spec = spec;
  zero_status = failed_status;
  updates = thrice (UpdateState (Event _) _ ManagedStatus);
  vault = λ h c. vault c;
  status_code = λ h c. 500;
  now = λ h. 0;
}

abbrev willing : VaultCall → Option Error
willing c = none

abbrev refusal : Error
refusal = message "refused"

abbrev keeping : VaultCall → Option Error
keeping delete_role = some refusal
keeping _ = none

abbrev role : Object ℕ ManagedStatus
role = thing 7 []

with_available_conditions_example :
    IsUnique (items (with_available mongodb plain 1 9 failed_status).conditions)
    × ((reason : String) (e : Error)
        → IsUnique (items (with_failed plain reason e 9 failed_status).conditions))
    × (status_of condition_available (with_available mongodb plain 1 9 failed_status).conditions
        ≡ some condition_true)
    × (status_of condition_failed (with_available mongodb plain 1 9 failed_status).conditions
        ≡ some condition_true)
with_available_conditions_example =
    with_available_conditions plain plain-ConditionLaws mongodb 1 9 failed_status (refl, tt)

role_reconciled : (reconcile postgres plain (world 7 none willing) role []).0 ≡ none
unfolding reconcile finish update_status PatchUtil.update_status attempts update_status_round
role_reconciled = refl

run_finalizer_deletes_example :
    (vault_calls (run_finalizer mysql plain (world 7 none keeping) role []).1
      ≡ (delete_role, some refusal) ∷ (new_client, none) ∷ [])
    × ((x : Error)
        → some refusal ≡ some x
        → 500 / 100 =ℕ 4 ≡ false
        → ((run_finalizer mysql plain (world 7 none keeping) role []).0
            ≡ some (wrap "failed to delete database role" x))
          × ((run_finalizer mysql plain (world 7 none keeping) role []).1
              ≡ called delete_role (some x) ∷ called new_client none ∷ []))
run_finalizer_deletes_example =
    run_finalizer_deletes mysql plain (world 7 none keeping) role [] refl

unpatched :
    (patch_finalizers plain (world 7 (some refusal) willing) plain.add_finalizer role []).0
    ≡ some refusal
unfolding patch_finalizers PatchUtil.patch PatchUtil.patch_object
unpatched = refl

engine-Performs_example :
    Performs (world 7 none willing) setup_plan (Engine.reconcile plain (world 7 none willing) role)
engine-Performs_example = engine-Performs plain (world 7 none willing) plain-AggregateLaw role

abbrev policy_spec : PolicySpec
policy_spec = record {
  vault_ref = "v";
  vault_policy_name = "named";
  policy_document = "";
  policy = some (ok "{}");
}

abbrev policies : Env PolicySpec
policies = world policy_spec none willing

serialised : document (thing policy_spec []) ≡ ok "{}"
unfolding document
serialised = refl

abbrev binding_spec : BindingSpec
binding_spec = record { vault_ref = "v"; vault_role_name = "" }

abbrev bindings : Env BindingSpec
bindings = world binding_spec none willing

role_run-Keeps_example :
    Kept
      (new_client ∷ create_role ∷ [])
      []
      (vault_calls {Spec = ℕ} (Role.run_injector mysql plain (world 7 none keeping) "ns/x" []).1)
role_run-Keeps_example =
    role_run-Keeps mysql plain (world 7 none keeping) plain-AggregateLaw "ns/x" []

engine_run-Keeps_example :
    Kept
      (new_client ∷ setup_plan)
      []
      (vault_calls {Spec = ℕ} (Engine.run_injector plain (world 7 none willing) "ns/x" []).1)
engine_run-Keeps_example =
    engine_run-Keeps plain (world 7 none willing) plain-AggregateLaw "ns/x" []

policy_run-Keeps_example :
    Kept
      (new_client
        ∷ writes (Policy.policy_name "c" (thing policy_spec [])) (document (thing policy_spec [])))
      []
      (vault_calls (Policy.run_injector plain "c" policies "ns/x" []).1)
policy_run-Keeps_example = policy_run-Keeps plain "c" policies plain-AggregateLaw "ns/x" []

binding_run-Keeps_example :
    Kept
      (new_client ∷ ensure_binding (Binding.policy_binding_name "" (thing binding_spec [])) ∷ [])
      []
      (vault_calls (Binding.run_injector plain "" bindings "ns/x" []).1)
binding_run-Keeps_example = binding_run-Keeps plain "" bindings plain-AggregateLaw "ns/x" []
