-- ===== src/Managed/Binding/Runs.antt =====
-- Which calls of Vault a whole run of the controller of policy bindings makes.
use vault_operator.Base.{
  String, ◌≡◌, refl, inl, Option, none, some, List, [], ◌∷◌, Error, wrap, Result, ok, err,
}
use vault_operator.Base.Act.{pure}
use vault_operator.Meta.{Vendor, AggregateLaw, finalizer}
use vault_operator.PatchUtil.Silent.{try_patch-IsSilent}
use vault_operator.Managed.World.{
  Event, Env, VaultCall, new_client, ensure_binding, delete_binding, client, vault_calls,
  vault_calls-IsSilent, patch_finalizers, vault_calls-patch_finalizers,
}
use vault_operator.Managed.Plan.{
  plan_for, Kept, Kept-from, Keeps, Keeps-attempt, Keeps-dispatch, Performs-Tracks, Performs-wrap,
}
use vault_operator.Managed.Binding.{
  BindingSpec, VaultPolicyBinding, policy_binding_name, remove_finalizer, provision, run_finalizer,
  prepared, handle, run_injector,
}
use vault_operator.Managed.Binding.Laws.{binding-Performs, binding_clean_up-Performs}

abbrev pub setup_plan : String → VaultPolicyBinding → List VaultCall
setup_plan cluster_name b = new_client ∷ ensure_binding (policy_binding_name cluster_name b) ∷ []

abbrev pub cleanup_plan : String → VaultPolicyBinding → List VaultCall
cleanup_plan cluster_name b = new_client ∷ delete_binding (policy_binding_name cluster_name b) ∷ []

abbrev pub run_plan : Vendor → String → Result (Option VaultPolicyBinding) → List VaultCall
run_plan v cluster_name (err e) = []
run_plan v cluster_name (ok none) = []
run_plan v cluster_name (ok (some b)) =
    plan_for (setup_plan cluster_name b) (cleanup_plan cluster_name b) b.meta.deletion_timestamp
      (v.has_finalizer b.meta finalizer)

module _ (v : Vendor) (cluster_name : String) (env : Env BindingSpec) (law : AggregateLaw v) where
  provisions :
      (b : VaultPolicyBinding)
      → Keeps env (setup_plan cluster_name b) (provision v cluster_name env b)
  unfolding provision
  provisions b =
      Keeps-attempt env new_client (λ e. pure (some (wrap "for VaultPolicyBinding %s/%s" e)))
        (λ e h. refl)
        (Performs-Tracks env (Performs-wrap env _ (binding-Performs v cluster_name env law b)))

  finalizes :
      (b : VaultPolicyBinding)
      → Keeps env (cleanup_plan cluster_name b) (run_finalizer v cluster_name env b)
  unfolding run_finalizer remove_finalizer
  finalizes b =
      Keeps-attempt env new_client (λ _. remove_finalizer v cluster_name env b)
        (λ e h.
          try_patch-IsSilent v (client env) vault_calls (vault_calls-IsSilent env) env.updates b _
            h)
        (Performs-Tracks env (binding_clean_up-Performs v cluster_name env law b))

  prepares :
      (b : VaultPolicyBinding) (r : Option Error × List (Event BindingSpec))
      → Kept
          (setup_plan cluster_name b)
          (vault_calls r.1)
          (vault_calls (prepared v cluster_name env b r).1)
  unfolding prepared
  prepares b (some e, h) = inl refl
  prepares b (none, h) = provisions b h

  handles :
      (b : VaultPolicyBinding)
      → Keeps env (run_plan v cluster_name (ok (some b))) (handle v cluster_name env b)
  unfolding handle
  handles b =
      Keeps-dispatch env (setup_plan cluster_name b) (cleanup_plan cluster_name b) _ _
        (λ h. prepared v cluster_name env b (patch_finalizers v env v.add_finalizer b h))
        (finalizes b) (provisions b)
        (λ h.
          Kept-from (setup_plan cluster_name b)
            (vault_calls-patch_finalizers v env v.add_finalizer b h)
            (prepares b (patch_finalizers v env v.add_finalizer b h)))
        b.meta.deletion_timestamp (v.has_finalizer b.meta finalizer)

  -- A run of the controller writes a policy binding, under its name, only if it is not being
  -- deleted, and deletes it in Vault only if it is being deleted and has the finalizer. It makes no
  -- call of Vault at all, or those of that plan in their order, of which one that fails is the last.
  pub binding_run-Keeps :
      (key : String) (h : List (Event BindingSpec))
      → Kept
          (run_plan v cluster_name (env.get_by_key h key))
          (vault_calls h)
          (vault_calls (run_injector v cluster_name env key h).1)
  unfolding run_injector
  binding_run-Keeps key h = of_found (env.get_by_key h key) refl
    where
      of_found :
          (r : Result (Option VaultPolicyBinding))
          → env.get_by_key h key ≡ r
          → Kept
              (run_plan v cluster_name (env.get_by_key h key))
              (vault_calls h)
              (vault_calls (run_injector v cluster_name env key h).1)
      of_found (err e) q = rw (q, run_injector) (inl refl)
      of_found (ok none) q = rw (q, run_injector) (inl refl)
      of_found (ok (some b)) q = rw (q, run_injector) (handles b h)
