-- ===== src/Managed/Binding/Laws.antt =====
-- What the controller of policy bindings does in Vault.
use vault_operator.Base.{String, [], ◌∷◌}
use vault_operator.Meta.{Vendor, AggregateLaw, aggregate-ne-none}
use vault_operator.PatchUtil.Silent.{try_patch-IsSilent}
use vault_operator.Managed.World.{
  Env, ensure_binding, delete_binding, vault_calls, vault_calls-IsSilent, client,
  vault_calls-update_status,
}
use vault_operator.Managed.Plan.{Performs, Performs-attempt, Performs-quiet, Reports, Reports-pure}
use vault_operator.Managed.Binding.{
  BindingSpec, VaultPolicyBinding, policy_binding_name, fail, finish, reconcile, clean_up,
  remove_finalizer,
}

module _ (v : Vendor) (cluster_name : String) (env : Env BindingSpec) (law : AggregateLaw v) where
  Reports-fail : (p : VaultPolicyBinding) → Reports env (fail v cluster_name env p)
  unfolding fail
  Reports-fail p = record {
    quiet = λ e h. vault_calls-update_status v env _ _ h;
    fails = λ e h. aggregate-ne-none v law _ _;
  }

  finishes : (p : VaultPolicyBinding) → Performs env [] (finish v cluster_name env p)
  unfolding finish
  finishes p = Performs-quiet env _ (λ h. vault_calls-update_status v env _ _ h)

  -- A policy binding is written to Vault under its name, and nothing else is called; the run
  -- succeeds only if that was written.
  pub binding-Performs :
      (p : VaultPolicyBinding)
      → Performs env
          (ensure_binding (policy_binding_name cluster_name p) ∷ [])
          (reconcile v cluster_name env p)
  unfolding reconcile
  binding-Performs p = Performs-attempt env _ (Reports-fail p) (finishes p)

  releases : (p : VaultPolicyBinding) → Performs env [] (remove_finalizer v cluster_name env p)
  unfolding remove_finalizer
  releases p = Performs-quiet env _ (λ h.
      try_patch-IsSilent v (client env) vault_calls (vault_calls-IsSilent env) env.updates p _ h)

  -- A deleted policy binding is let go only after it was deleted in Vault.
  pub binding_clean_up-Performs :
      (p : VaultPolicyBinding)
      → Performs env
          (delete_binding (policy_binding_name cluster_name p) ∷ [])
          (clean_up v cluster_name env p)
  unfolding clean_up
  binding_clean_up-Performs p = Performs-attempt env _ (Reports-pure env _) (releases p)
