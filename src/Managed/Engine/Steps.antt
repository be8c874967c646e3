-- ===== src/Managed/Engine/Steps.antt =====
-- The order of the steps on a secret engine.
use vault_operator.Base.{String, List, [], ◌∷◌}
use vault_operator.Meta.{Object, Vendor, AggregateLaw, aggregate-ne-none}
use vault_operator.Managed.World.{
  ManagedStatus, Env, VaultCall, create_policy, update_auth_role, enable_engine, create_config,
  delete_policy_and_update_role, disable_engine, vault_calls-update_status,
  vault_calls-patch_finalizers,
}
use vault_operator.Managed.Plan.{Performs, Performs-attempt, Performs-quiet, Reports, Reports-pure}
use vault_operator.Managed.Engine.{
  fail, finish, configure, enable, authorize, reconcile, clean_up, disable, remove_finalizer,
}

abbrev pub setup_plan : List VaultCall
setup_plan = create_policy ∷ update_auth_role ∷ enable_engine ∷ create_config ∷ []

abbrev pub cleanup_plan : List VaultCall
cleanup_plan = delete_policy_and_update_role ∷ disable_engine ∷ []

module _ {Spec : Type 0} (v : Vendor) (env : Env Spec) (law : AggregateLaw v) where
  Reports-fail :
      (se : Object Spec ManagedStatus) (reason context : String)
      → Reports env (fail v env se reason context)
  unfolding fail
  Reports-fail se reason context = record {
    quiet = λ e h. vault_calls-update_status v env _ _ h;
    fails = λ e h. aggregate-ne-none v law _ _;
  }

  finishes : (se : Object Spec ManagedStatus) → Performs env [] (finish v env se)
  unfolding finish
  finishes se = Performs-quiet env _ (λ h. vault_calls-update_status v env _ _ h)

  -- The steps on a secret engine are taken in order, policy, auth role, engine, configuration; a
  -- step that fails is the last, and when `reconcile` succeeds all were taken without an error.
  pub engine-Performs :
      (se : Object Spec ManagedStatus) → Performs env setup_plan (reconcile v env se)
  unfolding reconcile authorize enable configure
  engine-Performs se = Performs-attempt env _ (Reports-fail se _ _) (
      Performs-attempt env _ (Reports-fail se _ _) (
        Performs-attempt env _ (Reports-fail se _ _)
          (Performs-attempt env _ (Reports-fail se _ _) (finishes se))))

  releases : (se : Object Spec ManagedStatus) → Performs env [] (remove_finalizer v env se)
  unfolding remove_finalizer
  releases se =
      Performs-quiet env _ (λ h. vault_calls-patch_finalizers v env v.remove_finalizer se h)

  -- The clean-up of a deleted secret engine deletes the policy and then disables the engine, stops
  -- at the first failure, and lets the object go only if neither failed.
  pub engine_clean_up-Performs :
      (se : Object Spec ManagedStatus) → Performs env cleanup_plan (clean_up v env se)
  unfolding clean_up disable
  engine_clean_up-Performs se =
      Performs-attempt env _ (Reports-pure env _)
        (Performs-attempt env _ (Reports-pure env _) (releases se))
