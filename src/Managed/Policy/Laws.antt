-- ===== src/Managed/Policy/Laws.antt =====
-- What the controller of policies does in Vault, and the statuses that it leaves.
use vault_operator.Base.{ℕ, String, ◌≡◌, ◌≢◌, ◌∙◌, none, some, [], ◌∷◌, Error, ok, arith, eq_iff}
use vault_operator.Meta.{
  Vendor, AggregateLaw, aggregate-ne-none, ConditionLaws, IsUnique, items, status_of,
  condition_failed, condition_available, condition_true,
}
use vault_operator.PatchUtil.Silent.{try_patch-IsSilent}
use vault_operator.Managed.World.{
  ManagedStatus, Env, ensure_policy, delete_policy, vault_calls, vault_calls-IsSilent, client,
  vault_calls-update_status,
}
use vault_operator.Managed.Plan.{Performs, Performs-attempt, Performs-quiet, Reports, Reports-pure}
use vault_operator.Managed.Policy.{
  PolicySpec, VaultPolicy, policy_name, document, with_phase_failed, with_available, fail, finish,
  reconcile, clean_up, remove_finalizer,
}

module _ (v : Vendor) (cluster_name : String) (env : Env PolicySpec) (law : AggregateLaw v) where
  Reports-fail : (p : VaultPolicy) → Reports env (fail v cluster_name env p)
  unfolding fail
  Reports-fail p = record {
    quiet = λ e h. vault_calls-update_status v env _ _ h;
    fails = λ e h. aggregate-ne-none v law _ _;
  }

  finishes : (p : VaultPolicy) → Performs env [] (finish v cluster_name env p)
  unfolding finish
  finishes p = Performs-quiet env _ (λ h. vault_calls-update_status v env _ _ h)

  -- A policy whose document can be had is written to Vault under its name, with that document, and
  -- nothing else is called; the run succeeds only if that was written.
  pub policy-Performs :
      (p : VaultPolicy) (doc : String)
      → document p ≡ ok doc
      → Performs env
          (ensure_policy (policy_name cluster_name p) doc ∷ [])
          (reconcile v cluster_name env p)
  unfolding reconcile
  policy-Performs p doc d = rw (d, reconcile) (Performs-attempt env _ (Reports-fail p) (finishes p))

  releases : (p : VaultPolicy) → Performs env [] (remove_finalizer v cluster_name env p)
  unfolding remove_finalizer
  releases p = Performs-quiet env _ (λ h.
      try_patch-IsSilent v (client env) vault_calls (vault_calls-IsSilent env) env.updates p _ h)

  -- A deleted policy is let go only after it was deleted in Vault.
  pub policy_clean_up-Performs :
      (p : VaultPolicy)
      → Performs env
          (delete_policy (policy_name cluster_name p) ∷ [])
          (clean_up v cluster_name env p)
  unfolding clean_up
  policy_clean_up-Performs p = Performs-attempt env _ (Reports-pure env _) (releases p)

module _ (v : Vendor) (laws : ConditionLaws v) where
  -- The phase of the status agrees with its conditions: a success has the condition Available and
  -- no condition Failed, and a failure has the condition Failed.
  pub phase_conditions :
      (generation now : ℕ) (e : Error) (st : ManagedStatus)
      → IsUnique (items st.conditions)
      → let good = with_available v generation now st in
        let bad = with_phase_failed v e now st in
        (status_of condition_available good.conditions ≡ some condition_true)
        × (status_of condition_failed good.conditions ≡ none)
        × (status_of condition_failed bad.conditions ≡ some condition_true)
        × (good.phase ≢ bad.phase)
  phase_conditions generation now e st u = (
    laws.status_of-set_condition _ _ _ condition_available,
    laws.status_of-set_condition _ _ _ condition_failed
        ∙ laws.status_of-remove_condition st.conditions condition_failed condition_failed u,
    laws.status_of-set_condition _ _ _ condition_failed,
    λ q. ground (arith, eq_iff "Success" "Failed"),
  )
