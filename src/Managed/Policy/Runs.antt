-- ===== src/Managed/Policy/Runs.antt =====
-- Which calls of Vault a whole run of the controller of policies makes.
use vault_operator.Base.{
  String, ◌≡◌, refl, inl, inr, Option, none, some, List, [], ◌∷◌, Error, wrap, Result, ok, err,
  Result-cases,
}
use mathlib.Core.Path.{subst}
use vault_operator.Base.{sym}
use vault_operator.Base.Act.{pure}
use vault_operator.Meta.{Vendor, AggregateLaw, finalizer}
use vault_operator.PatchUtil.Silent.{try_patch-IsSilent}
use vault_operator.Managed.World.{
  Event, Env, VaultCall, new_client, ensure_policy, delete_policy, client, vault_calls,
  vault_calls-IsSilent, patch_finalizers, vault_calls-patch_finalizers,
}
use vault_operator.Managed.Plan.{
  plan_for, Kept, Kept-from, Keeps, Keeps-attempt, Keeps-dispatch, Performs, Performs-Tracks,
  Performs-wrap,
}
use vault_operator.Managed.Policy.{
  PolicySpec, VaultPolicy, policy_name, document, reconcile, remove_finalizer, provision,
  run_finalizer, prepared, handle, run_injector,
}
use vault_operator.Managed.Policy.Laws.{policy-Performs, policy_clean_up-Performs}

-- A policy whose document cannot be had is not written.
abbrev pub writes : String → Result String → List VaultCall
writes name (err e) = []
writes name (ok doc) = ensure_policy name doc ∷ []

abbrev pub setup_plan : String → VaultPolicy → List VaultCall
setup_plan cluster_name p = new_client ∷ writes (policy_name cluster_name p) (document p)

abbrev pub cleanup_plan : String → VaultPolicy → List VaultCall
cleanup_plan cluster_name p = new_client ∷ delete_policy (policy_name cluster_name p) ∷ []

abbrev pub run_plan : Vendor → String → Result (Option VaultPolicy) → List VaultCall
run_plan v cluster_name (err e) = []
run_plan v cluster_name (ok none) = []
run_plan v cluster_name (ok (some p)) =
    plan_for (setup_plan cluster_name p) (cleanup_plan cluster_name p) p.meta.deletion_timestamp
      (v.has_finalizer p.meta finalizer)

module _ (v : Vendor) (cluster_name : String) (env : Env PolicySpec) (law : AggregateLaw v) where
  writes-Performs :
      (p : VaultPolicy)
      → Performs env
          (writes (policy_name cluster_name p) (document p))
          (reconcile v cluster_name env p)
  unfolding reconcile
  writes-Performs p = elim (Result-cases (document p)) [
    | inl (doc, q) ↦
        subst
          (λ r.
            Performs env (writes (policy_name cluster_name p) r) (reconcile v cluster_name env p))
          (sym q) (policy-Performs v cluster_name env law p doc q)
    | inr (e, q) ↦ rw (q, reconcile) (record { follows = λ h. refl; completes = λ h z. cc })
  ]

  provisions :
      (p : VaultPolicy) → Keeps env (setup_plan cluster_name p) (provision v cluster_name env p)
  unfolding provision
  provisions p =
      Keeps-attempt env new_client (λ e. pure (some (wrap "for VaultPolicy %s/%s" e))) (λ e h. refl)
        (Performs-Tracks env (Performs-wrap env _ (writes-Performs p)))

  finalizes :
      (p : VaultPolicy)
      → Keeps env (cleanup_plan cluster_name p) (run_finalizer v cluster_name env p)
  unfolding run_finalizer remove_finalizer
  finalizes p =
      Keeps-attempt env new_client (λ _. remove_finalizer v cluster_name env p)
        (λ e h.
          try_patch-IsSilent v (client env) vault_calls (vault_calls-IsSilent env) env.updates p _
            h)
        (Performs-Tracks env (policy_clean_up-Performs v cluster_name env law p))

  prepares :
      (p : VaultPolicy) (r : Option Error × List (Event PolicySpec))
      → Kept
          (setup_plan cluster_name p)
          (vault_calls r.1)
          (vault_calls (prepared v cluster_name env p r).1)
  unfolding prepared
  prepares p (some e, h) = inl refl
  prepares p (none, h) = provisions p h

  handles :
      (p : VaultPolicy)
      → Keeps env (run_plan v cluster_name (ok (some p))) (handle v cluster_name env p)
  unfolding handle
  handles p =
      Keeps-dispatch env (setup_plan cluster_name p) (cleanup_plan cluster_name p) _ _
        (λ h. prepared v cluster_name env p (patch_finalizers v env v.add_finalizer p h))
        (finalizes p) (provisions p)
        (λ h.
          Kept-from (setup_plan cluster_name p)
            (vault_calls-patch_finalizers v env v.add_finalizer p h)
            (prepares p (patch_finalizers v env v.add_finalizer p h)))
        p.meta.deletion_timestamp (v.has_finalizer p.meta finalizer)

  -- A run of the controller writes a policy, under its name and with its document, only if it is not
  -- being deleted, and deletes it in Vault only if it is being deleted and has the finalizer. It
  -- makes no call of Vault at all, or those of that plan in their order, of which one that fails is
  -- the last.
  pub policy_run-Keeps :
      (key : String) (h : List (Event PolicySpec))
      → Kept
          (run_plan v cluster_name (env.get_by_key h key))
          (vault_calls h)
          (vault_calls (run_injector v cluster_name env key h).1)
  unfolding run_injector
  policy_run-Keeps key h = of_found (env.get_by_key h key) refl
    where
      of_found :
          (r : Result (Option VaultPolicy))
          → env.get_by_key h key ≡ r
          → Kept
              (run_plan v cluster_name (env.get_by_key h key))
              (vault_calls h)
              (vault_calls (run_injector v cluster_name env key h).1)
      of_found (err e) q = rw (q, run_injector) (inl refl)
      of_found (ok none) q = rw (q, run_injector) (inl refl)
      of_found (ok (some p)) q = rw (q, run_injector) (handles p h)
