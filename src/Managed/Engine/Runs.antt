-- ===== src/Managed/Engine/Runs.antt =====
-- Which calls of Vault a whole run of the controller of secret engines makes.
use vault_operator.Base.{
  String, ◌≡◌, refl, inl, inr, Option, none, some, List, [], ◌∷◌, Error, Result, ok, err,
  Option-cases,
}
use vault_operator.Base.Act.{pure}
use vault_operator.Meta.{Object, Vendor, AggregateLaw, finalizer}
use vault_operator.Managed.World.{
  ManagedStatus, Event, Env, VaultCall, new_client, vault_calls, update_status, patch_finalizers,
  vault_calls-update_status, vault_calls-patch_finalizers,
}
use vault_operator.Managed.Plan.{
  plan_for, Kept, Kept-from, Keeps, Keeps-attempt, Keeps-dispatch, Performs-Tracks, Performs-wrap,
}
use vault_operator.Managed.Engine.{
  remove_finalizer, processing, provision, started, serve, prepared, run_finalizer, handle,
  run_injector,
}
use vault_operator.Managed.Engine.Steps.{
  setup_plan, cleanup_plan, engine-Performs, engine_clean_up-Performs,
}

abbrev pub object_plan : {Spec : Type 0} → Vendor → Object Spec ManagedStatus → List VaultCall
object_plan v se =
    plan_for (new_client ∷ setup_plan) (new_client ∷ cleanup_plan) se.meta.deletion_timestamp
      (v.has_finalizer se.meta finalizer)

abbrev pub run_plan :
    {Spec : Type 0} → Vendor → Result (Option (Object Spec ManagedStatus)) → List VaultCall
run_plan v (err e) = []
run_plan v (ok none) = []
run_plan v (ok (some se)) = object_plan v se

module _ {Spec : Type 0} (v : Vendor) (env : Env Spec) (law : AggregateLaw v) where
  abbrev Within : List VaultCall → List (Event Spec) → List (Event Spec) → Type 0
  Within plan h h' = Kept plan (vault_calls h) (vault_calls h')

  finalizes :
      (se : Object Spec ManagedStatus)
      → Keeps env (new_client ∷ cleanup_plan) (run_finalizer v env se)
  unfolding run_finalizer remove_finalizer
  finalizes se =
      Keeps-attempt env new_client (λ _. remove_finalizer v env se)
        (λ e h. vault_calls-patch_finalizers v env v.remove_finalizer se h)
        (Performs-Tracks env (engine_clean_up-Performs v env law se))

  provisions :
      (se : Object Spec ManagedStatus) → Keeps env (new_client ∷ setup_plan) (provision v env se)
  unfolding provision
  provisions se =
      Keeps-attempt env new_client (λ e. pure (some e)) (λ e h. refl)
        (Performs-Tracks env (Performs-wrap env _ (engine-Performs v env law se)))

  starts :
      (se : Object Spec ManagedStatus)
      (r : (Option (Object Spec ManagedStatus) × Option Error) × List (Event Spec))
      → Within (new_client ∷ setup_plan) r.1 (started v env se r).1
  unfolding started
  starts se ((result, some e), h) = inl refl
  starts se ((some new_se, none), h) = provisions new_se h
  starts se ((none, none), h) = provisions se h

  serves : (se : Object Spec ManagedStatus) → Keeps env (new_client ∷ setup_plan) (serve v env se)
  unfolding serve
  serves se h = elim (Option-cases se.status.conditions) [
    | inl p ↦
        rw (p, serve)
          (Kept-from (new_client ∷ setup_plan)
            (vault_calls-update_status v env se.meta processing h)
            (starts se (update_status v env se.meta processing h)))
    | inr (cs, p) ↦ rw (p, serve) (provisions se h)
  ]

  prepares :
      (se : Object Spec ManagedStatus) (r : Option Error × List (Event Spec))
      → Within (new_client ∷ setup_plan) r.1 (prepared v env se r).1
  unfolding prepared
  prepares se (some e, h) = inl refl
  prepares se (none, h) = serves se h

  handles : (se : Object Spec ManagedStatus) → Keeps env (object_plan v se) (handle v env se)
  unfolding handle
  handles se =
      Keeps-dispatch env (new_client ∷ setup_plan) (new_client ∷ cleanup_plan) _ _
        (λ h. prepared v env se (patch_finalizers v env v.add_finalizer se h)) (finalizes se)
        (serves se)
        (λ h.
          Kept-from (new_client ∷ setup_plan)
            (vault_calls-patch_finalizers v env v.add_finalizer se h)
            (prepares se (patch_finalizers v env v.add_finalizer se h)))
        se.meta.deletion_timestamp (v.has_finalizer se.meta finalizer)

  -- A run of the controller sets an engine up only if it is not being deleted, and cleans it up
  -- only if it is being deleted and has the finalizer. It makes no call of Vault at all, or the
  -- calls of that plan in their order, of which one that fails is the last.
  pub engine_run-Keeps :
      (key : String) (h : List (Event Spec))
      → Kept
          (run_plan v (env.get_by_key h key))
          (vault_calls h)
          (vault_calls (run_injector v env key h).1)
  unfolding run_injector
  engine_run-Keeps key h = of_found (env.get_by_key h key) refl
    where
      of_found :
          (r : Result (Option (Object Spec ManagedStatus)))
          → env.get_by_key h key ≡ r
          → Kept
              (run_plan v (env.get_by_key h key))
              (vault_calls h)
              (vault_calls (run_injector v env key h).1)
      of_found (err e) p = rw (p, run_injector) (inl refl)
      of_found (ok none) p = rw (p, run_injector) (inl refl)
      of_found (ok (some se)) p = rw (p, run_injector) (handles se h)
