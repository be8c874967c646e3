-- ===== src/Managed/Role/Runs.antt =====
-- Which calls of Vault a whole run of a controller of roles makes.
use vault_operator.Base.{
  String, ◌=ℕ◌, ◌/◌, ◌≡◌, refl, inl, inr, Option, none, some, List, [], ◌∷◌, Error, Result, ok, err,
  Option-cases, Bool-cases,
}
use vault_operator.Base.Act.{pure}
use vault_operator.Meta.{Object, Vendor, AggregateLaw, aggregate-ne-none, finalizer}
use vault_operator.Managed.World.{
  ManagedStatus, Event, Env, VaultCall, new_client, create_role, delete_role, attempt, vault_calls,
  update_status, patch_finalizers, vault_calls-update_status, vault_calls-patch_finalizers,
}
use vault_operator.Managed.Plan.{
  plan_for, Kept, Kept-from, Keeps, Keeps-attempt, Keeps-dispatch, Performs, Performs-attempt,
  Performs-quiet, Performs-wrap, Performs-Tracks, Tracks, Reports,
}
use vault_operator.Managed.Role.{
  Kind, fail, finish, reconcile, remove_finalizer, delete, processing, provision, started, serve,
  prepared, run_finalizer, handle, run_injector,
}

abbrev pub setup_plan : List VaultCall
setup_plan = new_client ∷ create_role ∷ []

abbrev pub cleanup_plan : List VaultCall
cleanup_plan = new_client ∷ delete_role ∷ []

abbrev pub run_plan :
    {Spec : Type 0} → Vendor → Result (Option (Object Spec ManagedStatus)) → List VaultCall
run_plan v (err e) = []
run_plan v (ok none) = []
run_plan v (ok (some role)) =
    plan_for setup_plan cleanup_plan role.meta.deletion_timestamp
      (v.has_finalizer role.meta finalizer)

module _ {Spec : Type 0} (k : Kind) (v : Vendor) (env : Env Spec) (law : AggregateLaw v) where
  Reports-fail : (role : Object Spec ManagedStatus) → Reports env (fail k v env role)
  unfolding fail
  Reports-fail role = record {
    quiet = λ e h. vault_calls-update_status v env _ _ h;
    fails = λ e h. aggregate-ne-none v law _ _;
  }

  finishes : (role : Object Spec ManagedStatus) → Performs env [] (finish k v env role)
  unfolding finish
  finishes role = Performs-quiet env _ (λ h. vault_calls-update_status v env _ _ h)

  -- `reconcile` creates the role in Vault, calls nothing else, and succeeds only if that was done.
  pub role-Performs :
      (role : Object Spec ManagedStatus) → Performs env (create_role ∷ []) (reconcile k v env role)
  unfolding reconcile
  role-Performs role = Performs-attempt env _ (Reports-fail role) (finishes role)

  provisions : (role : Object Spec ManagedStatus) → Keeps env setup_plan (provision k v env role)
  unfolding provision
  provisions role =
      Keeps-attempt env new_client (λ e. pure (some e)) (λ e h. refl)
        (Performs-Tracks env (Performs-wrap env _ (role-Performs role)))

  releases :
      (role : Object Spec ManagedStatus) (h : List (Event Spec))
      → vault_calls (remove_finalizer k v env role h).1 ≡ vault_calls h
  unfolding remove_finalizer
  releases role h = vault_calls-patch_finalizers v env v.remove_finalizer role h

  deletes : (role : Object Spec ManagedStatus) → Tracks env (delete_role ∷ []) (delete k v env role)
  unfolding delete
  deletes role = record {
    follows = λ h. elim (Option-cases (env.vault h delete_role)) [
      | inl p ↦ rw (p, delete, attempt) (inr (releases role _))
      | inr (e, p) ↦ elim (Bool-cases (env.status_code h delete_role / 100 =ℕ 4)) [
        | inl c ↦ rw (p, c, delete, attempt) (inl (e, releases role _))
        | inr c ↦ rw (p, c, delete, attempt) (inl (e, refl))
      ]
    ];
  }

  finalizes :
      (role : Object Spec ManagedStatus) → Keeps env cleanup_plan (run_finalizer k v env role)
  unfolding run_finalizer
  finalizes role =
      Keeps-attempt env new_client (λ _. remove_finalizer k v env role) (λ e h. releases role h)
        (deletes role)

  starts :
      (role : Object Spec ManagedStatus)
      (r : (Option (Object Spec ManagedStatus) × Option Error) × List (Event Spec))
      → Kept setup_plan (vault_calls r.1) (vault_calls (started k v env role r).1)
  unfolding started
  starts role ((result, some e), h) = inl refl
  starts role ((some new_role, none), h) = provisions new_role h
  starts role ((none, none), h) = provisions role h

  serves : (role : Object Spec ManagedStatus) → Keeps env setup_plan (serve k v env role)
  unfolding serve
  serves role h = elim (Option-cases role.status.conditions) [
    | inl p ↦
        rw (p, serve)
          (Kept-from setup_plan (vault_calls-update_status v env role.meta processing h)
            (starts role (update_status v env role.meta processing h)))
    | inr (cs, p) ↦ rw (p, serve) (provisions role h)
  ]

  prepares :
      (role : Object Spec ManagedStatus) (r : Option Error × List (Event Spec))
      → Kept setup_plan (vault_calls r.1) (vault_calls (prepared k v env role r).1)
  unfolding prepared
  prepares role (some e, h) = inl refl
  prepares role (none, h) = serves role h

  handles :
      (role : Object Spec ManagedStatus)
      → Keeps env (run_plan v (ok (some role))) (handle k v env role)
  unfolding handle
  handles role =
      Keeps-dispatch env setup_plan cleanup_plan _ _
        (λ h. prepared k v env role (patch_finalizers v env v.add_finalizer role h))
        (finalizes role) (serves role)
        (λ h.
          Kept-from setup_plan (vault_calls-patch_finalizers v env v.add_finalizer role h)
            (prepares role (patch_finalizers v env v.add_finalizer role h)))
        role.meta.deletion_timestamp (v.has_finalizer role.meta finalizer)

  -- A run of the controller creates a role in Vault only if the object is not being deleted, and
  -- deletes it there only if the object is being deleted and has the finalizer. It makes no call
  -- of Vault at all, or those of that plan in their order, of which one that fails is the last.
  pub role_run-Keeps :
      (key : String) (h : List (Event Spec))
      → Kept
          (run_plan v (env.get_by_key h key))
          (vault_calls h)
          (vault_calls (run_injector k v env key h).1)
  unfolding run_injector
  role_run-Keeps key h = of_found (env.get_by_key h key) refl
    where
      of_found :
          (r : Result (Option (Object Spec ManagedStatus)))
          → env.get_by_key h key ≡ r
          → Kept
              (run_plan v (env.get_by_key h key))
              (vault_calls h)
              (vault_calls (run_injector k v env key h).1)
      of_found (err e) p = rw (p, run_injector) (inl refl)
      of_found (ok none) p = rw (p, run_injector) (inl refl)
      of_found (ok (some role)) p = rw (p, run_injector) (handles role h)
