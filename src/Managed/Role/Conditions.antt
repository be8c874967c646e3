-- ===== src/Managed/Role/Conditions.antt =====
-- The conditions of a role after a successful run.
use vault_operator.Base.{
  ◌≢◌, ℕ, ◌≡◌, refl, ◌∙◌, Bool, true, false, Option, none, some, List, ◌∷◌, Error, String,
  Option-cases, inl, inr, if◌then◌else◌,
}
use vault_operator.Meta.{
  aggregate-ne-none, Object, Vendor, AggregateLaw, ConditionLaws, IsUnique, items, status_of,
  condition_failed, condition_available, condition_true,
}
use vault_operator.PatchUtil.Status.{IsWritten, update_status_ok}
use vault_operator.Managed.World.{
  attempt, with_failed, ManagedStatus, Event, Env, client, create_role, called, update_status,
}
use vault_operator.Managed.Role.{
  Kind, mongodb, with_available, clear_failed, fail, finish, reconcile,
}

abbrev pub is_mongodb : Kind → Bool
is_mongodb mongodb = true
is_mongodb _ = false

module _ (v : Vendor) (laws : ConditionLaws v) where
  clear_failed_lem :
      (k : Kind) (st : ManagedStatus)
      → IsUnique (items st.conditions)
      → status_of condition_failed (clear_failed k v st).conditions
        ≡ (if is_mongodb k then status_of condition_failed st.conditions else none)
  clear_failed_lem mongodb st u = refl
  clear_failed_lem _ st u =
      laws.status_of-remove_condition st.conditions condition_failed condition_failed u

  clear_failed-IsUnique :
      (k : Kind) (st : ManagedStatus)
      → IsUnique (items st.conditions)
      → IsUnique (items (clear_failed k v st).conditions)
  clear_failed-IsUnique mongodb st u = u
  clear_failed-IsUnique _ st u = laws.remove_condition-IsUnique st.conditions condition_failed u

  -- With helpers of conditions that follow their laws: where each type stands at most once among
  -- the conditions of a status, as in the empty list, this also holds of the statuses of a success
  -- and of a failure; that of a success has the condition Available, and no condition Failed; but a
  -- MongoDB role keeps the condition Failed that it had.
  pub with_available_conditions :
      (k : Kind) (generation now : ℕ) (st : ManagedStatus)
      → IsUnique (items st.conditions)
      → let after = (with_available k v generation now st).conditions in
        IsUnique (items after)
        × ((reason : String) (e : Error)
            → IsUnique (items (with_failed v reason e now st).conditions))
        × (status_of condition_available after ≡ some condition_true)
        × (status_of condition_failed after
            ≡ (if is_mongodb k then status_of condition_failed st.conditions else none))
  with_available_conditions k generation now st u = (
    laws.set_condition-IsUnique _ _ _ (clear_failed-IsUnique k st u),
    λ reason e. laws.set_condition-IsUnique _ _ _ u,
    laws.status_of-set_condition _ _ _ condition_available,
    laws.status_of-set_condition _ _ _ condition_failed ∙ clear_failed_lem k st u,
  )

module _ {Spec : Type 0} (k : Kind) (v : Vendor) (env : Env Spec) (law : AggregateLaw v) where
  fail-ne-none :
      (role : Object Spec ManagedStatus) (e : Error) (h : List (Event Spec))
      → (fail k v env role e h).0 ≢ none
  unfolding fail
  fail-ne-none role e h = aggregate-ne-none v law _ _

  finish_ok :
      (role : Object Spec ManagedStatus) (h : List (Event Spec))
      → (finish k v env role h).0 ≡ none
      → (out : Option (Object Spec ManagedStatus)) × IsWritten
          (client env)
          role.meta
          (with_available k v role.meta.generation (env.now h))
          out
  unfolding finish update_status
  finish_ok role h q = (_, update_status_ok v (client env) role.meta _ env.updates h q)

  -- When `reconcile` succeeds, the role was created in Vault, and then the status of a success was
  -- written over the status of an object that was read from the API server.
  pub role_reconcile_ok :
      (role : Object Spec ManagedStatus) (h : List (Event Spec))
      → (reconcile k v env role h).0 ≡ none
      → let now = env.now (called create_role none ∷ h) in
        (env.vault h create_role ≡ none)
        × (out : Option (Object Spec ManagedStatus)) × IsWritten
            (client env)
            role.meta
            (with_available k v role.meta.generation now)
            out
  unfolding reconcile
  role_reconcile_ok role h = elim (Option-cases (env.vault h create_role)) [
    | inr (e, p) ↦ rw (p, reconcile, attempt) (λ q. absurd (fail-ne-none role e _ q))
    | inl p ↦ rw (p, reconcile, attempt) (λ q. let (out, w) = finish_ok role _ q in (refl, out, w))
  ]
