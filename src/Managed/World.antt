-- ===== src/Managed/World.antt =====
-- What a run of a controller of managed resources does outside itself. The Vault clients of the
-- four kinds (pkg/vault/{role, engine, policy, policybinding}) stand behind `vault`.
use vault_operator.Base.{
  ℕ, String, ◌≡◌, refl, Option, none, some, List, [], ◌∷◌, Error, Fallible, Result,
}
use vault_operator.Base.{Bool, true, false}
use vault_operator.Base.Act.{Act, pure}
use vault_operator.Meta.{
  Object, ObjectMeta, Vendor, Conditions, finalizer, condition_failed, condition_available,
  condition_true,
}
use vault_operator.PatchUtil
use vault_operator.PatchUtil.{Client, Poller, TryState, UpdateState}
use vault_operator.PatchUtil.Silent.{IsSilent, update_status-IsSilent, patch-IsSilent}

pub record ManagedStatus : Type 0 where
  pub phase : String
  pub conditions : Conditions
  pub observed_generation : ℕ

-- A call of a Vault client, with the arguments that the controllers choose.
pub data VaultCall : Type 0 where
  new_client : VaultCall
  create_role : VaultCall
  delete_role : VaultCall
  create_policy update_auth_role enable_engine create_config : VaultCall
  delete_policy_and_update_role disable_engine : VaultCall
  ensure_policy : String → String → VaultCall
  delete_policy : String → VaultCall
  ensure_binding delete_binding : String → VaultCall

-- A call that was made, with the error that it returned.
pub data Event (Spec : Type 0) : Type 0 where
  got : String → String → Option Error → Event Spec
  wrote : Object Spec ManagedStatus → Option Error → Event Spec
  wrote_status : Object Spec ManagedStatus → Option Error → Event Spec
  sent_patch : String → String → Option Error → Event Spec
  called : VaultCall → Option Error → Event Spec

-- The outside systems. Each answer may depend on all that was called before.
pub record Env (Spec : Type 0) : Type 0 where
  pub get_by_key : List (Event Spec) → String → Result (Option (Object Spec ManagedStatus))
  pub get : List (Event Spec) → String → String → Fallible (Object Spec ManagedStatus)
  pub create : List (Event Spec) → Object Spec ManagedStatus → Fallible (Object Spec ManagedStatus)
  pub update : List (Event Spec) → Object Spec ManagedStatus → Fallible (Object Spec ManagedStatus)
  pub update_status :
      List (Event Spec) → Object Spec ManagedStatus → Fallible (Object Spec ManagedStatus)
  pub patch : List (Event Spec) → String → String → String → Fallible (Object Spec ManagedStatus)
  pub marshal : Object Spec ManagedStatus → Result String
  pub create_merge_patch : String → String → Result String
  pub zero_spec : Spec
  pub zero_status : ManagedStatus
  pub updates : Poller (UpdateState (Event Spec) Spec ManagedStatus)
  pub vault : List (Event Spec) → VaultCall → Option Error
  pub status_code : List (Event Spec) → VaultCall → ℕ
  pub now : List (Event Spec) → ℕ

abbrev pub client : {Spec : Type 0} → Env Spec → Client (Event Spec) Spec ManagedStatus
client env = record {
  get = λ ns n h. let r = env.get h ns n in (r, got ns n r.1 ∷ h);
  create = λ ns o h. let r = env.create h o in (r, wrote o r.1 ∷ h);
  update = λ ns o h. let r = env.update h o in (r, wrote o r.1 ∷ h);
  update_status = λ ns o h. let r = env.update_status h o in (r, wrote_status o r.1 ∷ h);
  patch = λ ns n p h. let r = env.patch h ns n p in (r, sent_patch n p r.1 ∷ h);
  marshal = env.marshal;
  create_merge_patch = env.create_merge_patch;
  zero_spec = env.zero_spec;
  zero_status = env.zero_status;
}

-- `err := …; if err != nil { … }` around a call.
abbrev pub attempt :
    {Spec : Type 0}
    → Env Spec
    → VaultCall
    → (Error → Act (Event Spec) (Option Error))
    → Act (Event Spec) (Option Error)
    → Act (Event Spec) (Option Error)
attempt env c failed then' h =
    let e = env.vault h c in
    elim e [ some x ↦ failed x (called c (some x) ∷ h) | none ↦ then' (called c none ∷ h) ]

-- The branches of an injector: by the deletion timestamp, and by whether the finalizer is there.
abbrev pub dispatch :
    {Spec : Type 0}
    → Option ℕ
    → Bool
    → Act (Event Spec) (Option Error)
    → Act (Event Spec) (Option Error)
    → Act (Event Spec) (Option Error)
    → Act (Event Spec) (Option Error)
dispatch (some _) true finalize serve prepare = finalize
dispatch (some _) false finalize serve prepare = pure none
dispatch none true finalize serve prepare = serve
dispatch none false finalize serve prepare = prepare

-- The calls of Vault clients in a trace, newest first.
abbrev pub vault_calls : {Spec : Type 0} → List (Event Spec) → List (VaultCall × Option Error)
vault_calls [] = []
vault_calls (got _ _ _ ∷ h) = vault_calls h
vault_calls (wrote _ _ ∷ h) = vault_calls h
vault_calls (wrote_status _ _ ∷ h) = vault_calls h
vault_calls (sent_patch _ _ _ ∷ h) = vault_calls h
vault_calls (called c e ∷ h) = (c, e) ∷ vault_calls h

pub vault_calls-IsSilent : {Spec : Type 0} (env : Env Spec) → IsSilent vault_calls (client env)
vault_calls-IsSilent env = record {
  get = λ _ _ _. refl;
  update_status = λ _ _ _. refl;
  patch = λ _ _ _ _. refl;
}

-- The status after a failed step, and after the last one.
abbrev pub with_failed : Vendor → String → Error → ℕ → ManagedStatus → ManagedStatus
with_failed v reason e now status = record status {
  conditions = v.set_condition now status.conditions (record {
    type = condition_failed;
    status = condition_true;
    observed_generation = 0;
    last_transition_time = 0;
    reason = reason;
    message = v.error_text e;
  });
}

abbrev pub provisioned : Vendor → String → ℕ → Conditions → Conditions
provisioned v text now conditions = v.set_condition now conditions (record {
  type = condition_available;
  status = condition_true;
  observed_generation = 0;
  last_transition_time = 0;
  reason = "Provisioned";
  message = text;
})

module _ {Spec : Type 0} (v : Vendor) (env : Env Spec) where
  unfoldable pub update_status :
      ObjectMeta
      → (ManagedStatus → ManagedStatus)
      → Act (Event Spec) (Option (Object Spec ManagedStatus) × Option Error)
  update_status = PatchUtil.update_status v (client env) env.updates

  unfoldable pub patch_finalizers :
      (ObjectMeta → String → ObjectMeta)
      → Object Spec ManagedStatus
      → Act (Event Spec) (Option Error)
  patch_finalizers change o h =
      let (r, h') =
        PatchUtil.patch v (client env) o (λ x. record x { meta = change x.meta finalizer }) h in
      (r.2, h')

  pub vault_calls-update_status :
      (meta : ObjectMeta) (transform : ManagedStatus → ManagedStatus) (h : List (Event Spec))
      → vault_calls (update_status meta transform h).1 ≡ vault_calls h
  unfolding update_status
  vault_calls-update_status meta transform h =
      update_status-IsSilent v (client env) vault_calls (vault_calls-IsSilent env) env.updates meta
        transform h

  pub vault_calls-patch_finalizers :
      (change : ObjectMeta → String → ObjectMeta) (o : Object Spec ManagedStatus)
      (h : List (Event Spec))
      → vault_calls (patch_finalizers change o h).1 ≡ vault_calls h
  unfolding patch_finalizers
  vault_calls-patch_finalizers change o h =
      patch-IsSilent v (client env) vault_calls (vault_calls-IsSilent env) o _ h
