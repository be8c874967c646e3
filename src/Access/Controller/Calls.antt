-- ===== src/Access/Controller/Calls.antt =====
-- Views of the trace of an access-request controller, and the steps that leave them alone.
use vault_operator.Base.{ℕ, suc, ok, String, ◌≡◌, ◌≢◌, refl, none, List, [], ◌∷◌, Error}
use vault_operator.Meta.{ObjectMeta, Vendor, AggregateLaw, aggregate-ne-none}
use vault_operator.PatchUtil.Silent.{IsSilent, update_status-IsSilent, patch-IsSilent}
use vault_operator.Access.Request.{Kind, Request, RequestStatus}
use vault_operator.Access.World.{
  Event, got, wrote, wrote_status, sent_patch, made_manager, issued, made_secret, made_role,
  bound_role, revoked, deleted_secret, Env, client,
}
use vault_operator.Access.Controller.{update_status, patch_finalizers, fail, finish}

-- The calls that are not of the request's own API: the manager's and the deletion of a secret.
abbrev pub credential_calls : List Event → List Event
credential_calls [] = []
credential_calls (got _ _ _ ∷ h) = credential_calls h
credential_calls (wrote _ _ ∷ h) = credential_calls h
credential_calls (wrote_status _ _ ∷ h) = credential_calls h
credential_calls (sent_patch _ _ _ ∷ h) = credential_calls h
credential_calls (made_manager e ∷ h) = made_manager e ∷ credential_calls h
credential_calls (issued r ∷ h) = issued r ∷ credential_calls h
credential_calls (made_secret n ns c e ∷ h) = made_secret n ns c e ∷ credential_calls h
credential_calls (made_role n ns s e ∷ h) = made_role n ns s e ∷ credential_calls h
credential_calls (bound_role n ns r s e ∷ h) = bound_role n ns r s e ∷ credential_calls h
credential_calls (revoked l e ∷ h) = revoked l e ∷ credential_calls h
credential_calls (deleted_secret ns n e ∷ h) = deleted_secret ns n e ∷ credential_calls h

-- How many credentials were issued.
abbrev pub issues : List Event → ℕ
issues [] = 0
issues (issued (ok _) ∷ h) = suc (issues h)
issues (_ ∷ h) = issues h

-- How many leases were revoked and secrets deleted, or tried to be.
abbrev pub undone : List Event → ℕ
undone [] = 0
undone (revoked _ _ ∷ h) = suc (undone h)
undone (deleted_secret _ _ _ ∷ h) = suc (undone h)
undone (_ ∷ h) = undone h

pub credential_calls-IsSilent : (env : Env) → IsSilent credential_calls (client env)
credential_calls-IsSilent env = record {
  get = λ _ _ _. refl;
  update_status = λ _ _ _. refl;
  patch = λ _ _ _ _. refl;
}

pub issues-IsSilent : (env : Env) → IsSilent issues (client env)
issues-IsSilent env = record {
  get = λ _ _ _. refl;
  update_status = λ _ _ _. refl;
  patch = λ _ _ _ _. refl;
}

pub undone-IsSilent : (env : Env) → IsSilent undone (client env)
undone-IsSilent env = record {
  get = λ _ _ _. refl;
  update_status = λ _ _ _. refl;
  patch = λ _ _ _ _. refl;
}

-- A view of the trace that the calls of the request's API leave alone.
module _ {X : Type 0} (k : Kind) (v : Vendor) (env : Env) (f : List Event → X)
    (quiet : IsSilent f (client env)) where
  pub view-update_status :
      (req : Request) (transform : RequestStatus → RequestStatus) (h : List Event)
      → f (update_status k v env req transform h).1 ≡ f h
  unfolding update_status
  view-update_status req transform h =
      update_status-IsSilent v (client env) f quiet env.updates req.meta transform h

  pub view-patch_finalizers :
      (change : ObjectMeta → String → ObjectMeta) (req : Request) (h : List Event)
      → f (patch_finalizers k v env change req h).1 ≡ f h
  unfolding patch_finalizers
  view-patch_finalizers change req h = patch-IsSilent v (client env) f quiet req _ h

  pub view-fail :
      (req : Request) (reason : String) (e : Error) (h : List Event)
      → f (fail k v env req reason e h).1 ≡ f h
  unfolding fail
  view-fail req reason e h = view-update_status req _ h

  pub view-finish : (req : Request) (h : List Event) → f (finish k v env req h).1 ≡ f h
  unfolding finish
  view-finish req h = view-update_status req _ h

module _ (k : Kind) (v : Vendor) (env : Env) where
  pub update_status-calls :
      (req : Request) (transform : RequestStatus → RequestStatus) (h : List Event)
      → credential_calls (update_status k v env req transform h).1 ≡ credential_calls h
  update_status-calls = view-update_status k v env credential_calls (credential_calls-IsSilent env)

  pub finish-calls :
      (req : Request) (h : List Event)
      → credential_calls (finish k v env req h).1 ≡ credential_calls h
  finish-calls = view-finish k v env credential_calls (credential_calls-IsSilent env)

  -- A failed step returns an error.
  pub fail-ne-none :
      AggregateLaw v
      → (req : Request) (reason : String) (e : Error) (h : List Event)
      → (fail k v env req reason e h).0 ≢ none
  unfolding fail
  fail-ne-none law req reason e h = aggregate-ne-none v law _ e
