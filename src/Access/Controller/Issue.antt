-- ===== src/Access/Controller/Issue.antt =====
-- When a credential is issued: only for an approved request that has none yet, and once in a run.
use vault_operator.Base.{
  eq_iff, Result, ◌+◌, ◌≤◌, ◌&&◌, ℕ, String, ◌≡◌, ◌≢◌, refl, ◌∙◌, true, false, Option, none, some,
  List, Error, arith, is_nil, ok, err, Option-cases, Bool-cases, inl, inr, ◌==◌,
}
use vault_operator.Meta.{items, condition_request_approved, ObjectMeta, Vendor}
use vault_operator.Access.Request.{
  successfully_processed, condition_type, Kind, Request, RequestStatus, Credential,
}
use vault_operator.Access.Request.Decision.{LastDecision, approved_lem}
use vault_operator.Access.World.{Event, Env, manager}
use vault_operator.Access.Controller.{
  revoke_lease, delete_cred_secret, roll_back, run_finalizer, remove_finalizer, serve,
  serve_approved, handle, run_injector, update_status, patch_finalizers, fail, finish, bind_role,
  grant, published, publish, store_credential, undo_credential, reconcile,
}
use vault_operator.Access.Controller.Calls.{
  issues, issues-IsSilent, view-update_status, view-patch_finalizers, view-fail, view-finish,
}

-- What must hold of a request for a credential to be issued.
pub record IsDue (req : Request) : Type 0 where
  pub undeleted : req.meta.deletion_timestamp ≡ none
  pub approved : LastDecision condition_request_approved (items req.status.conditions)
  pub unprocessed : successfully_processed req ≡ false
  pub unleased : req.status.lease ≡ none
  pub secretless : req.status.secret ≡ none

module _ (k : Kind) (v : Vendor) (env : Env) where
  update :
      (req : Request) (transform : RequestStatus → RequestStatus) (h : List Event)
      → issues (update_status k v env req transform h).1 ≡ issues h
  update = view-update_status k v env issues (issues-IsSilent env)

  failure :
      (req : Request) (reason : String) (e : Error) (h : List Event)
      → issues (fail k v env req reason e h).1 ≡ issues h
  failure = view-fail k v env issues (issues-IsSilent env)

  finished : (req : Request) (h : List Event) → issues (finish k v env req h).1 ≡ issues h
  finished = view-finish k v env issues (issues-IsSilent env)

  grants :
      (req : Request) (secret : String) (h : List Event)
      → issues (grant k v env (manager env) req secret h).1 ≡ issues h
  unfolding grant bind_role
  grants req secret h = grind (arith, failure, finished)

  publishes :
      (req : Request) (cred : Credential) (secret : String) (h : List Event)
      → issues (publish k v env (manager env) req cred secret h).1 ≡ issues h
  unfolding publish
  publishes req cred secret h = published-issues (update_status k v env req _ h) ∙ update req _ h
    where
      published-issues :
          (r : Option Error × List Event)
          → issues (published k v env (manager env) req secret r).1 ≡ issues r.1
      published-issues (some e, h') = refl
      published-issues (none, h') = grants req secret h'

  stores :
      (req : Request) (cred : Credential) (h : List Event)
      → issues (store_credential k v env (manager env) req cred h).1 ≡ issues h
  unfolding store_credential undo_credential
  stores req cred h = grind (arith, failure, publishes)

  reconciles :
      (req : Request) (h : List Event)
      → issues (reconcile k v env (manager env) req h).1 ≤ issues h + 1
  unfolding reconcile
  reconciles req h = grind (arith, failure, stores)

  holding :
      (req : Request) (h : List Event)
      → is_nil req.status.lease && is_nil req.status.secret ≡ false
      → issues (reconcile k v env (manager env) req h).1 ≡ issues h
  unfolding reconcile
  holding req h p = ground arith

  rolls_back :
      (req : Request) (e : Error) (h : List Event)
      → issues (roll_back k v env (manager env) req e h).1 ≡ issues h
  unfolding roll_back revoke_lease delete_cred_secret
  rolls_back req e h = grind (arith, update)

  finalizes : (req : Request) (h : List Event) → issues (run_finalizer k v env req h).1 ≡ issues h
  unfolding run_finalizer revoke_lease remove_finalizer
  finalizes req h = grind (arith, view-patch_finalizers k v env issues (issues-IsSilent env))

  serves_approved :
      (req : Request) (h : List Event) → issues (serve_approved k v env req h).1 ≤ issues h + 1
  unfolding serve_approved
  serves_approved req h = grind (arith, reconciles, update, rolls_back)

  patches :
      (change : ObjectMeta → String → ObjectMeta) (req : Request) (h : List Event)
      → issues (patch_finalizers k v env change req h).1 ≡ issues h
  patches = view-patch_finalizers k v env issues (issues-IsSilent env)

  serves : (req : Request) (h : List Event) → issues (serve k v env req h).1 ≤ issues h + 1
  unfolding serve
  serves req h = grind (arith, serves_approved, update)

  -- A run issues at most one credential.
  handles_once : (req : Request) (h : List Event) → issues (handle k v env req h).1 ≤ issues h + 1
  unfolding handle
  handles_once req h = grind (arith, serves, patches, finalizes)

  idle :
      (req : Request)
      → ((h : List Event) → issues (serve k v env req h).1 ≡ issues h)
      → (h : List Event) → issues (handle k v env req h).1 ≡ issues h
  unfolding handle
  idle req quiet h = grind (arith, patches, finalizes)

  idle_approved :
      (req : Request)
      → ((h : List Event) → issues (serve_approved k v env req h).1 ≡ issues h)
      → (h : List Event) → issues (serve k v env req h).1 ≡ issues h
  unfolding serve
  idle_approved req quiet h = grind (arith, update)

  idle_deleted :
      (req : Request) (d : ℕ) (h : List Event)
      → req.meta.deletion_timestamp ≡ some d
      → issues (handle k v env req h).1 ≡ issues h
  unfolding handle
  idle_deleted req d h p = grind (arith, finalizes)

  idle_undecided :
      (req : Request) (h : List Event)
      → condition_type req == condition_request_approved ≡ false
      → issues (serve k v env req h).1 ≡ issues h
  unfolding serve
  idle_undecided req h p = grind (arith, update)

  idle_processed :
      (req : Request) (h : List Event)
      → successfully_processed req ≡ true
      → issues (serve_approved k v env req h).1 ≡ issues h
  unfolding serve_approved
  idle_processed req h p = ground arith

  idle_holding :
      (req : Request) (h : List Event)
      → is_nil req.status.lease && is_nil req.status.secret ≡ false
      → issues (serve_approved k v env req h).1 ≡ issues h
  unfolding serve_approved
  idle_holding req h p = grind (arith, holding, update, rolls_back)

  approved_if :
      (req : Request) (h : List Event)
      → issues (handle k v env req h).1 ≢ issues h
      → condition_type req ≡ condition_request_approved
  approved_if req h n = elim (Bool-cases (condition_type req == condition_request_approved)) [
    | inl p ↦ (eq_iff _ _).0 p
    | inr p ↦ absurd (n (idle req (λ h'. idle_undecided req h' p) h))
  ]

  unprocessed_if :
      (req : Request) (h : List Event)
      → issues (handle k v env req h).1 ≢ issues h
      → successfully_processed req ≡ false
  unprocessed_if req h n = elim (Bool-cases (successfully_processed req)) [
    | inl p ↦ absurd (n (idle req (idle_approved req (λ h'. idle_processed req h' p)) h))
    | inr p ↦ p
  ]

  undeleted_if :
      (req : Request) (h : List Event)
      → issues (handle k v env req h).1 ≢ issues h
      → req.meta.deletion_timestamp ≡ none
  undeleted_if req h n = elim (Option-cases req.meta.deletion_timestamp) [
    | inl p ↦ p
    | inr (d, p) ↦ absurd (n (idle_deleted req d h p))
  ]

  unheld_if :
      (req : Request) (h : List Event)
      → issues (handle k v env req h).1 ≢ issues h
      → is_nil req.status.lease && is_nil req.status.secret ≡ true
  unheld_if req h n = elim (Bool-cases (is_nil req.status.lease && is_nil req.status.secret)) [
    | inl p ↦ p
    | inr p ↦ absurd (n (idle req (idle_approved req (λ h'. idle_holding req h' p)) h))
  ]

  handle-IsDue :
      (req : Request) (h : List Event) → issues (handle k v env req h).1 ≢ issues h → IsDue req
  handle-IsDue req h n = record {
    undeleted = undeleted_if req h n;
    approved = approved_lem req (approved_if req h n);
    unprocessed = unprocessed_if req h n;
    unleased = ground (arith, unheld_if req h n);
    secretless = ground (arith, unheld_if req h n);
  }

  -- A run of the controller issues at most one credential. If it issues one, its key is that of a
  -- request that is not being deleted, whose last decision is a true approval, which was not
  -- served already and whose status refers to no lease and to no secret.
  pub run_injector-issues :
      (key : String) (h : List Event)
      → (issues (run_injector k v env key h).1 ≤ issues h + 1)
        × (issues (run_injector k v env key h).1 ≢ issues h
            → (req : Request) × (env.get_by_key h key ≡ ok (some req)) × IsDue req)
  unfolding run_injector
  run_injector-issues key h = (grind (arith, handles_once), found (env.get_by_key h key) refl)
    where
      found :
          (r : Result (Option Request))
          → env.get_by_key h key ≡ r
          → issues (run_injector k v env key h).1 ≢ issues h
          → (req : Request) × (env.get_by_key h key ≡ ok (some req)) × IsDue req
      found (err e) p n = absurd (n (rw (p, run_injector)))
      found (ok none) p n = absurd (n (rw (p, run_injector)))
      found (ok (some req)) p n = (req, p, handle-IsDue req h (rw (p, run_injector) at n))
