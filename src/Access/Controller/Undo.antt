-- ===== src/Access/Controller/Undo.antt =====
-- What is undone when a run fails, and what is not.
use vault_operator.Base.{
  String, ◌≡◌, refl, ap, ◌∙◌, false, Option, none, some, List, ◌∷◌, Error, arith, ok, ◌==◌, wrap,
  message,
}
use vault_operator.Meta.{ObjectMeta, Vendor}
use vault_operator.Access.Request.{
  Kind, Request, RequestStatus, Credential, Lease, successfully_processed,
}
use vault_operator.Access.World.{
  Event, made_manager, issued, made_secret, revoked, deleted_secret, Env, manager,
}
use vault_operator.Access.Controller.{
  update_status, patch_finalizers, fail, finish, bind_role, grant, published, publish,
  store_credential, undo_credential, reconcile, revoke_lease, delete_cred_secret, roll_back,
  run_finalizer, remove_finalizer, serve_approved,
}
use vault_operator.Access.Controller.Calls.{
  undone, undone-IsSilent, credential_calls, credential_calls-IsSilent, view-update_status,
  view-patch_finalizers, view-fail, view-finish,
}

module _ (k : Kind) (v : Vendor) (env : Env) where
  failure :
      (req : Request) (reason : String) (e : Error) (h : List Event)
      → undone (fail k v env req reason e h).1 ≡ undone h
  failure = view-fail k v env undone (undone-IsSilent env)

  update :
      (req : Request) (transform : RequestStatus → RequestStatus) (h : List Event)
      → undone (update_status k v env req transform h).1 ≡ undone h
  update = view-update_status k v env undone (undone-IsSilent env)

  finished : (req : Request) (h : List Event) → undone (finish k v env req h).1 ≡ undone h
  finished = view-finish k v env undone (undone-IsSilent env)

  grants :
      (req : Request) (secret : String) (h : List Event)
      → undone (grant k v env (manager env) req secret h).1 ≡ undone h
  unfolding grant bind_role
  grants req secret h = grind (arith, failure, finished)

  publishes :
      (req : Request) (cred : Credential) (secret : String) (h : List Event)
      → undone (publish k v env (manager env) req cred secret h).1 ≡ undone h
  unfolding publish
  publishes req cred secret h = published-undone (update_status k v env req _ h) ∙ update req _ h
    where
      published-undone :
          (r : Option Error × List Event)
          → undone (published k v env (manager env) req secret r).1 ≡ undone r.1
      published-undone (some e, h') = refl
      published-undone (none, h') = grants req secret h'

  -- The secret was created, under the name chosen for it.
  abbrev pub Stored : Request → Credential → List Event → Type 0
  Stored req cred h =
      env.create_secret h (env.uniq_suffix h req.meta.name) req.meta.namespace cred ≡ none

  reconciles :
      (req : Request) (cred : Credential) (h : List Event)
      → env.get_credential h ≡ ok cred
      → Stored req cred (issued (ok cred) ∷ h)
      → undone (reconcile k v env (manager env) req h).1 ≡ undone h
  unfolding reconcile store_credential
  reconciles req cred h p q = grind (arith, publishes)

  rolls_back :
      (req : Request) (e : Error) (h : List Event)
      → req.status.lease ≡ none
      → req.status.secret ≡ none
      → undone (roll_back k v env (manager env) req e h).1 ≡ undone h
  unfolding roll_back revoke_lease delete_cred_secret
  rolls_back req e h p q = grind (arith, update)

  -- Once the secret of a fresh request has been created, the run revokes no lease and deletes no
  -- secret, also if a later step fails: the roll-back goes by the references that the status had
  -- before the run, and there are none.
  pub serve_approved-undone :
      (req : Request) (cred : Credential) (h : List Event)
      → req.status.lease ≡ none
      → req.status.secret ≡ none
      → env.new_manager h req ≡ none
      → env.get_credential (made_manager none ∷ h) ≡ ok cred
      → Stored req cred (issued (ok cred) ∷ made_manager none ∷ h)
      → undone (serve_approved k v env req h).1 ≡ undone h
  unfolding serve_approved
  serve_approved-undone req cred h l s m g c =
      grind (arith, reconciles req cred (made_manager none ∷ h) g c, rolls_back)

  calls_of_failure :
      (req : Request) (reason : String) (e : Error) (h : List Event)
      → credential_calls (fail k v env req reason e h).1 ≡ credential_calls h
  calls_of_failure = view-fail k v env credential_calls (credential_calls-IsSilent env)

  calls_of_update :
      (req : Request) (transform : RequestStatus → RequestStatus) (h : List Event)
      → credential_calls (update_status k v env req transform h).1 ≡ credential_calls h
  calls_of_update = view-update_status k v env credential_calls (credential_calls-IsSilent env)

  calls_of_patch :
      (change : ObjectMeta → String → ObjectMeta) (req : Request) (h : List Event)
      → credential_calls (patch_finalizers k v env change req h).1 ≡ credential_calls h
  calls_of_patch = view-patch_finalizers k v env credential_calls (credential_calls-IsSilent env)

  -- When a credential with a lease was issued and its secret cannot be created, the lease is
  -- revoked at once, and this is the last call of the credential manager.
  pub reconcile_secret_fails :
      (req : Request) (cred : Credential) (e : Error) (h : List Event)
      → req.status.lease ≡ none
      → req.status.secret ≡ none
      → env.get_credential h ≡ ok cred
      → cred.lease_id == "" ≡ false
      → let name = env.uniq_suffix (issued (ok cred) ∷ h) req.meta.name in
        env.create_secret (issued (ok cred) ∷ h) name req.meta.namespace cred ≡ some e
        → let h' = made_secret name req.meta.namespace cred (some e) ∷ issued (ok cred) ∷ h in
          credential_calls (reconcile k v env (manager env) req h).1
          ≡ revoked cred.lease_id (env.revoke_lease h' cred.lease_id) ∷ credential_calls h'
  unfolding reconcile store_credential undo_credential
  reconcile_secret_fails req cred e h l s g id c = grind (arith, calls_of_failure)

  roll_back_references :
      (req : Request) (lease : Lease) (secret : String) (e : Error) (h : List Event)
      → req.status.lease ≡ some lease
      → lease.id == "" ≡ false
      → req.status.secret ≡ some secret
      → let h' = revoked lease.id (env.revoke_lease h lease.id) ∷ h in
        credential_calls (roll_back k v env (manager env) req e h).1
        ≡ deleted_secret req.meta.namespace secret (env.delete_secret h' req.meta.namespace secret)
          ∷ credential_calls h'
  unfolding roll_back revoke_lease delete_cred_secret
  roll_back_references req lease secret e h l id s = grind (arith, calls_of_update)

  refused_references :
      (req : Request) (lease : Lease) (h : List Event)
      → req.status.lease ≡ some lease
      → reconcile k v env (manager env) req h
        ≡ (some (message "lease or secret ref is not empty"), h)
  unfolding reconcile
  refused_references req lease h l = ground (arith, l)

  -- An approved request that does not count as served, but whose status refers to a lease with an
  -- id and to a secret, gets no second credential: after the credential manager was made, the lease
  -- is revoked, then the secret is deleted, and no other call of the manager is made, whatever
  -- these two answer. Where the manager cannot be made, neither is undone.
  pub serve_approved_references :
      (req : Request) (lease : Lease) (secret : String) (h : List Event)
      → req.status.lease ≡ some lease
      → lease.id == "" ≡ false
      → req.status.secret ≡ some secret
      → successfully_processed req ≡ false
      → (env.new_manager h req ≡ none
          → let h' = made_manager none ∷ h in
            let h'' = revoked lease.id (env.revoke_lease h' lease.id) ∷ h' in
            credential_calls (serve_approved k v env req h).1
            ≡ deleted_secret req.meta.namespace secret
                (env.delete_secret h'' req.meta.namespace secret)
              ∷ credential_calls h'')
        × ((e : Error)
            → env.new_manager h req ≡ some e
            → credential_calls (serve_approved k v env req h).1
              ≡ made_manager (some e) ∷ credential_calls h)
  unfolding serve_approved
  serve_approved_references req lease secret h l id s p = (
    λ m.
        let refused = message "lease or secret ref is not empty" in
        let same : serve_approved k v env req h
            ≡ roll_back k v env (manager env) req refused (made_manager none ∷ h) =
          ground (arith, refused_references req lease (made_manager none ∷ h) l) in
        ap (λ r. credential_calls r.1) same
        ∙ roll_back_references req lease secret refused (made_manager none ∷ h) l id s,
    λ e m. grind (arith, calls_of_update),
  )

  -- Where the credential manager can be made and the status holds a lease, a deleted request is let
  -- go only after its lease has been revoked: a failed revocation is returned, with no further
  -- call, and a finalizer run that succeeds has revoked the lease.
  pub run_finalizer_revokes :
      (req : Request) (lease : Lease) (h : List Event)
      → env.new_manager h req ≡ none
      → req.status.lease ≡ some lease
      → lease.id == "" ≡ false
      → let h' = made_manager none ∷ h in
        ((e : Error)
          → env.revoke_lease h' lease.id ≡ some e
          → ((run_finalizer k v env req h).0 ≡ some (wrap "%s/%s finalizer: %v" e))
            × ((run_finalizer k v env req h).1 ≡ revoked lease.id (some e) ∷ h'))
        × ((run_finalizer k v env req h).0 ≡ none
            → credential_calls (run_finalizer k v env req h).1
              ≡ revoked lease.id none ∷ credential_calls h')
  unfolding run_finalizer revoke_lease remove_finalizer
  run_finalizer_revokes req lease h m l id =
      (λ e p. grind arith, λ p. grind (arith, calls_of_patch))
