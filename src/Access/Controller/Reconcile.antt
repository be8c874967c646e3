-- ===== src/Access/Controller/Reconcile.antt =====
-- `reconcileXRequest`: what it has done when it succeeds, and what it undoes when it fails.
use vault_operator.Base.{
  String, ◌≡◌, ◌≢◌, refl, Option, none, some, List, ◌∷◌, Error, is_nil, ok, Option-cases,
  Bool-cases, Result-cases, inl, inr, ◌==◌, not, ◌||◌,
}
use vault_operator.Meta.{Vendor, AggregateLaw}
use vault_operator.Access.Request.{Kind, Request, Credential}
use vault_operator.Access.World.{Event, issued, made_secret, made_role, bound_role, Env, manager}
use vault_operator.Access.Controller.{
  update_status, bind_role, grant, published, publish, store_credential, undo_credential, reconcile,
  access_role_name, with_references,
}
use vault_operator.Access.Controller.Calls.{
  credential_calls, update_status-calls, finish-calls, fail-ne-none,
}

module _ (k : Kind) (v : Vendor) (env : Env) (law : AggregateLaw v) where
  abbrev pub role_of : Request → String
  role_of req = access_role_name k v req.meta.namespace req.meta.name

  -- The calls that give the subjects access to the secret, newest first.
  abbrev pub granted : Request → String → List Event → List Event
  granted req secret h =
      bound_role (role_of req) req.meta.namespace (role_of req) req.spec.subjects none
      ∷ made_role (role_of req) req.meta.namespace secret none
      ∷ h

  bind-calls :
      (req : Request) (h : List Event)
      → (bind_role k v env (manager env) req h).0 ≡ none
      → credential_calls (bind_role k v env (manager env) req h).1
        ≡ bound_role (role_of req) req.meta.namespace (role_of req) req.spec.subjects none
          ∷ credential_calls h
  unfolding bind_role
  bind-calls req h =
      elim (Option-cases (
        env.create_role_binding h (role_of req) req.meta.namespace (role_of req)
          req.spec.subjects)) [
            | inl p ↦ rw p (λ _. rw finish-calls)
            | inr (e, p) ↦ rw p (λ q. absurd (fail-ne-none k v env law req _ e _ q))
          ]

  grant-calls :
      (req : Request) (secret : String) (h : List Event)
      → (grant k v env (manager env) req secret h).0 ≡ none
      → credential_calls (grant k v env (manager env) req secret h).1
        ≡ granted req secret (credential_calls h)
  unfolding grant
  grant-calls req secret h =
      elim (Option-cases (env.create_role h (role_of req) req.meta.namespace secret)) [
        | inl p ↦ rw p (λ q. bind-calls req _ q)
        | inr (e, p) ↦ rw p (λ q. absurd (fail-ne-none k v env law req _ e _ q))
      ]

  published-calls :
      (req : Request) (secret : String) (r : Option Error × List Event)
      → (published k v env (manager env) req secret r).0 ≡ none
      → credential_calls (published k v env (manager env) req secret r).1
        ≡ granted req secret (credential_calls r.1)
  unfolding published
  published-calls req secret (some e, h) q = cc
  published-calls req secret (none, h) q = grant-calls req secret h q

  publish-calls :
      (req : Request) (cred : Credential) (secret : String) (h : List Event)
      → (publish k v env (manager env) req cred secret h).0 ≡ none
      → credential_calls (publish k v env (manager env) req cred secret h).1
        ≡ granted req secret (credential_calls h)
  unfolding publish
  publish-calls req cred secret h q =
      rw update_status-calls at
        (published-calls req secret (update_status k v env req (with_references cred secret) h) q)

  undo-ne-none :
      (req : Request) (cred : Credential) (e : Error) (h : List Event)
      → (undo_credential k v env (manager env) req cred e h).0 ≢ none
  unfolding undo_credential
  undo-ne-none req cred e h = elim (Bool-cases (cred.lease_id == "")) [
    | inl p ↦ rw p (fail-ne-none k v env law req _ e h)
    | inr p ↦ rw p (elim (Option-cases (env.revoke_lease h cred.lease_id)) [
      | inl q ↦ rw q (fail-ne-none k v env law req _ e _)
      | inr (e', q) ↦ rw q (λ r. cc)
    ])
  ]

  store-calls :
      (req : Request) (cred : Credential) (h : List Event)
      → (store_credential k v env (manager env) req cred h).0 ≡ none
      → credential_calls (store_credential k v env (manager env) req cred h).1
        ≡ granted req (env.uniq_suffix h req.meta.name) (
            made_secret (env.uniq_suffix h req.meta.name) req.meta.namespace cred none
            ∷ credential_calls h)
  unfolding store_credential
  store-calls req cred h =
      elim (Option-cases
        (env.create_secret h (env.uniq_suffix h req.meta.name) req.meta.namespace cred)) [
          | inl p ↦ rw p (
              publish-calls req cred _
                (made_secret (env.uniq_suffix h req.meta.name) req.meta.namespace cred none ∷ h))
          | inr (e, p) ↦ rw p (λ q. absurd (undo-ne-none req cred e _ q))
        ]

  -- Where `NewAggregate` follows its law: when `reconcile` succeeds it has issued one credential,
  -- stored this credential in a secret of the request's namespace whose name `uniq_suffix` gave for
  -- the request's, made a role that may read this secret and bound the role to the subjects of the
  -- request, in this order and each without an error; it has made no other call of the credential
  -- manager.
  pub reconcile_ok :
      (req : Request) (h : List Event)
      → (reconcile k v env (manager env) req h).0 ≡ none
      → (cred : Credential) × (env.get_credential h ≡ ok cred)
        × (let secret = env.uniq_suffix (issued (ok cred) ∷ h) req.meta.name in
            credential_calls (reconcile k v env (manager env) req h).1
            ≡ granted req secret (
                made_secret secret req.meta.namespace cred none
                ∷ issued (ok cred)
                ∷ credential_calls h))
  unfolding reconcile
  reconcile_ok req h =
      elim (Bool-cases (not (is_nil req.status.lease) || not (is_nil req.status.secret))) [
        | inl p ↦ rw (p, reconcile) (λ q. cc)
        | inr p ↦
            rw (p, reconcile)
              (elim (Result-cases (env.get_credential h)) [
                | inl (cred, q) ↦ rw (q, reconcile) (λ r. (cred, refl, store-calls req cred _ r))
                | inr (e, q) ↦
                    rw (q, reconcile) (λ r. absurd (fail-ne-none k v env law req _ e _ r))
              ])
      ]
