-- ===== src/Server/Deploy/Performed.antt =====
-- A chain of calls that ends without an error has made all its calls, in order and without an error.
use vault_operator.Base.{
  String, ◌≡◌, refl, sym, ap, ◌∙◌, inl, inr, Option, none, Option-cases, List, [], ◌∷◌, ◌++◌, Error,
  arith,
}
use vault_operator.Base.Act.{Act}
use vault_operator.Meta.{Vendor}
use vault_operator.Server.Cluster.{
  Server, Call, ensure_service_account, ensure_service, ensure_role, ensure_role_binding,
  ensure_cluster_role_binding, apply_pod_template, ensure_deployment, Event, called, Env, Outcome,
  returned, attempt, calls,
}
use vault_operator.Server.Deploy.{
  VaultSrv, get_rbac, ensure_roles, ensure_role_bindings, deploy_objects,
}
use Prim.Native.String
use mathlib.Core.List.{map}

-- The trace with the calls of a plan made after it.
abbrev pub log : List Call → List (Call × Option Error) → List (Call × Option Error)
log [] before = before
log (c ∷ plan) before = log plan ((c, none) ∷ before)

-- If `m` ends without an error, it has made the calls of the plan and gone on as `rest` does.
pub record Performs (m : Act Event Outcome) (plan : List Call) (rest : Act Event Outcome)
    : Type 0 where
  pub after :
      (h : List Event)
      → (m h).0 ≡ returned none
      → (g : List Event) × (m h ≡ rest g) × (calls g ≡ log plan (calls h))

pub at_once : (m : Act Event Outcome) → Performs m [] m
at_once m = record { after = λ h ends. (h, refl, refl) }

module _ (env : Env) where
  pub attempt-Performs :
      (context : Error → Error) (c : Call) (m rest : Act Event Outcome) (plan : List Call)
      → Performs m plan rest
      → Performs (attempt env context c m) (c ∷ plan) rest
  attempt-Performs context c m rest plan follows = record {
    after = λ h ends. elim (Option-cases (env.call h c)) [
      | inl made ↦
          let p : attempt env context c m h ≡ m (called c none ∷ h) = ground arith in
          let (g, q, r) = follows.after (called c none ∷ h) (ap (λ x. x.0) (sym p) ∙ ends) in
          (g, p ∙ q, r)
      | inr (x, failed) ↦ absurd (ground arith)
    ];
  }

module _ (v : Vendor) (env : Env) where
  ensure_roles-Performs :
      (roles : List String) (m rest : Act Event Outcome) (plan : List Call)
      → Performs m plan rest
      → Performs (ensure_roles v env roles m) (map ensure_role roles ++ plan) rest
  unfolding ensure_roles
  ensure_roles-Performs [] m rest plan follows = follows
  ensure_roles-Performs (r ∷ roles) m rest plan follows =
      attempt-Performs env _ (ensure_role r) _ rest _
        (ensure_roles-Performs roles m rest plan follows)

  ensure_role_bindings-Performs :
      (roles : List String) (m rest : Act Event Outcome) (plan : List Call)
      → Performs m plan rest
      → Performs (ensure_role_bindings v env roles m) (map ensure_role_binding roles ++ plan) rest
  unfolding ensure_role_bindings
  ensure_role_bindings-Performs [] m rest plan follows = follows
  ensure_role_bindings-Performs (r ∷ roles) m rest plan follows =
      attempt-Performs env _ (ensure_role_binding r) _ rest _
        (ensure_role_bindings-Performs roles m rest plan follows)

  -- The objects of a Vault server in the order in which they are written.
  abbrev pub objects_plan : Server → VaultSrv → List Call
  objects_plan vs srv =
      let roles = get_rbac srv.unslr vs.meta.name in
      ensure_service_account vs.meta.name
      ∷ ensure_service_account (v.name_with_suffix vs.meta.name "k8s-token-reviewer")
      ∷ ensure_service vs.meta.name
      ∷ (map ensure_role roles
          ++ (map ensure_role_binding roles
              ++ (ensure_cluster_role_binding (String.◌++◌ vs.meta.name "-k8s-token-reviewer")
                  ∷ apply_pod_template
                  ∷ ensure_deployment vs.meta.name
                  ∷ [])))

  pub deploy_objects-Performs :
      (vs : Server) (srv : VaultSrv) (rest : Act Event Outcome)
      → Performs (deploy_objects v env vs srv rest) (objects_plan vs srv) rest
  unfolding deploy_objects
  deploy_objects-Performs vs srv rest =
      let roles = get_rbac srv.unslr vs.meta.name in
      attempt-Performs env _ _ _ rest _ (
        attempt-Performs env _ _ _ rest _ (
          attempt-Performs env _ _ _ rest _ (
            ensure_roles-Performs roles _ rest _ (
              ensure_role_bindings-Performs roles _ rest _ (
                attempt-Performs env _ _ _ rest _ (
                  attempt-Performs env _ _ _ rest _
                    (attempt-Performs env _ _ rest rest [] (at_once rest))))))))
