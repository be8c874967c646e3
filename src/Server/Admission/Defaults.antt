-- ===== src/Server/Admission/Defaults.antt =====
-- What the mutator of Vault servers sets: every server that it lets through has the Kubernetes auth
-- method, by which the operator itself logs in.
use vault_operator.Base.{
  ◌≡◌, refl, ap, true, Bool-cases, inl, inr, List, [], ◌∷◌, ◌++◌, arith, eq_iff, if◌then◌else◌,
}
use vault_operator.Server.AuthMethods.{AuthMethod}
use vault_operator.Server.Spec.{VaultServer}
use vault_operator.Server.Admission.{
  has_method, upsert_auth_methods, kubernetes_method, set_default_values,
}

has_method-append :
    (auths : List AuthMethod) (au : AuthMethod) → has_method (auths ++ (au ∷ [])) au ≡ true
has_method-append [] au =
    ground (arith, (eq_iff au.type au.type).1 refl, (eq_iff au.path au.path).1 refl)
has_method-append (a ∷ auths) au = ground (arith, has_method-append auths au)

has_method-upsert :
    (auths : List AuthMethod) (au : AuthMethod)
    → has_method (upsert_auth_methods auths au) au ≡ true
unfolding upsert_auth_methods
has_method-upsert auths au = elim (Bool-cases (has_method auths au)) [
  | inl present ↦ rw present present
  | inr absent ↦ rw absent (has_method-append auths au)
]

upsert_auth_methods_kept :
    (auths : List AuthMethod) (au : AuthMethod)
    → has_method auths au ≡ true
    → upsert_auth_methods auths au ≡ auths
unfolding upsert_auth_methods
upsert_auth_methods_kept auths au present = rw present

abbrev with_methods : VaultServer → List AuthMethod → VaultServer
with_methods vs auths = record vs { spec = record (vs.spec) { auth_methods = auths } }

-- The defaults give a server the Kubernetes auth method, behind its own methods if it has none of
-- this type and path; setting them again changes nothing.
pub set_default_values_lem :
    (vs : VaultServer)
    → let methods = (set_default_values vs).spec.auth_methods in
      (has_method methods kubernetes_method ≡ true)
      × (methods ≡ (
          if has_method vs.spec.auth_methods kubernetes_method
          then vs.spec.auth_methods
          else vs.spec.auth_methods ++ (kubernetes_method ∷ [])))
      × (set_default_values (set_default_values vs) ≡ set_default_values vs)
unfolding set_default_values
set_default_values_lem vs =
    let au = vs.spec.auth_methods in
    let kept : upsert_auth_methods (upsert_auth_methods au kubernetes_method) kubernetes_method
        ≡ upsert_auth_methods au kubernetes_method =
      upsert_auth_methods_kept _ _ (has_method-upsert au kubernetes_method) in
    (has_method-upsert au kubernetes_method, refl, ap (with_methods vs) kept)
