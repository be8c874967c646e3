-- ===== src/Managed/Binding/Client.antt =====
-- The client behind the controller of policy bindings: pkg/vault/policybinding/policy_binding.go.
-- The login to Vault and the requests are answered by `Env`.
pub mod Resolved
use vault_operator.Base.{
  String, Bool, true, false, not, Option, none, some, List, [], ◌∷◌, ◌==◌, if◌then◌else◌, Error,
  message, wrap, Fallible, Result, ok, err,
}
use vault_operator.Base.Act.{Act, pure, ◌>>=◌}
use vault_operator.Managed.Policy.{VaultPolicy, policy_name}
use Prim.Native.String

pub record PolicyIdentifier : Type 0 where
  pub name : String
  pub ref : String

pub record KubernetesSubjectRef : Type 0 where
  pub path : String
  pub service_account_names : List String
  pub service_account_namespaces : List String
  pub ttl : String
  pub max_ttl : String
  pub period : String

-- What the client reads of a binding: its namespace and its spec.
pub record ClientSpec : Type 0 where
  pub namespace : String
  pub vault_ref : String
  pub policies : List PolicyIdentifier
  pub kubernetes : Option KubernetesSubjectRef

pub record PBinding : Type 0 where
  pub policies : List String
  pub sa_names : List String
  pub sa_namespaces : List String
  pub ttl : String
  pub max_ttl : String
  pub period : String
  pub path : String

pub record Payload : Type 0 where
  pub bound_service_account_names : List String
  pub bound_service_account_namespaces : List String
  pub policies : List String
  pub ttl : String
  pub max_ttl : String
  pub period : String

-- A request to Vault: its method, its path and the JSON body.
pub record Request : Type 0 where
  pub method : String
  pub path : String
  pub body : Option Payload

pub data Event : Type 0 where
  got_policy : String → String → Option Error → Event
  logged_in : String → String → Option Error → Event
  sent : Request → Option Error → Event

pub record Env : Type 0 where
  pub get_policy : List Event → String → String → Fallible VaultPolicy
  pub new_client : List Event → String → String → Option Error
  pub set_json_body : Payload → Option Error
  pub raw_request : List Event → Request → Option Error

-- The fields that come from `.spec.kubernetes`, with the default path.
abbrev pub kubernetes_part : Option KubernetesSubjectRef → List String → PBinding
kubernetes_part none policies = record {
  policies = policies;
  sa_names = [];
  sa_namespaces = [];
  ttl = "";
  max_ttl = "";
  period = "";
  path = "";
}
kubernetes_part (some k) policies = record {
  policies = policies;
  sa_names = k.service_account_names;
  sa_namespaces = k.service_account_namespaces;
  ttl = k.ttl;
  max_ttl = k.max_ttl;
  period = k.period;
  path = if k.path == "" then "kubernetes" else k.path;
}

abbrev pub role_path : PBinding → String → String
role_path pb name = String.◌++◌ "/v1/auth/" (String.◌++◌ pb.path (String.◌++◌ "/role/" name))

abbrev pub payload_of : PBinding → Payload
payload_of pb = record {
  bound_service_account_names = pb.sa_names;
  bound_service_account_namespaces = pb.sa_namespaces;
  policies = pb.policies;
  ttl = pb.ttl;
  max_ttl = pb.max_ttl;
  period = pb.period;
}

-- The append of the loop, unless one of the two is an error.
unfoldable pub join : Result String → Result (List String) → Result (List String)
join (err e) rest = err e
join (ok n) (err e) = err e
join (ok n) (ok ns) = ok (n ∷ ns)

module _ (cluster_name : String) (env : Env) where
  -- One round of the loop over the policies: the name in Vault of a policy.
  unfoldable pub name_of : String → PolicyIdentifier → Act Event (Result String)
  name_of namespace id h =
      if not (id.ref == "")
      then (let r = env.get_policy h namespace id.ref in
          (
            elim r.1 [
              | some e ↦ err (wrap "for .spec.policies" e)
              | none ↦ ok (policy_name cluster_name r.0)
            ],
            got_policy namespace id.ref r.1 ∷ h,
          ))
      else (ok id.name, h)

  unfoldable pub names_of : String → List PolicyIdentifier → Act Event (Result (List String))
  names_of namespace [] = pure (ok [])
  names_of namespace (id ∷ ids) = do
    r ← name_of namespace id
    rest ← elim r [ err e ↦ pure (err e) | ok n ↦ names_of namespace ids ]
    pure (join r rest)

  -- `vault.NewClient` of the reference.
  unfoldable pub log_in : ClientSpec → List String → Act Event (Result PBinding)
  log_in spec policies h =
      if spec.vault_ref == ""
      then (err (message "spec.vaultRef must not be empty"), h)
      else (let e = env.new_client h spec.namespace spec.vault_ref in
          (
            elim e [ some x ↦ err x | none ↦ ok (kubernetes_part spec.kubernetes policies) ],
            logged_in spec.namespace spec.vault_ref e ∷ h,
          ))

  -- What follows the test of the policies.
  unfoldable pub make_client : ClientSpec → List PolicyIdentifier → Act Event (Result PBinding)
  make_client spec [] = pure (err (message ".spec.policies must be non empty"))
  make_client spec (id ∷ ids) = do
    r ← names_of spec.namespace (id ∷ ids)
    elim r [ err e ↦ pure (err e) | ok names ↦ log_in spec names ]

  unfoldable pub new_policy_binding_client : ClientSpec → Act Event (Result PBinding)
  new_policy_binding_client spec = make_client spec spec.policies

  pub send : Request → Act Event (Option Error)
  send req h = let e = env.raw_request h req in (e, sent req e ∷ h)

  pub ensure : PBinding → String → Act Event (Option Error)
  ensure pb name = elim (env.set_json_body (payload_of pb)) [
    | some e ↦ pure (some e)
    | none ↦
        send (record { method = "POST"; path = role_path pb name; body = some (payload_of pb) })
  ]

  pub delete : PBinding → String → Act Event (Option Error)
  delete pb name = send (record { method = "DELETE"; path = role_path pb name; body = none })
