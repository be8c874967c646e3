-- ===== src/Tests/Bindings.antt =====
-- A binding of two policies, one of them by reference.
use vault_operator.Base.{◌≡◌, refl, none, [], ◌∷◌, ok}
use vault_operator.Managed.Policy
use vault_operator.Managed.Policy.{VaultPolicy}
use vault_operator.Managed.Binding.Client.{
  ClientSpec, Env, PBinding, kubernetes_part, name_of, names_of, join, log_in, make_client,
  new_policy_binding_client,
}
use vault_operator.Managed.Binding.Client.Resolved.{IsClientOf, policy_binding_client-IsClientOf}

abbrev policy : VaultPolicy
policy = record {
  meta = record {
    name = "p";
    namespace = "ns";
    generation = 1;
    deletion_timestamp = none;
    finalizers = [];
  };
  spec = record {
    vault_ref = "v";
    vault_policy_name = "readers";
    policy_document = "";
    policy = none;
  };
  status = record { phase = ""; conditions = none; observed_generation = 0 };
}

abbrev vault : Env
vault = record {
  get_policy = λ h ns n. (policy, none);
  new_client = λ h ns n. none;
  set_json_body = λ p. none;
  raw_request = λ h r. none;
}

abbrev spec : ClientSpec
spec = record {
  namespace = "ns";
  vault_ref = "v";
  policies = record { name = "writers"; ref = "" } ∷ record { name = ""; ref = "p" } ∷ [];
  kubernetes = none;
}

abbrev client : PBinding
client = kubernetes_part none ("writers" ∷ Policy.policy_name "" policy ∷ [])

made : (new_policy_binding_client "" vault spec []).0 ≡ ok client
unfolding new_policy_binding_client make_client names_of name_of join log_in
made = refl

policy_binding_client-IsClientOf_example : IsClientOf "" vault spec client
policy_binding_client-IsClientOf_example =
    policy_binding_client-IsClientOf "" vault spec [] client made
