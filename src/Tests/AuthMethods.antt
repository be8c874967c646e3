-- ===== src/Tests/AuthMethods.antt =====
-- A Vault server whose auth methods are applied, and one whose policy never succeeds.
use vault_operator.Base.{String, ◌≡◌, refl, none, some, List, [], ◌∷◌, Option, Error, ok, false}
use vault_operator.PatchUtil.{attempts, wait_timeout}
use vault_operator.Server.AuthMethods.{AuthMethod, Env, enable_auth_methods}
use vault_operator.Server.AuthMethods.Sequence.{
  Server, Call, Ticker, World, wait_round, apply_methods, with_client, with_binding, with_policy,
  reconcile_auth_methods,
}
use vault_operator.Server.AuthMethods.Sequence.Prepared.{
  IsGuarded, reconcile_auth_methods-IsGuarded,
}

abbrev ticker : (S : Type 0) → Ticker S
ticker S = record {
  poll_until = attempts 2;
  ticks = λ condition s. 2;
  poll_until_lem = λ condition s. refl;
}

abbrev kubernetes : AuthMethod
kubernetes = record {
  type = "kubernetes";
  path = "k8s";
  description = "";
  config = none;
  plugin_name = "";
  local = false;
}

abbrev server_in : String → Server
server_in phase = record {
  name = "v";
  namespace = "ns";
  phase = phase;
  auth_methods = kubernetes ∷ [];
  auth_method_status = [];
}

abbrev vault : Env
vault = record {
  list_auth = λ h. ok [];
  enable_auth = λ h p o. none;
  disable_auth = λ h p. none;
  clean = λ p. p;
  error_text = λ e. "";
}

-- The server runs from the second look on; `phase` is that of the policy.
abbrev world : String → World
world phase = record {
  servers = ticker (Server × List Call);
  phases = ticker (String × List Call);
  get_server = λ h ns n. elim h [ [] ↦ ok (server_in "Sealed") | _ ∷ _ ↦ ok (server_in "Running") ];
  ensure_policy = λ h ns n. none;
  get_policy = λ h ns n. ok phase;
  ensure_binding = λ h ns n. none;
  get_binding = λ h ns n. ok "Success";
  new_client = λ h. none;
  vault = λ h. vault;
  update_status = λ h ss. none;
}

abbrev suffixed : String → String → String
suffixed name suffix = name

abbrev run : String → Option Error × List Call
run phase = reconcile_auth_methods (world phase) suffixed (server_in "Sealed") []

finished : (run "Success").0 ≡ none
unfolding reconcile_auth_methods with_policy with_binding with_client apply_methods wait_round
    attempts enable_auth_methods
finished = refl

timed_out : (run "Failed").0 ≡ some wait_timeout
unfolding reconcile_auth_methods with_policy wait_round attempts
timed_out = refl

reconcile_auth_methods-IsGuarded_example :
    IsGuarded
      (world "Success")
      suffixed
      (server_in "Sealed")
      (reconcile_auth_methods (world "Success") suffixed (server_in "Sealed") [])
reconcile_auth_methods-IsGuarded_example =
    reconcile_auth_methods-IsGuarded (world "Success") suffixed (server_in "Sealed")
