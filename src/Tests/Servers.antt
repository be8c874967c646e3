-- ===== src/Tests/Servers.antt =====
-- A Vault server of three pods, and a Vault with one auth method.
use vault_operator.Base.{
  ℕ, String, ◌≡◌, ◌≢◌, ◌⊎◌, refl, true, false, Option, none, some, List, [], ◌∷◌, ◌==◌,
  if◌then◌else◌, Error, message, Result, ok, err,
}
use vault_operator.Meta.{Object}
use vault_operator.PatchUtil
use vault_operator.PatchUtil.{Client, UpdateState, attempts, update_status_round}
use vault_operator.Server.Health.{
  ServerStatus, Pod, HealthResponse, visit, visit_all, look, update_local_status, phase_running,
  update_server_status,
}
use vault_operator.Server.Health.Survey.{
  answers, IsDescribed, update_local_status-IsDescribed, running-active,
}
use vault_operator.Server.Health.Written.{IsReported, server_status_ok}
use vault_operator.Server.AuthMethods.{
  AuthMethod, AuthMethodStatus, Env, enable_auth_methods, disable_auth_methods,
}
use vault_operator.Server.AuthMethods.Applied.{
  AllTold, Unexpected, disabled_paths, enable_auth_methods-AllTold, disable_auth_methods-Unexpected,
  disable_auth_methods-forgets,
}
use vault_operator.Tests.Systems.{plain, thrice}

abbrev fresh : ServerStatus
fresh = record {
  observed_generation = 0;
  phase = "Processing";
  initialized = false;
  service_name = "v";
  client_port = 8200;
  vault_status = record { active = ""; standby = []; sealed = []; unsealed = [] };
  updated_nodes = [];
  conditions = none;
}

abbrev pod : String → Pod
pod n = record { name = n; phase = "Running"; deletion_timestamp = none; image = "vault" }

abbrev health : Pod → Result HealthResponse
health p =
    if p.name == "a"
    then ok (record { initialized = true; sealed = false; standby = false })
    else if p.name == "b"
    then ok (record { initialized = true; sealed = true; standby = true })
    else err (message "no route")

abbrev others : List Pod
others = pod "b" ∷ pod "c" ∷ []

update_local_status-IsDescribed_example :
    IsDescribed "vault"
      (answers health (pod "a" ∷ others))
      fresh
      (update_local_status (ok "vault") (ok (pod "a" ∷ others)) health fresh)
update_local_status-IsDescribed_example =
    update_local_status-IsDescribed "vault" health (pod "a") others fresh

abbrev round : ServerStatus
round = update_local_status (ok "vault") (ok (pod "a" ∷ others)) health fresh

runs : round.phase ≡ phase_running
unfolding update_local_status visit_all visit look
runs = refl

running-active_example :
    ((round.initialized ≡ true) × (round.vault_status.active ≢ "")) ⊎ (fresh.phase ≡ phase_running)
running-active_example = running-active (ok "vault") (ok (pod "a" ∷ others)) health fresh runs

abbrev server : Object ℕ ServerStatus
server = record {
  meta = record {
    name = "v";
    namespace = "ns";
    generation = 1;
    deletion_timestamp = none;
    finalizers = [];
  };
  spec = 3;
  status = fresh;
}

abbrev willing : Client ℕ ℕ ServerStatus
willing = record {
  get = λ ns n h. ((server, none), h);
  create = λ ns o h. ((o, none), h);
  update = λ ns o h. ((o, none), h);
  update_status = λ ns o h. ((o, none), h);
  patch = λ ns n p h. ((server, none), h);
  marshal = λ o. ok "";
  create_merge_patch = λ a b. ok "{}";
  zero_spec = 0;
  zero_status = fresh;
}

reported :
    (update_server_status plain willing
      (thrice (UpdateState ℕ ℕ ServerStatus))
      "v"
      "ns"
      fresh
      []
      []).0.0.1
    ≡ none
unfolding update_server_status PatchUtil.update_status attempts update_status_round
reported = refl

server_status_ok_example :
    IsReported plain willing
      (thrice (UpdateState ℕ ℕ ServerStatus))
      "v"
      "ns"
      fresh
      []
      (update_server_status plain willing
        (thrice (UpdateState ℕ ℕ ServerStatus))
        "v"
        "ns"
        fresh
        []
        []).0.0.0
server_status_ok_example =
    server_status_ok plain willing (thrice (UpdateState ℕ ℕ ServerStatus)) "v" "ns" fresh [] []
      reported

abbrev method : String → AuthMethod
method p = record {
  type = "kubernetes";
  path = p;
  description = "";
  config = none;
  plugin_name = "";
  local = false;
}

abbrev enabled_status : AuthMethodStatus
enabled_status = record {
  type = "kubernetes";
  path = "old";
  status = "EnableSucceeded";
  reason = "";
}

abbrev known : List (String × String)
known = ("k8s/", "kubernetes") ∷ []

-- `disable` is the error of every call that disables.
abbrev vault : Option Error → Env
vault disable = record {
  list_auth = λ h. ok known;
  enable_auth = λ h p o. none;
  disable_auth = λ h p. disable;
  clean = λ p. p;
  error_text = λ e. "";
}

enable_auth_methods-AllTold_example :
    ((e : Error)
      → ok known ≡ err e
      → (enable_auth_methods (vault none) (method "k8s" ∷ method "gcp" ∷ []) []).0 ≡ err e)
    × ((auth_list : List (String × String))
        → ok known ≡ ok auth_list
        → (resp : List AuthMethodStatus) × ((enable_auth_methods
              (vault none)
              (method "k8s" ∷ method "gcp" ∷ [])
              []).0
            ≡ ok resp)
          × AllTold (vault none) auth_list (method "k8s" ∷ method "gcp" ∷ []) resp)
enable_auth_methods-AllTold_example =
    enable_auth_methods-AllTold (vault none) (method "k8s" ∷ method "gcp" ∷ []) []

disable_auth_methods-Unexpected_example : Unexpected (vault none) (method "k8s" ∷ []) (
    disabled_paths
      (disable_auth_methods (vault none) (method "k8s" ∷ []) (enabled_status ∷ []) []).1)
disable_auth_methods-Unexpected_example =
    disable_auth_methods-Unexpected (vault none) (method "k8s" ∷ []) (enabled_status ∷ []) [] tt

abbrev stubborn : Env
stubborn = vault (some (message "denied"))

disable_auth_methods-forgets_example :
    disable_auth_methods stubborn
      (method "k8s" ∷ [])
      (disable_auth_methods stubborn (method "k8s" ∷ []) (enabled_status ∷ []) []).0
      []
    ≡ ([], [])
disable_auth_methods-forgets_example =
    disable_auth_methods-forgets stubborn (method "k8s" ∷ []) (method "k8s" ∷ [])
      (enabled_status ∷ []) [] []
