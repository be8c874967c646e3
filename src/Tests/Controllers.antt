-- ===== src/Tests/Controllers.antt =====
-- The controller of Vault servers over a cluster where all calls succeed.
use vault_operator.Base.{ℕ, ◌≡◌, false, none, some, [], ◌∷◌, ◌==◌, if◌then◌else◌, message, ok, err}
use vault_operator.PatchUtil
use vault_operator.PatchUtil.{UpdateState}
use vault_operator.Server.Spec.{MonitorSpec, ServerSpec}
use vault_operator.Server.Health.{ServerStatus}
use vault_operator.Server.Cluster.{Server, Event, Env, panicked}
use vault_operator.Server.Routines.{live}
use vault_operator.Server.Routines.Reach.{
  Controllers, no_controllers, after_reconcile, after_gone, Reach, begin, next, reconciled, IsSound,
  Reach-IsSound, Reach-runs,
}
use vault_operator.Server.Controller.{run_injector}
use vault_operator.Server.Storage.{Storage}
use vault_operator.Server.Deploy.{VaultSrv}
use vault_operator.Server.Controller.Steps.{run_injector-Reach}
use vault_operator.Server.Monitoring.{manage_monitor}
use mathlib.Core.Logic.{◌↔◌}
use vault_operator.Server.Monitoring.Panics.{Panics, manage_monitor-panicked_iff}
use vault_operator.Tests.Systems.{plain, thrice}
use vault_operator.Tests.VaultServers.{kube, spec, on_mysql}

abbrev status : ServerStatus
status = record {
  observed_generation = 0;
  phase = "Processing";
  initialized = false;
  service_name = "v";
  client_port = 8200;
  vault_status = record { active = ""; standby = []; sealed = []; unsealed = [] };
  updated_nodes = [];
  conditions = none;
}

abbrev server : Server
server = record {
  meta = record {
    name = "v";
    namespace = "ns";
    generation = 1;
    deletion_timestamp = none;
    finalizers = [];
  };
  spec = record (spec) { tls = some (record { tls_secret = "login"; ca_bundle = none }) };
  status = status;
}

abbrev cluster : Env
cluster = record {
  get_by_key = λ h k. if k == "ns/v" then ok (some server) else ok none;
  get = λ h ns n. (server, none);
  create = λ h o. (o, none);
  update = λ h o. (o, none);
  update_status = λ h o. (o, none);
  patch = λ h ns n p. (server, none);
  marshal = λ o. ok "{}";
  create_merge_patch = λ a b. ok "{}";
  zero_spec = spec;
  zero_status = status;
  updates = thrice (UpdateState Event ServerSpec ServerStatus);
  call = λ h c. none;
  kube = λ h. kube;
  new_for_config = λ h. none;
  new_certificates = λ h. ok "ca";
  agent_annotation = λ h. err (message "not found");
  is_agent = λ t. t == "prometheus.io/operator";
  now = λ h. 5;
}

abbrev served : Controllers
served = after_reconcile "ns/v" no_controllers

served_lem : Reach served
served_lem = next begin (reconciled no_controllers "ns/v")

Reach-IsSound_example : IsSound served
Reach-IsSound_example = Reach-IsSound served_lem

Reach-runs_example :
    let up = after_reconcile "ns/v" served in
    let down = after_gone "ns/v" served in
    ((n : ℕ) × (live "ns/v" up.monitors.running ≡ n ∷ []))
    × ((n : ℕ) × (live "ns/v" up.auth_methods.running ≡ n ∷ []))
    × (live "ns/v" down.monitors.running ≡ [])
    × (live "ns/v" down.auth_methods.running ≡ [])
Reach-runs_example = Reach-runs served_lem "ns/v"

run_injector-Reach_example :
    Reach (run_injector plain cluster "ns/v" served []).0.1
    × IsSound (run_injector plain cluster "ns/v" served []).0.1
run_injector-Reach_example = run_injector-Reach plain cluster "ns/v" served [] served_lem

abbrev monitoring : MonitorSpec
monitoring = record { agent = "prometheus.io/operator"; prometheus = some none }

abbrev monitored : Server
monitored = record server { spec = record (spec) { monitor = some monitoring } }

manage_monitor-panicked_iff_example :
    ((manage_monitor plain cluster monitored []).0 ≡ panicked)
    ↔ Panics plain cluster monitored.spec.monitor
manage_monitor-panicked_iff_example = manage_monitor-panicked_iff plain cluster monitored []

abbrev srv : VaultSrv
srv = record { strg = Storage.mysql on_mysql "u" "p"; unslr = none }
