-- ===== src/Server/Health.antt =====
-- The status of a Vault server, from the health of its pods: pkg/controller/vault_status.go.
-- `getVaultStatus` is the parameter `health`, which answers for each pod of a round.
pub mod Survey
pub mod Written
use vault_operator.Base.{
  ℕ, String, Bool, true, false, not, ◌&&◌, ◌||◌, Option, none, some, List, [], ◌∷◌, ◌++◌, ◌==◌,
  if◌then◌else◌, is_nil, Result, ok, err, Error,
}
use vault_operator.Base.Act.{Act}
use vault_operator.Meta.{Object, Vendor, Conditions}
use vault_operator.PatchUtil
use Prim.Native.String
use vault_operator.PatchUtil.{Client, Poller, UpdateState}

pub record VaultStatus : Type 0 where
  pub active : String
  pub standby : List String
  pub sealed : List String
  pub unsealed : List String

-- The auth method statuses, which only AuthMethods reads, are left out.
pub record ServerStatus : Type 0 where
  pub observed_generation : ℕ
  pub phase : String
  pub initialized : Bool
  pub service_name : String
  pub client_port : ℕ
  pub vault_status : VaultStatus
  pub updated_nodes : List String
  pub conditions : Conditions

abbrev pub phase_uninitialized : String
phase_uninitialized = "Uninitialized"

abbrev pub phase_running : String
phase_running = "Running"

abbrev pub phase_sealed : String
phase_sealed = "Sealed"

-- `image` is that of the pod's first container; the API server admits no pod without one.
pub record Pod : Type 0 where
  pub name : String
  pub phase : String
  pub deletion_timestamp : Option ℕ
  pub image : String

abbrev pub pod_running : String
pod_running = "Running"

pub record HealthResponse : Type 0 where
  pub initialized : Bool
  pub sealed : Bool
  pub standby : Bool

-- The variables of the loop over the pods.
pub record Found : Type 0 where
  pub active_node : String
  pub seal_nodes : List String
  pub unseal_nodes : List String
  pub stand_by_nodes : List String
  pub updated : List String
  pub initiated : Bool
  pub changed : Bool

abbrev pub nothing_found : Found
nothing_found = record {
  active_node = "";
  seal_nodes = [];
  unseal_nodes = [];
  stand_by_nodes = [];
  updated = [];
  initiated = false;
  changed = false;
}

-- `if … { names = append(names, name) }`.
abbrev pub append_if : Bool → String → List String → List String
append_if true name names = names ++ name ∷ []
append_if false name names = names

-- A pod that answered.
unfoldable pub look : String → Pod → HealthResponse → Found → Found
look image p hr f = record {
  active_node = if hr.initialized && not hr.sealed && not hr.standby then p.name else f.active_node;
  seal_nodes = append_if hr.sealed p.name f.seal_nodes;
  unseal_nodes = append_if (not hr.sealed) p.name f.unseal_nodes;
  stand_by_nodes =
      append_if (hr.initialized && not hr.sealed && hr.standby) p.name f.stand_by_nodes;
  updated = append_if (p.image == image) p.name f.updated;
  initiated = if hr.initialized then true else f.initiated;
  changed = true;
}

module _ (image : String) (health : Pod → Result HealthResponse) where
  unfoldable pub visit : Found → Pod → Found
  visit f p =
      if not (p.phase == pod_running) || not (is_nil p.deletion_timestamp)
      then f
      else elim (health p) [ err e ↦ f | ok hr ↦ look image p hr f ]

  unfoldable pub visit_all : Found → List Pod → Found
  visit_all f [] = f
  visit_all f (p ∷ ps) = visit_all (visit f p) ps

abbrev pub next_phase : Found → String → String
next_phase f phase =
    if not f.initiated
    then phase_uninitialized
    else if not (f.active_node == "")
    then phase_running
    else elim f.seal_nodes [ [] ↦ phase | _ ∷ _ ↦ phase_sealed ]

abbrev pub with_found : Found → ServerStatus → ServerStatus
with_found f s = if not f.changed then s else record s {
  vault_status = record {
    active = f.active_node;
    standby = f.stand_by_nodes;
    sealed = f.seal_nodes;
    unsealed = f.unseal_nodes;
  };
  initialized = f.initiated;
  updated_nodes = f.updated;
  phase = next_phase f s.phase;
}

-- `version` is the image of the server's version, `pods` the list of its pods.
unfoldable pub update_local_status :
    Result String → Result (List Pod) → (Pod → Result HealthResponse) → ServerStatus → ServerStatus
unfolding visit_all
update_local_status (err e) pods health s = s
update_local_status (ok image) (err e) health s = s
update_local_status (ok image) (ok []) health s = s
update_local_status (ok image) (ok (p ∷ ps)) health s =
    with_found (visit_all image health nothing_found (p ∷ ps)) s

-- What `updateVaultCRStatus` writes of the local status.
abbrev pub copied : ServerStatus → ServerStatus → ServerStatus
copied status s = record s {
  vault_status = status.vault_status;
  initialized = status.initialized;
  updated_nodes = status.updated_nodes;
  phase = status.phase;
  service_name = status.service_name;
  client_port = status.client_port;
}

-- `c.ctxCancels`, by its keys: the servers whose monitor runs. To cancel a monitor and to delete
-- its key is one step here.
abbrev pub Monitors : Type 0
Monitors = List String

abbrev pub without : String → Monitors → Monitors
without key [] = []
without key (k ∷ ks) = if k == key then without key ks else k ∷ without key ks

abbrev pub monitor_key : String → String → String
monitor_key namespace name = String.◌++◌ namespace (String.◌++◌ "/" name)

module _ {E Spec : Type 0} (v : Vendor) (c : Client E Spec ServerStatus)
    (updates : Poller (UpdateState E Spec ServerStatus)) where
  pub server_read :
      String
      → ServerStatus
      → Monitors
      → (Object Spec ServerStatus × Option Error) × List E
      → ((Option (Object Spec ServerStatus) × Option Error) × Monitors) × List E
  server_read key status ks ((vault, some e), h) =
      if v.is_not_found e then (((none, some e), without key ks), h) else (((none, some e), ks), h)
  server_read key status ks ((vault, none), h) =
      let (r, h') = PatchUtil.update_status v c updates vault.meta (copied status) h in
      ((r, ks), h')

  -- `updateVaultCRStatus`.
  unfoldable pub update_server_status :
      String
      → String
      → ServerStatus
      → Monitors
      → Act E ((Option (Object Spec ServerStatus) × Option Error) × Monitors)
  unfolding server_read
  update_server_status name namespace status ks h =
      server_read (monitor_key namespace name) status ks (c.get namespace name h)
