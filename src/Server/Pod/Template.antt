-- ===== src/Server/Pod/Template.antt =====
-- The pod template of a Vault server: `GetContainer`, `GetPodTemplate` and `Apply` of
-- pkg/controller/vault.go and `Apply` of pkg/vault/exporter/exporter.go.
pub mod Kept
pub mod Resolved
pub mod Modes
pub mod Own
pub mod Sound
use vault_operator.Base.{
  ℕ, suc, String, not, Option, none, some, List, [], ◌∷◌, ◌++◌, ◌==◌, if◌then◌else◌,
}
use vault_operator.Base.Int.{pos, decimal}
use vault_operator.Meta.{Vendor}
use vault_operator.Server.Spec.{TlsPolicy, MonitorSpec, UnsealerSpec, VaultServer}
use vault_operator.Server.Storage.{Storage}
use vault_operator.Server.Unsealer.{Unsealer}
use vault_operator.Server.Pod.{
  EnvVar, value, VolumeSource, empty_dir, config_map, secret, given, Volume, VolumeMount, Container,
  PodTemplate, zero_container, CoreUtil, Applied, applied, and_then, last_named,
}
use vault_operator.Server.Pod.Storage.{storage_apply}
use vault_operator.Server.Pod.Unsealer.{Cluster, ca_flag, unsealer_apply}
use vault_operator.Server.Validator.{Kube}
use Prim.Native.String

-- `VaultServiceURL`.
abbrev vault_service_url : String → String → String → String
vault_service_url name namespace port =
    String.◌++◌ "https://"
      (String.◌++◌ name (String.◌++◌ "." (String.◌++◌ namespace (String.◌++◌ ".svc:" port))))

-- `GetContainer`.
abbrev pub vault_container : VaultServer → Container
vault_container vs = record {
  name = "vault";
  args = [];
  env =
      record {
        name = "VAULT_API_ADDR";
        source = value (vault_service_url vs.name vs.namespace "8200");
      }
      ∷ record {
        name = "VAULT_CLUSTER_ADDR";
        source = value (vault_service_url vs.name vs.namespace "8201");
      }
      ∷ [];
  volume_mounts = [];
}

-- `GetPodTemplate`.
abbrev pub get_pod_template : VaultServer → PodTemplate
get_pod_template vs = record {
  volumes = [];
  init_containers = [];
  containers = vault_container vs ∷ [];
}

abbrev pub mount : String → String → VolumeMount
mount name path = record { name = name; mount_path = path }

abbrev pub volume : String → VolumeSource → Volume
volume name source = record { name = name; source = source }

-- `"data-" + strconv.Itoa(indx)`.
abbrev pub data_name : ℕ → String
unfolding decimal
data_name n = String.◌++◌ "data-" (decimal (pos n))

abbrev pub tls_secret_of : String → Option TlsPolicy → String
tls_secret_of default none = default
tls_secret_of default (some tls) = if not (tls.tls_secret == "") then tls.tls_secret else default

abbrev init_script : String
init_script =
    "set -e\n\t\t\tcat /etc/vault/controller/vault.hcl > /etc/vault/config/vault.hcl\n\t\t\techo \"\" >> /etc/vault/config/vault.hcl\n\t\t\tif [ -f /etc/vault/user/vault.hcl ]; then\n\t\t\t\t  cat /etc/vault/user/vault.hcl >> /etc/vault/config/vault.hcl\n\t\t\tfi"

-- The arguments and variables that the user gives for the exporter.
abbrev pub exporter_env : Option MonitorSpec → List EnvVar
exporter_env none = []
exporter_env (some m) = elim m.prometheus [
  | none ↦ []
  | some exporter ↦ elim exporter [ none ↦ [] | some e ↦ e.env ]
]

abbrev pub exporter_args : Option MonitorSpec → List String
exporter_args none = []
exporter_args (some m) = elim m.prometheus [
  | none ↦ []
  | some exporter ↦ elim exporter [ none ↦ [] | some e ↦ e.args ]
]

module _ (v : Vendor) (u : CoreUtil) where
  -- The container that puts the configuration together.
  abbrev pub init_container : VaultServer → Container
  init_container vs =
      let own = u.upsert_volume_mount [] (
        mount "config" "/etc/vault/config"
        ∷ mount "controller-config" "/etc/vault/controller"
        ∷ []) in
      record {
        name = "vault-config";
        args = "-c" ∷ init_script ∷ [];
        env = [];
        volume_mounts = elim vs.spec.config_source [
          | none ↦ own
          | some source ↦ u.upsert_volume_mount own (mount "user-config" "/etc/vault/user" ∷ [])
        ];
      }

  abbrev pub own_volumes : VaultServer → List Volume → List Volume
  own_volumes vs volumes =
      let own = u.upsert_volume volumes (
        volume "config" empty_dir
        ∷ volume "controller-config" (config_map (v.name_with_suffix vs.name "vault-config"))
        ∷ []) in
      let with_user : List Volume = elim vs.spec.config_source [
        | none ↦ own
        | some source ↦ u.upsert_volume own (volume "user-config" source ∷ [])
      ] in
      u.upsert_volume with_user (
        volume "vault-tls-secret"
          (secret (tls_secret_of (v.name_with_suffix vs.name "vault-tls") vs.spec.tls))
        ∷ [])

  -- The loop over the data sources, from an index on.
  unfoldable pub add_data :
      ℕ → List VolumeSource → Container → List Volume → Container × List Volume
  add_data n [] cont volumes = (cont, volumes)
  add_data n (source ∷ sources) cont volumes =
      add_data (suc n) sources
        (record cont {
          volume_mounts =
              u.upsert_volume_mount cont.volume_mounts
                (mount (data_name n) (String.◌++◌ "/etc/vault/data/" (data_name n)) ∷ []);
        })
        (u.upsert_volume volumes (volume (data_name n) source ∷ []))

  -- `Apply` of the Vault server up to the storage.
  unfoldable pub own_apply : VaultServer → PodTemplate → PodTemplate
  unfolding add_data
  own_apply vs pt =
      let found = last_named "vault" zero_container pt.containers in
      let cont = record found {
        volume_mounts =
            u.upsert_volume_mount found.volume_mounts (
              mount "vault-tls-secret" "/etc/vault/tls/" ∷ mount "config" "/etc/vault/config" ∷ []);
      } in
      let (filled, volumes) = add_data 0 vs.spec.data_sources cont (own_volumes vs pt.volumes) in
      record {
        volumes = volumes;
        init_containers = u.upsert_container pt.init_containers (init_container vs);
        containers = u.upsert_container pt.containers filled;
      }

  unfoldable pub exporter_apply : VaultServer → PodTemplate → Applied
  exporter_apply vs pt = applied (record pt {
    containers = u.upsert_container pt.containers (record {
      name = "vault-exporter";
      args = ca_flag "--vault.tls-cacert" vs.spec.tls ++ exporter_args vs.spec.monitor;
      env = exporter_env vs.spec.monitor;
      volume_mounts = [];
    });
  })

  -- `Apply` of the Vault server.
  unfoldable pub vault_apply :
      Kube
      → Cluster
      → VaultServer
      → Storage
      → Option (UnsealerSpec × Unsealer)
      → PodTemplate
      → Applied
  unfolding own_apply exporter_apply
  vault_apply kube cluster vs strg unslr pt =
      and_then (storage_apply strg (own_apply vs pt))
        (λ p. and_then (unsealer_apply v u kube cluster vs unslr p) (exporter_apply vs))
