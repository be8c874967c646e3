-- ===== src/Server/Spec.antt =====
-- The spec of a Vault server (apis/kubevault/v1alpha1/vaultserver_types.go), as far as the webhooks
-- and the storage of the server read it. A pointer that may be nil is an `Option`.
use vault_operator.Base.{String, Bool, Option, List}
use vault_operator.Base.Int.{ℤ}
use vault_operator.Server.AuthMethods.{AuthMethod}
use vault_operator.Server.Pod.{EnvVar, VolumeSource}

pub record ConsulSpec : Type 0 where
  pub address : String
  pub check_timeout : String
  pub consistency_mode : String
  pub disable_registration : String
  pub max_parallel : String
  pub path : String
  pub scheme : String
  pub service : String
  pub service_tags : String
  pub service_address : String
  pub acl_token_secret_name : String
  pub session_ttl : String
  pub lock_wait_time : String
  pub tls_secret_name : String
  pub tls_min_version : String
  pub tls_skip_verify : Bool

pub record EtcdSpec : Type 0 where
  pub address : String
  pub etcd_api : String
  pub ha_enable : Bool
  pub path : String
  pub sync : Bool
  pub discovery_srv : String
  pub credential_secret_name : String
  pub tls_secret_name : String

pub record GcsSpec : Type 0 where
  pub bucket : String
  pub chunk_size : String
  pub max_parallel : ℤ
  pub ha_enabled : Bool
  pub credential_secret : String

pub record S3Spec : Type 0 where
  pub bucket : String
  pub endpoint : String
  pub region : String
  pub credential_secret : String
  pub session_token_secret : String
  pub max_parallel : ℤ
  pub force_path_style : Bool
  pub disable_ssl : Bool

pub record AzureSpec : Type 0 where
  pub account_name : String
  pub account_key_secret : String
  pub container : String
  pub max_parallel : ℤ

pub record PostgresqlSpec : Type 0 where
  pub connection_url_secret : String
  pub table : String
  pub max_parallel : ℤ

pub record MysqlSpec : Type 0 where
  pub address : String
  pub database : String
  pub table : String
  pub user_credential_secret : String
  pub tls_ca_secret : String
  pub max_parallel : ℤ

-- Of the template of the claim only the name is read here.
pub record FileSpec : Type 0 where
  pub path : String
  pub claim_name : String

pub record DynamodbSpec : Type 0 where
  pub endpoint : String
  pub region : String
  pub ha_enabled : Bool
  pub read_capacity : ℤ
  pub write_capacity : ℤ
  pub table : String
  pub credential_secret : String
  pub session_token_secret : String
  pub max_parallel : ℤ

pub record SwiftSpec : Type 0 where
  pub auth_url : String
  pub container : String
  pub credential_secret : String
  pub tenant : String
  pub region : String
  pub tenant_id : String
  pub domain : String
  pub project_domain : String
  pub trust_id : String
  pub storage_url : String
  pub auth_token_secret : String
  pub max_parallel : ℤ

-- `InmemSpec` has no field.
pub data InmemSpec : Type 0 where
  inmem_spec : InmemSpec

pub record BackendStorageSpec : Type 0 where
  pub inmem : Option InmemSpec
  pub etcd : Option EtcdSpec
  pub gcs : Option GcsSpec
  pub s3 : Option S3Spec
  pub azure : Option AzureSpec
  pub postgresql : Option PostgresqlSpec
  pub mysql : Option MysqlSpec
  pub file : Option FileSpec
  pub dynamodb : Option DynamodbSpec
  pub swift : Option SwiftSpec
  pub consul : Option ConsulSpec

pub record GoogleKmsGcsSpec : Type 0 where
  pub kms_crypto_key : String
  pub kms_key_ring : String
  pub kms_location : String
  pub kms_project : String
  pub bucket : String
  pub credential_secret : String

pub record AwsKmsSsmSpec : Type 0 where
  pub kms_key_id : String
  pub ssm_key_prefix : String
  pub region : String
  pub credential_secret : String
  pub endpoint : String

pub record AzureKeyVault : Type 0 where
  pub vault_base_url : String
  pub cloud : String
  pub tenant_id : String
  pub client_cert_secret : String
  pub aad_client_secret : String
  pub use_managed_identity : Bool

pub record ModeSpec : Type 0 where
  -- The name of the secret of `KubernetesSecretSpec`.
  pub kubernetes_secret : Option String
  pub google_kms_gcs : Option GoogleKmsGcsSpec
  pub aws_kms_ssm : Option AwsKmsSsmSpec
  pub azure_key_vault : Option AzureKeyVault

pub record UnsealerSpec : Type 0 where
  pub secret_shares : ℤ
  pub secret_threshold : ℤ
  pub retry_period_seconds : ℤ
  pub overwrite_existing : Bool
  pub store_root_token : Bool
  pub mode : ModeSpec

pub record TlsPolicy : Type 0 where
  pub tls_secret : String
  pub ca_bundle : Option String

-- `mona.PrometheusExporterSpec`, as far as it is read.
pub record ExporterSpec : Type 0 where
  pub port : ℤ
  pub args : List String
  pub env : List EnvVar

-- `mona.AgentSpec` and its `prometheus.exporter`.
pub record MonitorSpec : Type 0 where
  pub agent : String
  pub prometheus : Option (Option ExporterSpec)

pub record ServerSpec : Type 0 where
  pub tls : Option TlsPolicy
  pub monitor : Option MonitorSpec
  pub replicas : Option ℤ
  pub version : String
  pub backend : BackendStorageSpec
  pub unsealer : Option UnsealerSpec
  pub auth_methods : List AuthMethod
  pub node_selector : List (String × String)
  pub config_source : Option VolumeSource
  pub data_sources : List VolumeSource

pub record VaultServer : Type 0 where
  pub name : String
  pub namespace : String
  pub spec : ServerSpec

-- The data of a secret, and what the API server answers to `Secrets(ns).Get(name)`.
abbrev pub SecretData : Type 0
SecretData = List (String × String)
