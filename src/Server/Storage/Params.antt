-- ===== src/Server/Storage/Params.antt =====
-- The parameters of the storage stanza of Vault's configuration, by backend: `GetStorageConfig` of
-- pkg/vault/storage/{azure, consul, dynamodb, etcd, file, gcs, inmem, mysql, postgersql, s3, swift}.
use vault_operator.Base.{String, Bool, List, [], ◌∷◌, ◌++◌, ◌==◌, if◌then◌else◌}
use vault_operator.Base.Int.{ℤ, is_zero, decimal}
use vault_operator.Server.Spec.{
  EtcdSpec, GcsSpec, S3Spec, AzureSpec, PostgresqlSpec, MysqlSpec, FileSpec, DynamodbSpec,
  SwiftSpec, ConsulSpec,
}
use Prim.Native.String

-- `key = "value"` and `key = value`.
abbrev pub quoted : String → String → String
quoted key value = String.◌++◌ key (String.◌++◌ " = \"" (String.◌++◌ value "\""))

abbrev bare : String → String → String
bare key value = String.◌++◌ key (String.◌++◌ " = " value)

-- `if value != "" { params = append(params, …) }`, and so for numbers and flags.
abbrev pub text_param : String → String → List String
text_param key value = if value == "" then [] else quoted key value ∷ []

abbrev pub number_param : String → ℤ → List String
unfolding decimal
number_param key n = if is_zero n then [] else bare key (decimal n) ∷ []

abbrev pub quoted_number_param : String → ℤ → List String
unfolding decimal
quoted_number_param key n = if is_zero n then [] else quoted key (decimal n) ∷ []

abbrev pub flag_param : String → Bool → List String
flag_param key b = if b then quoted key "true" ∷ [] else []

abbrev pub tls_params : String → String → List String
tls_params secret dir =
    if secret == ""
    then []
    else quoted "tls_ca_file" (String.◌++◌ dir "ca.crt")
      ∷ quoted "tls_cert_file" (String.◌++◌ dir "tls.crt")
      ∷ quoted "tls_key_file" (String.◌++◌ dir "tls.key")
      ∷ []

-- `strings.Join(params, "\n")`.
abbrev pub join_lines : List String → String
join_lines [] = ""
join_lines (p ∷ []) = p
join_lines (p ∷ q ∷ ps) = String.◌++◌ p (String.◌++◌ "\n" (join_lines (q ∷ ps)))

-- The text around the parameters.
unfoldable pub stanza : String → List String → String
stanza name params =
    String.◌++◌ "\nstorage \""
      (String.◌++◌ name (String.◌++◌ "\" {\n" (String.◌++◌ (join_lines params) "\n}\n")))

abbrev pub inmem_storage : String
inmem_storage = "\nstorage \"inmem\" {\n}\n"

pub etcd_params : EtcdSpec → List String
etcd_params s =
    (text_param "address" s.address
      ++ (text_param "etcd_api" s.etcd_api
          ++ (text_param "path" s.path
              ++ (text_param "discovery_srv" s.discovery_srv
                  ++ ((quoted "ha_enabled" (if s.ha_enable then "true" else "false") ∷ [])
                      ++ ((quoted "sync" (if s.sync then "true" else "false") ∷ [])
                          ++ (tls_params s.tls_secret_name "/etc/vault/storage/etcd/tls/")))))))

pub gcs_params : GcsSpec → List String
gcs_params s =
    (text_param "bucket" s.bucket
      ++ (flag_param "ha_enabled" s.ha_enabled
          ++ (text_param "chunk_size" s.chunk_size
              ++ (number_param "max_parallel" s.max_parallel))))

pub s3_params : S3Spec → List String
s3_params s =
    (text_param "bucket" s.bucket
      ++ (text_param "endpoint" s.endpoint
          ++ (text_param "region" s.region
              ++ (flag_param "s3_force_path_style" s.force_path_style
                  ++ (flag_param "disable_ssl" s.disable_ssl
                      ++ (number_param "max_parallel" s.max_parallel))))))

pub azure_params : AzureSpec → List String
azure_params s =
    (text_param "accountName" s.account_name
      ++ (text_param "container" s.container ++ (number_param "max_parallel" s.max_parallel)))

pub postgresql_params : PostgresqlSpec → String → List String
postgresql_params s url =
    ((if s.connection_url_secret == "" then [] else quoted "connection_url" url ∷ [])
      ++ (text_param "table" s.table ++ (quoted_number_param "max_parallel" s.max_parallel)))

pub mysql_params : MysqlSpec → String → String → List String
mysql_params s username password =
    (text_param "address" s.address
      ++ (text_param "database" s.database
          ++ (text_param "table" s.table
              ++ ((if s.tls_ca_secret == ""
                    then []
                    else quoted "tls_ca_file" "/etc/vault/mysql/certs/ca.crt" ∷ [])
                  ++ (text_param "username" username
                      ++ (text_param "password" password
                          ++ (quoted_number_param "max_parallel" s.max_parallel)))))))

pub file_params : FileSpec → List String
file_params s = (text_param "path" s.path)

pub dynamodb_params : DynamodbSpec → List String
dynamodb_params s =
    (text_param "endpoint" s.endpoint
      ++ (flag_param "ha_enabled" s.ha_enabled
          ++ (text_param "region" s.region
              ++ (number_param "read_capacity" s.read_capacity
                  ++ (number_param "write_capacity" s.write_capacity
                      ++ (text_param "table" s.table
                          ++ (number_param "max_parallel" s.max_parallel)))))))

pub swift_params : SwiftSpec → List String
swift_params s =
    (text_param "auth_url" s.auth_url
      ++ (text_param "container" s.container
          ++ (text_param "tenant" s.tenant
              ++ (quoted_number_param "max_parallel" s.max_parallel
                  ++ (text_param "region" s.region
                      ++ (text_param "tenant_id" s.tenant_id
                          ++ (text_param "domain" s.domain
                              ++ (text_param "project-domain" s.project_domain
                                  ++ (text_param "trust_id" s.trust_id
                                      ++ (text_param "storage_url" s.storage_url))))))))))

-- The parameters of Consul before the token and after it.
pub consul_before_token : ConsulSpec → List String
consul_before_token s =
    (text_param "address" s.address
      ++ (text_param "check_timeout" s.check_timeout
          ++ (text_param "consistency_mode" s.consistency_mode
              ++ (text_param "disable_registration" s.disable_registration
                  ++ (text_param "max_parallel" s.max_parallel
                      ++ (text_param "path" s.path
                          ++ (text_param "scheme" s.scheme
                              ++ (text_param "service" s.service
                                  ++ (text_param "service_tags" s.service_tags
                                      ++ (text_param "service_address" s.service_address))))))))))

pub consul_after_token : ConsulSpec → List String
consul_after_token s =
    (text_param "session_ttl" s.session_ttl
      ++ (text_param "lock_wait_time" s.lock_wait_time
          ++ (tls_params s.tls_secret_name "/etc/vault/storage/consul/tls/"
              ++ (text_param "tls_min_version" s.tls_min_version
                  ++ ((if s.tls_skip_verify then "tls_skip_verify = true" ∷ [] else []))))))
