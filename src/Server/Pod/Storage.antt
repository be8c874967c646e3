-- ===== src/Server/Pod/Storage.antt =====
-- What a storage adds to the pod template: `Apply` of the packages below pkg/vault/storage. The
-- Vault container is the first one.
use vault_operator.Base.{String, ◌||◌, List, [], ◌∷◌, ◌++◌, ◌==◌, if◌then◌else◌, message}
use vault_operator.Server.Storage.{Storage}
use vault_operator.Server.Spec.{EtcdSpec, GcsSpec, SwiftSpec}
use vault_operator.Server.Pod.{
  EnvVar, value, secret_key_ref, VolumeSource, secret, persistent_volume_claim, PodTemplate,
  Applied, applied, refused, and_then, when, on_first,
}

abbrev pub env_of : String → String → String → EnvVar
env_of name secret_name key = record { name = name; source = secret_key_ref secret_name key }

-- A volume is appended and mounted into the first container.
unfoldable pub mount_first : String → VolumeSource → String → PodTemplate → Applied
mount_first name source path pt =
    on_first
      (λ c. record c {
        volume_mounts = c.volume_mounts ++ (record { name = name; mount_path = path } ∷ []);
      })
      (record pt { volumes = pt.volumes ++ (record { name = name; source = source } ∷ []) })

-- Variables are appended to the first container.
unfoldable pub add_env : List EnvVar → PodTemplate → Applied
add_env envs = on_first (λ c. record c { env = c.env ++ envs })

-- `if name != "" { envs = append(envs, …) }`.
abbrev pub envs_if : String → List EnvVar → List EnvVar
envs_if name envs = if name == "" then [] else envs

abbrev pub etcd_envs : EtcdSpec → List EnvVar
etcd_envs s =
    env_of "ETCD_USERNAME" s.credential_secret_name "username"
    ∷ env_of "ETCD_PASSWORD" s.credential_secret_name "password"
    ∷ []

-- The variables of AWS, for S3 and DynamoDB.
abbrev pub aws_envs : String → String → List EnvVar
aws_envs credential session_token =
    (envs_if credential (
        env_of "AWS_ACCESS_KEY_ID" credential "access_key"
        ∷ env_of "AWS_SECRET_ACCESS_KEY" credential "secret_key"
        ∷ [])
      ++ envs_if session_token (env_of "AWS_SESSION_TOKEN" session_token "session_token" ∷ []))

-- The token is only read beside a credential.
abbrev pub swift_envs : SwiftSpec → List EnvVar
swift_envs s =
    env_of "OS_USERNAME" s.credential_secret "username"
    ∷ env_of "OS_PASSWORD" s.credential_secret "password"
    ∷ envs_if s.auth_token_secret (env_of "OS_AUTH_TOKEN" s.auth_token_secret "auth_token" ∷ [])

abbrev pub gcs_file : EnvVar
gcs_file = record {
  name = "GOOGLE_APPLICATION_CREDENTIALS";
  source = value "/etc/vault/storage/gcs/creds/sa.json";
}

-- The credential of GCS: a file and the variable that names it.
abbrev pub mount_gcs : GcsSpec → PodTemplate → Applied
mount_gcs s pt =
    and_then
      (mount_first "vault-google-credential" (secret s.credential_secret)
        "/etc/vault/storage/gcs/creds" pt)
      (add_env (gcs_file ∷ []))

unfoldable pub storage_apply : Storage → PodTemplate → Applied
unfolding mount_first add_env
storage_apply Storage.inmem pt = applied pt
storage_apply (Storage.etcd s) pt =
    and_then
      (when s.tls_secret_name
        (mount_first "vault-etcd-tls" (secret s.tls_secret_name) "/etc/vault/storage/etcd/tls/") pt)
      (when s.credential_secret_name (add_env (etcd_envs s)))
storage_apply (Storage.gcs s) pt = when s.credential_secret (mount_gcs s) pt
storage_apply (Storage.s3 s) pt = add_env (aws_envs s.credential_secret s.session_token_secret) pt
storage_apply (Storage.azure s) pt =
    when s.account_key_secret
      (add_env (env_of "AZURE_ACCOUNT_KEY" s.account_key_secret "account_key" ∷ [])) pt
storage_apply (Storage.postgresql s url) pt = applied pt
storage_apply (Storage.mysql s username password) pt =
    when s.tls_ca_secret (mount_first "mysql-tls" (secret s.tls_ca_secret) "/etc/vault/mysql/certs")
      pt
storage_apply (Storage.file s claim) pt =
    if s.path == "" || claim == ""
    then refused (message "path or pvc name is empty")
    else mount_first "vault-filesystem-backend" (persistent_volume_claim claim) s.path pt
storage_apply (Storage.dynamodb s) pt =
    add_env (aws_envs s.credential_secret s.session_token_secret) pt
storage_apply (Storage.swift s) pt = when s.credential_secret (add_env (swift_envs s)) pt
storage_apply (Storage.consul s) pt =
    when s.tls_secret_name
      (mount_first "vault-consul-tls" (secret s.tls_secret_name) "/etc/vault/storage/consul/tls/")
      pt
