-- ===== src/Server/Pod/Unsealer.antt =====
-- What the unsealer adds to the pod template: `Apply` of pkg/vault/unsealer/unsealer.go and of the
-- packages below pkg/vault/unsealer.
use vault_operator.Base.{
  String, Option, none, some, List, [], ◌∷◌, ◌++◌, ◌==◌, if◌then◌else◌, Error, wrap, Result, ok,
  err,
}
use vault_operator.Base.Int.{ℤ, is_zero, decimal}
use vault_operator.Meta.{Vendor}
use vault_operator.Server.Spec.{UnsealerSpec, TlsPolicy, AwsKmsSsmSpec, AzureKeyVault, VaultServer}
use vault_operator.Server.Unsealer.{Unsealer}
use vault_operator.Server.Pod.{
  EnvVar, value, secret, Container, PodTemplate, zero_container, CoreUtil, Applied, applied,
  refused, panicked, last_named,
}
use vault_operator.Server.Pod.Storage.{env_of, envs_if}
use vault_operator.Server.Pod.Token.{Accounts, try_get_jwt_token_secret}
use vault_operator.Server.Validator.{Kube}
use Prim.Native.String

-- What `Apply` reads: the configuration of the client of the cluster, the service accounts, and
-- constants of vendored packages.
pub record Cluster : Type 0 where
  pub host : String
  pub ca_data : String
  pub load_tls_files : Option Error
  pub accounts : Accounts
  pub service_account_token_key : String
  pub analytics_key : String
  pub analytics_client_id : String
  pub use_fqdn : String
  pub seconds_text : ℤ → String

-- `fmt.Sprintf("--name=%s", value)`.
abbrev pub flag : String → String → String
flag name val = String.◌++◌ name (String.◌++◌ "=" val)

abbrev pub flag_if : String → String → List String
flag_if name val = if val == "" then [] else flag name val ∷ []

abbrev pub container_name : String
container_name = "vault-unsealer"

abbrev pub number_flag : String → ℤ → List String
unfolding decimal
number_flag name n = if is_zero n then [] else flag name (decimal n) ∷ []

abbrev pub ca_flag : String → Option TlsPolicy → List String
ca_flag name none = []
ca_flag name (some tls) = elim tls.ca_bundle [ none ↦ [] | some ca ↦ flag name ca ∷ [] ]

abbrev pub google_file : EnvVar
google_file = record {
  name = "GOOGLE_APPLICATION_CREDENTIALS";
  source = value "/etc/vault/unsealer/google/creds/sa.json";
}

abbrev pub aws_unsealer_envs : AwsKmsSsmSpec → List EnvVar
aws_unsealer_envs s =
    ((if s.region == "" then [] else record { name = "AWS_REGION"; source = value s.region } ∷ [])
      ++ ((if s.endpoint == ""
            then []
            else record { name = "AWS_KMS_ENDPOINT"; source = value s.endpoint } ∷ [])
          ++ envs_if s.credential_secret (
              env_of "AWS_ACCESS_KEY_ID" s.credential_secret "access_key"
              ∷ env_of "AWS_SECRET_ACCESS_KEY" s.credential_secret "secret_key"
              ∷ [])))

abbrev pub azure_unsealer_envs : AzureKeyVault → List EnvVar
azure_unsealer_envs s =
    (envs_if s.aad_client_secret (
        env_of "AZURE_CLIENT_ID" s.aad_client_secret "client-id"
        ∷ env_of "AZURE_CLIENT_SECRET" s.aad_client_secret "client-secret"
        ∷ [])
      ++ envs_if s.client_cert_secret
          (env_of "AZURE_CLIENT_CERT_PASSWORD" s.client_cert_secret "client-cert-password" ∷ []))

module _ (u : CoreUtil) where
  -- The unsealer's container is changed and put back.
  abbrev pub put_back : (Container → Container) → PodTemplate → PodTemplate
  put_back change pt = record pt {
    containers =
        u.upsert_container pt.containers
          (change (last_named container_name zero_container pt.containers));
  }

  abbrev pub with_args : List String → Container → Container
  with_args args cont = record cont { args = cont.args ++ args }

  abbrev pub with_envs : List EnvVar → Container → Container
  with_envs envs cont = record cont { env = u.upsert_env_vars cont.env envs }

  abbrev pub with_mount : String → String → Container → Container
  with_mount name path cont = record cont {
    volume_mounts =
        u.upsert_volume_mount cont.volume_mounts (record { name = name; mount_path = path } ∷ []);
  }

  abbrev pub with_volume : String → String → PodTemplate → PodTemplate
  with_volume name secret_name pt = record pt {
    volumes = u.upsert_volume pt.volumes (record { name = name; source = secret secret_name } ∷ []);
  }

  -- `Apply` of the four modes; none of them fails.
  unfoldable pub mode_apply : Unsealer → PodTemplate → PodTemplate
  mode_apply (Unsealer.kubernetes name) pt =
      put_back (with_args (flag "--mode" "kubernetes-secret" ∷ flag_if "--k8s.secret-name" name)) pt
  mode_apply (Unsealer.google s) pt =
      let args =
        flag "--mode" "google-cloud-kms-gcs"
        ∷ (flag_if "--google.storage-bucket" s.bucket
            ++ (flag_if "--google.kms-project" s.kms_project
                ++ (flag_if "--google.kms-location" s.kms_location
                    ++ (flag_if "--google.kms-key-ring" s.kms_key_ring
                        ++ flag_if "--google.kms-crypto-key" s.kms_crypto_key)))) in
      if s.credential_secret == ""
      then put_back (with_args args) pt
      else put_back
          (λ cont. with_envs (google_file ∷ []) (
            with_mount "vault-unsealer-google-credential" "/etc/vault/unsealer/google/creds"
              (with_args args cont)))
          (with_volume "vault-unsealer-google-credential" s.credential_secret pt)
  mode_apply (Unsealer.aws s) pt =
      put_back
        (λ cont. with_envs (aws_unsealer_envs s) (
          with_args
            (flag "--mode" "aws-kms-ssm"
              ∷ (flag_if "--aws.kms-key-id" s.kms_key_id
                  ++ flag_if "--aws.ssm-key-prefix" s.ssm_key_prefix))
            cont))
        pt
  mode_apply (Unsealer.azure s) pt =
      let args =
        flag "--mode" "azure-key-vault"
        ∷ (flag_if "--azure.vault-base-url" s.vault_base_url
            ++ (flag_if "--azure.tenant-id" s.tenant_id
                ++ (flag_if "--azure.cloud" s.cloud
                    ++ (if s.use_managed_identity
                        then "--azure.use-managed-identity=true" ∷ []
                        else [])))) in
      if s.client_cert_secret == ""
      then put_back (λ cont. with_envs (azure_unsealer_envs s) (with_args args cont)) pt
      else put_back
          (λ cont. with_envs (azure_unsealer_envs s) (
            with_args
              (args
                ++ (flag "--azure.client-cert-path" "/etc/vault/unsealer/azure/cert/client.crt"
                    ∷ []))
              (with_mount "azure-client-cert" "/etc/vault/unsealer/azure/cert" cont)))
          (with_volume "azure-client-cert" s.client_cert_secret pt)

-- `K8sTokenReviewerJwtEnv`.
abbrev pub reviewer_jwt : String
reviewer_jwt = "K8S_TOKEN_REVIEWER_JWT"

module _ (v : Vendor) (u : CoreUtil) (kube : Kube) (cluster : Cluster) where
  -- The container of the unsealer, with the token secret of the reviewer.
  abbrev pub unsealer_container : VaultServer → UnsealerSpec → String → Container
  unsealer_container vs spec jwt = record {
    name = container_name;
    args =
        "run"
        ∷ "--v=3"
        ∷ (number_flag "--secret-shares" spec.secret_shares
            ++ (number_flag "--secret-threshold" spec.secret_threshold
                ++ ((if is_zero spec.retry_period_seconds
                      then []
                      else flag "--retry-period" (cluster.seconds_text spec.retry_period_seconds)
                        ∷ [])
                    ++ ((if spec.overwrite_existing then "--overwrite-existing=true" ∷ [] else [])
                        ++ (ca_flag "--vault.ca-cert" vs.spec.tls
                            ++ (flag "--auth.k8s-host" cluster.host
                                ∷ flag "--auth.k8s-ca-cert" cluster.ca_data
                                ∷ flag "--policy-manager.name"
                                    (v.name_with_suffix vs.name "policy-controller")
                                ∷ flag "--policy-manager.service-account-name" vs.name
                                ∷ flag "--policy-manager.service-account-namespace" vs.namespace
                                ∷ flag "--use-kubeapiserver-fqdn-for-aks" cluster.use_fqdn
                                ∷ []))))));
    env = u.upsert_env_vars [] (
        env_of reviewer_jwt jwt cluster.service_account_token_key
        ∷ record { name = cluster.analytics_key; source = value cluster.analytics_client_id }
        ∷ []);
    volume_mounts = [];
  }

  -- What follows the search for the token secret.
  unfoldable pub with_token :
      VaultServer → UnsealerSpec → Unsealer → PodTemplate → Option (Result String) → Applied
  with_token vs spec unslr pt none = panicked
  with_token vs spec unslr pt (some (err e)) =
      refused (wrap "failed to get jwt token secret of service account(%s/%s)" e)
  with_token vs spec unslr pt (some (ok jwt)) = applied (
      mode_apply u unslr (record pt {
        containers = u.upsert_container pt.containers (unsealer_container vs spec jwt);
      }))

  -- `Apply` of the unsealer service; without a service nothing is added.
  unfoldable pub unsealer_apply :
      VaultServer → Option (UnsealerSpec × Unsealer) → PodTemplate → Applied
  unfolding with_token mode_apply
  unsealer_apply vs none pt = applied pt
  unsealer_apply vs (some (spec, unslr)) pt = elim cluster.load_tls_files [
    | some e ↦ refused (wrap "failed to load TLS files from rest config for kubernetes auth" e)
    | none ↦ with_token vs spec unslr pt (
        try_get_jwt_token_secret v kube cluster.accounts
          (v.name_with_suffix vs.name "k8s-token-reviewer") vs.namespace)
  ]
