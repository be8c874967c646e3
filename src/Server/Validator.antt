-- ===== src/Server/Validator.antt =====
-- `ValidateVaultServer` and `validateSecret` of pkg/admission/vault_server_validator.go. What the
-- API server answers to the reads is the parameter `kube`.
pub mod Acceptable
pub mod Accepted
pub mod Secrets
use vault_operator.Base.{
  ℕ, zero, suc, ◌+◌, String, Bool, true, false, not, ◌&&◌, Option, none, some, List, [], ◌∷◌, ◌==◌,
  if◌then◌else◌, Error, message, wrap, Result, ok, err,
}
use vault_operator.Base.Int.{ℤ, pos, negsuc, ◌≤?◌}
use vault_operator.Server.AuthMethods.{lookup}
use vault_operator.Server.Spec.{
  SecretData, VaultServer, ServerSpec, BackendStorageSpec, UnsealerSpec, ModeSpec, InmemSpec,
  FileSpec, EtcdSpec, MysqlSpec, PostgresqlSpec, GcsSpec, S3Spec, AzureSpec, DynamodbSpec,
  SwiftSpec, ConsulSpec, GoogleKmsGcsSpec, AwsKmsSsmSpec, AzureKeyVault,
}

-- The secrets by namespace and name, and the error for the version of a Vault server.
pub record Kube : Type 0 where
  pub get_secret : String → String → Result SecretData
  pub get_version : String → Option Error
  pub create_or_patch_pvc : String → String → Option Error

-- A secret that a field of the spec may name, with the keys that it must have.
pub record Requirement : Type 0 where
  pub secret : String
  pub keys : List String
  pub context : String

abbrev pub no_value : Error
no_value = message "secret data doesn't contain any value for key '%s'"

-- The loop over the required keys.
unfoldable pub check_keys : SecretData → List String → Option Error
check_keys content [] = none
check_keys content (k ∷ ks) = elim (lookup k content) [
  | none ↦ some no_value
  | some val ↦ if val == "" then some no_value else check_keys content ks
]

-- A part of the spec: nil, or with the secrets that it may name.
abbrev pub Block : Type 0
Block = Option (List Requirement)

abbrev pub block : {S : Type 0} → Option S → (S → List Requirement) → Block
block none f = none
block (some s) f = some (f s)

module _ (kube : Kube) (ns : String) where
  unfoldable pub validate_secret : String → List String → Option Error
  unfolding check_keys
  validate_secret name keys = elim (kube.get_secret ns name) [
    | err e ↦ some e
    | ok content ↦ check_keys content keys
  ]

  -- `if name != "" { err := validateSecret(…); if err != nil { return Wrap(err) } }`, in a row.
  unfoldable pub check_requirements : List Requirement → Option Error
  check_requirements [] = none
  check_requirements (r ∷ rs) =
      let rest = check_requirements rs in
      if r.secret == ""
      then rest
      else elim (validate_secret r.secret r.keys) [ some e ↦ some (wrap r.context e) | none ↦ rest ]

  -- The blocks `if … != nil { numOfBackend++; … }`, in a row, with the counter.
  unfoldable pub count_blocks : ℕ → List Block → Result ℕ
  count_blocks n [] = ok n
  count_blocks n (none ∷ bs) = count_blocks n bs
  count_blocks n (some rs ∷ bs) = elim (check_requirements rs) [
    | some e ↦ err e
    | none ↦ count_blocks (suc n) bs
  ]

abbrev login : List String
login = "username" ∷ "password" ∷ []

abbrev tls_keys : List String
tls_keys = "ca.crt" ∷ "tls.crt" ∷ "tls.key" ∷ []

abbrev access_keys : List String
access_keys = "access_key" ∷ "secret_key" ∷ []

abbrev need : String → List String → String → Requirement
need secret keys context = record { secret = secret; keys = keys; context = context }

-- The secrets that the backends and the modes may name. The contexts of the last one name another
-- mode, as the code does.
abbrev pub etcd_secrets : EtcdSpec → List Requirement
etcd_secrets s =
    need s.credential_secret_name login "for spec.backend.etcd.credentialSecretName"
    ∷ need s.tls_secret_name tls_keys "for spec.backend.etcd.tlsSecretName"
    ∷ []

abbrev pub mysql_secrets : MysqlSpec → List Requirement
mysql_secrets s =
    need s.user_credential_secret login "for spec.backend.mySQL.userCredentialSecret"
    ∷ need s.tls_ca_secret ("tls_ca_file" ∷ []) "for spec.backend.mySQL.tlsCASecret"
    ∷ []

abbrev pub postgresql_secrets : PostgresqlSpec → List Requirement
postgresql_secrets s =
    need s.connection_url_secret ("connection_url" ∷ [])
      "for spec.backend.postgreSQL.connectionURLSecret"
    ∷ []

abbrev pub gcs_secrets : GcsSpec → List Requirement
gcs_secrets s =
    need s.credential_secret ("sa.json" ∷ []) "for spec.backend.gcs.credentialSecret" ∷ []

abbrev pub s3_secrets : S3Spec → List Requirement
s3_secrets s =
    need s.credential_secret access_keys "for spec.backend.s3.credentialSecret"
    ∷ need s.session_token_secret ("session_token" ∷ []) "for spec.backend.s3.sessionTokenSecret"
    ∷ []

abbrev pub azure_secrets : AzureSpec → List Requirement
azure_secrets s =
    need s.account_key_secret ("account_key" ∷ []) "for spec.backend.azure.accountKeySecret" ∷ []

abbrev pub dynamodb_secrets : DynamodbSpec → List Requirement
dynamodb_secrets s =
    need s.credential_secret access_keys "for spec.backend.dynamoDB.credentialSecret"
    ∷ need s.session_token_secret ("session_token" ∷ [])
        "for spec.backend.dynamoDB.sessionTokenSecret"
    ∷ []

abbrev pub swift_secrets : SwiftSpec → List Requirement
swift_secrets s =
    need s.credential_secret login "for spec.backend.swift.credentialSecret"
    ∷ need s.auth_token_secret ("auth_token" ∷ []) "for spec.backend.swift.authTokenSecret"
    ∷ []

abbrev pub consul_secrets : ConsulSpec → List Requirement
consul_secrets s =
    need s.acl_token_secret_name ("aclToken" ∷ []) "for spec.backend.consul.aclTokenSecretName"
    ∷ need s.tls_secret_name tls_keys "for spec.backend.consul.tlsSecretName"
    ∷ []

abbrev pub google_kms_gcs_secrets : GoogleKmsGcsSpec → List Requirement
google_kms_gcs_secrets s =
    need s.credential_secret ("sa.json" ∷ []) "for spec.unsealer.mode.googleKmsGcs.credentialSecret"
    ∷ []

abbrev pub aws_kms_ssm_secrets : AwsKmsSsmSpec → List Requirement
aws_kms_ssm_secrets s =
    need s.credential_secret access_keys "for spec.unsealer.mode.awsKmsSsm.credentialSecret" ∷ []

abbrev pub azure_key_vault_secrets : AzureKeyVault → List Requirement
azure_key_vault_secrets s =
    need s.aad_client_secret ("client-id" ∷ "client-secret" ∷ [])
      "for spec.unsealer.mode.awsKmsSsm.aadClientSecret"
    ∷ need s.client_cert_secret ("client-cert" ∷ "client-cert-password" ∷ [])
        "for spec.unsealer.mode.awsKmsSsm.clientCertSecret"
    ∷ []

-- A backend or a mode that names no secret.
abbrev pub no_secrets : {S : Type 0} → S → List Requirement
no_secrets s = []

-- The backends, in the order of the code.
abbrev pub backend_blocks : BackendStorageSpec → List Block
backend_blocks b =
    block b.inmem no_secrets
    ∷ block b.file no_secrets
    ∷ block b.etcd etcd_secrets
    ∷ block b.mysql mysql_secrets
    ∷ block b.postgresql postgresql_secrets
    ∷ block b.gcs gcs_secrets
    ∷ block b.s3 s3_secrets
    ∷ block b.azure azure_secrets
    ∷ block b.dynamodb dynamodb_secrets
    ∷ block b.swift swift_secrets
    ∷ block b.consul consul_secrets
    ∷ []

-- The modes of the unsealer.
abbrev pub mode_blocks : ModeSpec → List Block
mode_blocks m =
    block m.kubernetes_secret no_secrets
    ∷ block m.google_kms_gcs google_kms_gcs_secrets
    ∷ block m.aws_kms_ssm aws_kms_ssm_secrets
    ∷ block m.azure_key_vault azure_key_vault_secrets
    ∷ []

-- `if n != 1 { … }`.
abbrev exactly_one : ℕ → Error → Error → Option Error
exactly_one zero nothing several = some nothing
exactly_one (suc zero) nothing several = none
exactly_one (suc (suc n)) nothing several = some several

-- `if vs.Spec.Replicas != nil && *vs.Spec.Replicas < 1 { … }`.
abbrev too_few : Option ℤ → Bool
too_few none = false
too_few (some r) = r ≤? pos 0

unfoldable pub validate_unsealer : Kube → String → UnsealerSpec → Option Error
unfolding check_requirements count_blocks validate_secret
validate_unsealer kube ns u =
    if u.secret_shares ≤? pos 0
    then some (message "spec.unsealer.secretShares must be greater than zero")
    else if u.secret_threshold ≤? pos 0
    then some (message "spec.unsealer.secretThreshold must be greater than zero")
    else if not (u.secret_threshold ≤? u.secret_shares)
    then some
        (message "spec.unsealer.secretShares must be greater than spec.unsealer.secretThreshold")
    else (elim (count_blocks kube ns 0 (mode_blocks u.mode)) [
      | err e ↦ some e
      | ok n ↦
          exactly_one n (message "spec.unsealer.mode is not specified")
            (message "more than one spec.unsealer.mode is specified")
    ])

abbrev pub validate_given : Kube → String → Option UnsealerSpec → Option Error
validate_given kube ns none = none
validate_given kube ns (some u) = validate_unsealer kube ns u

unfoldable pub validate_backend : Kube → String → BackendStorageSpec → Option Error
unfolding check_requirements count_blocks validate_secret
validate_backend kube ns b = elim (count_blocks kube ns 0 (backend_blocks b)) [
  | err e ↦ some e
  | ok n ↦
      exactly_one n (message "spec.backend is not specified")
        (message "more than one spec.backend is specified")
]

unfoldable pub validate_vault_server : Kube → VaultServer → Option Error
validate_vault_server kube vs =
    if vs.spec.version == ""
    then some (message "'spec.version' is missing")
    else (elim (kube.get_version vs.spec.version) [
      | some e ↦ some e
      | none ↦
          if too_few vs.spec.replicas
          then some (message "spec.nodes \"%v\" invalid. Value must be greater than zero")
          else (elim (validate_backend kube vs.namespace vs.spec.backend) [
            | some e ↦ some e
            | none ↦ validate_given kube vs.namespace vs.spec.unsealer
          ])
    ])
