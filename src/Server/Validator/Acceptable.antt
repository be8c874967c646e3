-- ===== src/Server/Validator/Acceptable.antt =====
-- Which Vault servers the validator accepts: the description is by fields of the spec and does not
-- go by the blocks and the order of the code.
use vault_operator.Base.{ℕ, suc, ◌+◌, String, ◌≡◌, ◌≢◌, Option, none, some, List, [], ◌∷◌, ◌≤◌}
use vault_operator.Base.Int.{pos}
use vault_operator.Server.Spec.{VaultServer, BackendStorageSpec, UnsealerSpec}
use vault_operator.Server.Validator.{Kube}
use vault_operator.Server.Validator.Secrets.{HasSecret}

abbrev pub given {ℓ} : {A : Type ℓ} → Option A → ℕ
given none = 0
given (some _) = 1

abbrev pub number_given : BackendStorageSpec → ℕ
number_given b =
    given b.inmem
    + given b.file
    + given b.etcd
    + given b.mysql
    + given b.postgresql
    + given b.gcs
    + given b.s3
    + given b.azure
    + given b.dynamodb
    + given b.swift
    + given b.consul

-- What holds of a part of the spec, if it is given.
abbrev pub Given : {A : Type 0} → Option A → (A → Type 0) → Type 0
Given none P = Unit
Given (some a) P = P a

abbrev pub login : List String
login = "username" ∷ "password" ∷ []

abbrev pub tls_keys : List String
tls_keys = "ca.crt" ∷ "tls.crt" ∷ "tls.key" ∷ []

abbrev pub access_keys : List String
access_keys = "access_key" ∷ "secret_key" ∷ []

module _ (kube : Kube) (ns : String) where
  -- The secrets in a row, with the keys of each.
  abbrev pub Secrets : List (String × List String) → Type 0
  Secrets [] = Unit
  Secrets ((name, keys) ∷ rest) = HasSecret kube ns name keys × Secrets rest

  pub record BackendMet (b : BackendStorageSpec) : Type 0 where
    pub one : number_given b ≡ 1
    pub etcd :
        Given b.etcd
          (λ s. Secrets ((s.credential_secret_name, login) ∷ (s.tls_secret_name, tls_keys) ∷ []))
    pub mysql : Given b.mysql (λ s.
        Secrets ((s.user_credential_secret, login) ∷ (s.tls_ca_secret, "tls_ca_file" ∷ []) ∷ []))
    pub postgresql :
        Given b.postgresql (λ s. Secrets ((s.connection_url_secret, "connection_url" ∷ []) ∷ []))
    pub gcs : Given b.gcs (λ s. Secrets ((s.credential_secret, "sa.json" ∷ []) ∷ []))
    pub s3 : Given b.s3 (λ s.
        Secrets (
          (s.credential_secret, access_keys) ∷ (s.session_token_secret, "session_token" ∷ []) ∷ []))
    pub azure : Given b.azure (λ s. Secrets ((s.account_key_secret, "account_key" ∷ []) ∷ []))
    pub dynamodb : Given b.dynamodb (λ s.
        Secrets (
          (s.credential_secret, access_keys) ∷ (s.session_token_secret, "session_token" ∷ []) ∷ []))
    pub swift : Given b.swift (λ s.
        Secrets ((s.credential_secret, login) ∷ (s.auth_token_secret, "auth_token" ∷ []) ∷ []))
    pub consul : Given b.consul (λ s.
        Secrets ((s.acl_token_secret_name, "aclToken" ∷ []) ∷ (s.tls_secret_name, tls_keys) ∷ []))

  -- The threshold lies between 1 and the number of the shares, and one mode is given.
  pub record UnsealerMet (u : UnsealerSpec) : Type 0 where
    pub shares : ℕ
    pub shares_lem : u.secret_shares ≡ pos shares
    pub threshold : ℕ
    pub threshold_lem : u.secret_threshold ≡ pos threshold
    pub positive : 1 ≤ threshold
    pub bounded : threshold ≤ shares
    pub one :
        given u.mode.kubernetes_secret
          + given u.mode.google_kms_gcs
          + given u.mode.aws_kms_ssm
          + given u.mode.azure_key_vault
        ≡ 1
    pub google_kms_gcs :
        Given u.mode.google_kms_gcs (λ s. Secrets ((s.credential_secret, "sa.json" ∷ []) ∷ []))
    pub aws_kms_ssm :
        Given u.mode.aws_kms_ssm (λ s. Secrets ((s.credential_secret, access_keys) ∷ []))
    pub azure_key_vault : Given u.mode.azure_key_vault (λ s. Secrets (
        (s.aad_client_secret, "client-id" ∷ "client-secret" ∷ [])
        ∷ (s.client_cert_secret, "client-cert" ∷ "client-cert-password" ∷ [])
        ∷ []))

pub record IsAcceptable (kube : Kube) (vs : VaultServer) : Type 0 where
  pub version : vs.spec.version ≢ ""
  pub version_known : kube.get_version vs.spec.version ≡ none
  pub replicas : Given vs.spec.replicas (λ r. (n : ℕ) × (r ≡ pos (suc n)))
  pub backend : BackendMet kube vs.namespace vs.spec.backend
  pub unsealer : Given vs.spec.unsealer (UnsealerMet kube vs.namespace)
