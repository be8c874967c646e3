-- ===== src/Server/Storage.antt =====
-- The storage of a Vault server: `NewStorage` of pkg/vault/storage/storage.go with the `NewOptions`
-- and `GetStorageConfig` of the packages below pkg/vault/storage.
pub mod Params
pub mod Choice
pub mod Chosen
use vault_operator.Base.{
  String, Bool, true, false, Option, none, some, List, [], ◌∷◌, ◌++◌, ◌==◌, if◌then◌else◌, Error,
  message, wrap, wrap_error, Fallible, Result, ok, err,
}
use vault_operator.Server.AuthMethods.{lookup}
use vault_operator.Server.Spec.{
  SecretData, VaultServer, BackendStorageSpec, InmemSpec, EtcdSpec, GcsSpec, S3Spec, AzureSpec,
  PostgresqlSpec, MysqlSpec, FileSpec, DynamodbSpec, SwiftSpec, ConsulSpec,
}
use vault_operator.Server.Validator.{Kube}
use Params.{
  stanza, inmem_storage, etcd_params, gcs_params, s3_params, azure_params, postgresql_params,
  mysql_params, file_params, dynamodb_params, swift_params, consul_before_token, consul_after_token,
  quoted,
}

-- The `Options` of each package: the spec with what `NewOptions` adds to it.
pub data Storage : Type 0 where
  inmem : Storage
  etcd : EtcdSpec → Storage
  gcs : GcsSpec → Storage
  s3 : S3Spec → Storage
  azure : AzureSpec → Storage
  postgresql : PostgresqlSpec → String → Storage
  mysql : MysqlSpec → String → String → Storage
  file : FileSpec → String → Storage
  dynamodb : DynamodbSpec → Storage
  swift : SwiftSpec → Storage
  consul : ConsulSpec → Storage

module _ (kube : Kube) (ns : String) where
  -- `if value, ok := sr.Data[key]; ok { … } else { return … }`.
  abbrev pub with_value : SecretData → String → Error → (String → Result Storage) → Result Storage
  with_value content key absent then' = elim (lookup key content) [
    | none ↦ err absent
    | some value ↦ then' value
  ]

  pub new_postgresql : PostgresqlSpec → Result Storage
  new_postgresql s =
      if s.connection_url_secret == ""
      then ok (postgresql s "")
      else (elim (kube.get_secret ns s.connection_url_secret) [
        | err e ↦ err (wrap "failed to get connection url secret(%s)" e)
        | ok sr ↦
            with_value sr "connection_url" (message "connection_url not found in secret(%s)")
              (λ url. ok (postgresql s url))
      ])

  pub new_mysql : MysqlSpec → Result Storage
  new_mysql s =
      if s.user_credential_secret == ""
      then ok (mysql s "" "")
      else (elim (kube.get_secret ns s.user_credential_secret) [
        | err e ↦ err (wrap "failed to get user credential secret(%s)" e)
        | ok sr ↦ with_value sr "username" (message "username not found in secret(%s)") (λ username.
            with_value sr "password" (message "password not found in secret(%s)")
              (λ password. ok (mysql s username password)))
      ])

  -- The claim is made here; its name is the server's if the template has none.
  pub new_file : String → FileSpec → Result Storage
  new_file server s =
      let claim = if s.claim_name == "" then server else s.claim_name in
      elim (kube.create_or_patch_pvc ns claim) [
        | some e ↦ err (wrap "failed to create pvc %s/%s" e)
        | none ↦ ok (file s claim)
      ]

-- The `else if` chain of `NewStorage`, from the last to the first.
abbrev or_else : {S : Type 0} → Option S → (S → Result Storage) → Result Storage → Result Storage
or_else none f rest = rest
or_else (some s) f rest = f s

unfoldable pub new_storage : Kube → VaultServer → Result Storage
unfolding new_postgresql new_mysql new_file
new_storage kube vs =
    let b = vs.spec.backend in
    let ns = vs.namespace in
    or_else b.inmem (λ _. ok inmem)
      (or_else b.etcd (λ s. ok (etcd s))
        (or_else b.gcs (λ s. ok (gcs s))
          (or_else b.s3 (λ s. ok (s3 s))
            (or_else b.azure (λ s. ok (azure s))
              (or_else b.postgresql (new_postgresql kube ns) (
                or_else b.mysql (new_mysql kube ns) (
                  or_else b.file (new_file kube ns vs.name) (
                    or_else b.dynamodb (λ s. ok (dynamodb s))
                      (or_else b.swift (λ s. ok (swift s))
                        (or_else b.consul (λ s. ok (consul s))
                          (err (message "invalid storage backend"))))))))))))

module _ (kube : Kube) (ns : String) where
  -- A secret without the key is answered by `errors.Wrapf(err, …)` of an `err` that is nil.
  pub consul_config : ConsulSpec → Fallible String
  consul_config s =
      let config = λ (token : List String).
        stanza "consul" (consul_before_token s ++ (token ++ consul_after_token s)) in
      if s.acl_token_secret_name == ""
      then (config [], none)
      else (elim (kube.get_secret ns s.acl_token_secret_name) [
        | err e ↦ ("", some (wrap "failed to get secret %s/%s" e))
        | ok secret ↦ elim (lookup "aclToken" secret) [
          | none ↦ ("", wrap_error "Data field is empty in %s/%s" none)
          | some value ↦ (config (quoted "token" value ∷ []), none)
        ]
      ])

  unfoldable pub storage_config : Storage → Fallible String
  unfolding consul_config
  storage_config inmem = (inmem_storage, none)
  storage_config (etcd s) = (stanza "etcd" (etcd_params s), none)
  storage_config (gcs s) = (stanza "gcs" (gcs_params s), none)
  storage_config (s3 s) = (stanza "s3" (s3_params s), none)
  storage_config (azure s) = (stanza "azure" (azure_params s), none)
  storage_config (postgresql s url) = (stanza "postgresql" (postgresql_params s url), none)
  storage_config (mysql s username password) =
      (stanza "mysql" (mysql_params s username password), none)
  storage_config (file s claim) = (stanza "file" (file_params s), none)
  storage_config (dynamodb s) = (stanza "dynamodb" (dynamodb_params s), none)
  storage_config (swift s) = (stanza "swift" (swift_params s), none)
  storage_config (consul s) = consul_config s
