-- ===== src/Server/Storage/Chosen.antt =====
-- The storage that an accepted Vault server gets, and the configuration of it.
use vault_operator.Base.{
  String, ◌≡◌, ◌≢◌, refl, sym, ap, inl, inr, Bool-cases, Result-cases, Option-cases, none, some,
  List, [], ◌∷◌, ◌==◌, Fallible, ok, arith, eq_iff, if◌then◌else◌,
}
use vault_operator.Server.AuthMethods.{lookup}
use vault_operator.Server.Spec.{
  VaultServer, BackendStorageSpec, inmem_spec, SecretData, PostgresqlSpec, MysqlSpec, FileSpec,
  ConsulSpec,
}
use vault_operator.Server.Validator.{Kube}
use vault_operator.Server.Validator.Acceptable.{BackendMet}
use vault_operator.Server.Validator.Secrets.{HasSecret}
use vault_operator.Server.Storage.{Storage, new_storage, storage_config}
use vault_operator.Server.Storage
use vault_operator.Server.Storage.Params.{stanza}
use Prim.Native.String
use mathlib.Core.Logic.{◌↔◌}
use mathlib.Core.Path.{subst}
use text.Mathlib.TextLemmas.{append-eq-nil_iff}
use vault_operator.Server.Storage.Choice.{Choice, alone, choice, no_backend}
use vault_operator.Server.Validator.{validate_vault_server}
use vault_operator.Server.Validator.Accepted.{validate_vault_server-IsAcceptable}

-- The spec whose only backend is the one of a storage.
abbrev pub backend_of : Storage → BackendStorageSpec
backend_of Storage.inmem = record no_backend { inmem = some inmem_spec }
backend_of (Storage.etcd s) = record no_backend { etcd = some s }
backend_of (Storage.gcs s) = record no_backend { gcs = some s }
backend_of (Storage.s3 s) = record no_backend { s3 = some s }
backend_of (Storage.azure s) = record no_backend { azure = some s }
backend_of (Storage.postgresql s url) = record no_backend { postgresql = some s }
backend_of (Storage.mysql s username password) = record no_backend { mysql = some s }
backend_of (Storage.file s claim) = record no_backend { file = some s }
backend_of (Storage.dynamodb s) = record no_backend { dynamodb = some s }
backend_of (Storage.swift s) = record no_backend { swift = some s }
backend_of (Storage.consul s) = record no_backend { consul = some s }

stanza-ne-empty : (name : String) (ps : List String) → stanza name ps ≢ ""
unfolding stanza
stanza-ne-empty name ps p = let e = (append-eq-nil_iff.0 p).0 in omega (arith, ap String.len e)

-- A configuration that is not empty, and no error.
abbrev pub IsConfig : Fallible String → Type 0
IsConfig r = (r.1 ≡ none) × (r.0 ≢ "")

module _ (kube : Kube) (ns : String) where
  postgresql_lem :
      (s : PostgresqlSpec)
      → HasSecret kube ns s.connection_url_secret ("connection_url" ∷ [])
      → (url : String) × (Storage.new_postgresql kube ns s ≡ ok (Storage.postgresql s url))
  unfolding Storage.new_postgresql
  postgresql_lem s (inl p) = ("", ground (arith, (eq_iff s.connection_url_secret "").1 p))
  postgresql_lem s (inr (content, p, ((val, q, _), _))) =
      elim (Bool-cases (s.connection_url_secret == "")) [
        | inl e ↦ ("", ground arith)
        | inr e ↦ (val, ground arith)
      ]

  mysql_lem :
      (s : MysqlSpec)
      → HasSecret kube ns s.user_credential_secret ("username" ∷ "password" ∷ [])
      → (user : String) × (word : String) × (Storage.new_mysql kube ns s
          ≡ ok (Storage.mysql s user word))
  unfolding Storage.new_mysql
  mysql_lem s (inl p) = ("", "", ground (arith, (eq_iff s.user_credential_secret "").1 p))
  mysql_lem s (inr (content, p, ((user, q, _), ((word, r, _), _)))) =
      elim (Bool-cases (s.user_credential_secret == "")) [
        | inl e ↦ ("", "", ground arith)
        | inr e ↦ (user, word, ground arith)
      ]

  file_lem :
      (server : String) (s : FileSpec)
      → ((claim : String) → kube.create_or_patch_pvc ns claim ≡ none)
      → (claim : String) × (Storage.new_file kube ns server s ≡ ok (Storage.file s claim))
  unfolding Storage.new_file
  file_lem server s made =
      let claim = if s.claim_name == "" then server else s.claim_name in
      (claim, ground (arith, made claim))

  consul_lem :
      (s : ConsulSpec)
      → HasSecret kube ns s.acl_token_secret_name ("aclToken" ∷ [])
      → IsConfig (Storage.consul_config kube ns s)
  unfolding Storage.consul_config
  consul_lem s (inl p) =
      rw ((eq_iff s.acl_token_secret_name "").1 p) (refl, stanza-ne-empty "consul" _)
  consul_lem s (inr (content, p, ((val, q, _), _))) =
      elim (Bool-cases (s.acl_token_secret_name == "")) [
        | inl e ↦ rw e (refl, stanza-ne-empty "consul" _)
        | inr e ↦ rw (e, p, q) (refl, stanza-ne-empty "consul" _)
      ]

-- What `new_storage` is to give: a storage of the one backend, with a configuration.
abbrev pub IsChosen : Kube → VaultServer → Storage → Type 0
IsChosen kube vs st =
    (new_storage kube vs ≡ ok st)
    × (backend_of st ≡ vs.spec.backend)
    × IsConfig (storage_config kube vs.namespace st)

module _ (kube : Kube) (vs : VaultServer)
    (made : (claim : String) → kube.create_or_patch_pvc vs.namespace claim ≡ none) where
  chosen :
      (c : Choice)
      → alone c ≡ vs.spec.backend
      → BackendMet kube vs.namespace (alone c)
      → (st : Storage) × IsChosen kube vs st
  unfolding new_storage storage_config
  chosen (Choice.inmem inmem_spec) p m =
      (Storage.inmem, (ground arith, p, (refl, λ e. omega (arith, ap String.len e))))
  chosen (Choice.etcd s) p m = (Storage.etcd s, (ground arith, p, (refl, stanza-ne-empty "etcd" _)))
  chosen (Choice.gcs s) p m = (Storage.gcs s, (ground arith, p, (refl, stanza-ne-empty "gcs" _)))
  chosen (Choice.s3 s) p m = (Storage.s3 s, (ground arith, p, (refl, stanza-ne-empty "s3" _)))
  chosen (Choice.azure s) p m =
      (Storage.azure s, (ground arith, p, (refl, stanza-ne-empty "azure" _)))
  chosen (Choice.dynamodb s) p m =
      (Storage.dynamodb s, (ground arith, p, (refl, stanza-ne-empty "dynamodb" _)))
  chosen (Choice.swift s) p m =
      (Storage.swift s, (ground arith, p, (refl, stanza-ne-empty "swift" _)))
  chosen (Choice.postgresql s) p m =
      let (url, q) = postgresql_lem kube vs.namespace s m.postgresql.0 in
      (Storage.postgresql s url, (ground arith, p, (refl, stanza-ne-empty "postgresql" _)))
  chosen (Choice.mysql s) p m =
      let (user, word, q) = mysql_lem kube vs.namespace s m.mysql.0 in
      (Storage.mysql s user word, (ground arith, p, (refl, stanza-ne-empty "mysql" _)))
  chosen (Choice.file s) p m =
      let (claim, q) = file_lem kube vs.namespace vs.name s made in
      (Storage.file s claim, (ground arith, p, (refl, stanza-ne-empty "file" _)))
  chosen (Choice.consul s) p m =
      (Storage.consul s, (ground arith, p, consul_lem kube vs.namespace s m.consul.0))

  -- If one backend is given, its secrets are there and its claim can be made, the server gets a
  -- storage of this backend, whose spec is the server's, and a configuration that is not empty.
  pub new_storage-IsChosen :
      BackendMet kube vs.namespace vs.spec.backend → (st : Storage) × IsChosen kube vs st
  new_storage-IsChosen m =
      let (c, p) = choice vs.spec.backend m.one in
      chosen c p (subst (BackendMet kube vs.namespace) (sym p) m)

-- If the validator accepts a server, then with the same secrets, and if a claim can be made, the
-- server gets a storage of the one backend that is given, with the spec of that backend, and a
-- configuration that is not empty.
pub accepted-IsChosen :
    (kube : Kube) (vs : VaultServer)
    → validate_vault_server kube vs ≡ none
    → ((claim : String) → kube.create_or_patch_pvc vs.namespace claim ≡ none)
    → (st : Storage) × IsChosen kube vs st
accepted-IsChosen kube vs valid made =
    new_storage-IsChosen kube vs made ((validate_vault_server-IsAcceptable kube vs).0 valid).backend

-- A storage of Consul whose token secret is named and there, without the key of the token.
abbrev pub Keyless : Kube → String → Storage → Type 0
Keyless kube ns (Storage.consul s) =
    (s.acl_token_secret_name ≢ "")
    × (content : SecretData) × (kube.get_secret ns s.acl_token_secret_name ≡ ok content)
    × (lookup "aclToken" content ≡ none)
Keyless kube ns _ = ⊥

consul_empty_lem :
    (kube : Kube) (ns : String) (s : ConsulSpec)
    → storage_config kube ns (Storage.consul s) ≡ ("", none)
    → Keyless kube ns (Storage.consul s)
unfolding storage_config Storage.consul_config
consul_empty_lem kube ns s p = elim (Bool-cases (s.acl_token_secret_name == "")) [
  | inl e ↦ absurd (stanza-ne-empty "consul" _ (rw e at (ap (λ r. r.0) p)))
  | inr e ↦ elim (Result-cases (kube.get_secret ns s.acl_token_secret_name)) [
    | inr (x, q) ↦ absurd (ground arith)
    | inl (content, q) ↦ elim (Option-cases (lookup "aclToken" content)) [
      | inl l ↦ (λ n. ground (arith, eq_iff s.acl_token_secret_name ""), content, q, l)
      | inr (val, l) ↦ absurd (stanza-ne-empty "consul" _ (rw (e, q, l) at (ap (λ r. r.0) p)))
    ]
  ]
]

-- The configuration of a storage is empty, and without an error, exactly for a storage of Consul
-- whose token secret is named and there but has no key `aclToken`; for each of the ten other
-- backends the configuration is never empty.
pub storage_config-empty_iff :
    (kube : Kube) (ns : String) (st : Storage)
    → (storage_config kube ns st ≡ ("", none)) ↔ Keyless kube ns st
unfolding storage_config
storage_config-empty_iff kube ns Storage.inmem =
    (λ p. omega (arith, ap (λ r. String.len r.0) p), λ n. absurd n)
storage_config-empty_iff kube ns (Storage.etcd s) =
    (λ p. stanza-ne-empty "etcd" _ (ap (λ r. r.0) p), λ n. absurd n)
storage_config-empty_iff kube ns (Storage.gcs s) =
    (λ p. stanza-ne-empty "gcs" _ (ap (λ r. r.0) p), λ n. absurd n)
storage_config-empty_iff kube ns (Storage.s3 s) =
    (λ p. stanza-ne-empty "s3" _ (ap (λ r. r.0) p), λ n. absurd n)
storage_config-empty_iff kube ns (Storage.azure s) =
    (λ p. stanza-ne-empty "azure" _ (ap (λ r. r.0) p), λ n. absurd n)
storage_config-empty_iff kube ns (Storage.postgresql s url) =
    (λ p. stanza-ne-empty "postgresql" _ (ap (λ r. r.0) p), λ n. absurd n)
storage_config-empty_iff kube ns (Storage.mysql s user word) =
    (λ p. stanza-ne-empty "mysql" _ (ap (λ r. r.0) p), λ n. absurd n)
storage_config-empty_iff kube ns (Storage.file s claim) =
    (λ p. stanza-ne-empty "file" _ (ap (λ r. r.0) p), λ n. absurd n)
storage_config-empty_iff kube ns (Storage.dynamodb s) =
    (λ p. stanza-ne-empty "dynamodb" _ (ap (λ r. r.0) p), λ n. absurd n)
storage_config-empty_iff kube ns (Storage.swift s) =
    (λ p. stanza-ne-empty "swift" _ (ap (λ r. r.0) p), λ n. absurd n)
storage_config-empty_iff kube ns (Storage.consul s) = (
  consul_empty_lem kube ns s,
  λ (named, content, found, absent). ground (arith, eq_iff s.acl_token_secret_name ""),
)
