-- ===== src/Server/Storage/Choice.antt =====
-- The one backend of a spec.
use vault_operator.Base.{◌≡◌, inl, inr, Option-cases, none, some, arith}
use vault_operator.Server.Spec.{
  BackendStorageSpec, InmemSpec, EtcdSpec, GcsSpec, S3Spec, AzureSpec, PostgresqlSpec, MysqlSpec,
  FileSpec, DynamodbSpec, SwiftSpec, ConsulSpec,
}
use vault_operator.Server.Validator.Acceptable.{number_given}

abbrev pub no_backend : BackendStorageSpec
no_backend = record {
  inmem = none;
  etcd = none;
  gcs = none;
  s3 = none;
  azure = none;
  postgresql = none;
  mysql = none;
  file = none;
  dynamodb = none;
  swift = none;
  consul = none;
}

-- A backend with its spec, and the spec of a server that gives it alone.
pub data Choice : Type 0 where
  inmem : InmemSpec → Choice
  etcd : EtcdSpec → Choice
  gcs : GcsSpec → Choice
  s3 : S3Spec → Choice
  azure : AzureSpec → Choice
  postgresql : PostgresqlSpec → Choice
  mysql : MysqlSpec → Choice
  file : FileSpec → Choice
  dynamodb : DynamodbSpec → Choice
  swift : SwiftSpec → Choice
  consul : ConsulSpec → Choice

abbrev pub alone : Choice → BackendStorageSpec
alone (Choice.inmem s) = record no_backend { inmem = some s }
alone (Choice.etcd s) = record no_backend { etcd = some s }
alone (Choice.gcs s) = record no_backend { gcs = some s }
alone (Choice.s3 s) = record no_backend { s3 = some s }
alone (Choice.azure s) = record no_backend { azure = some s }
alone (Choice.postgresql s) = record no_backend { postgresql = some s }
alone (Choice.mysql s) = record no_backend { mysql = some s }
alone (Choice.file s) = record no_backend { file = some s }
alone (Choice.dynamodb s) = record no_backend { dynamodb = some s }
alone (Choice.swift s) = record no_backend { swift = some s }
alone (Choice.consul s) = record no_backend { consul = some s }

last_choice :
    (b : BackendStorageSpec)
    → b.inmem ≡ none
    → b.etcd ≡ none
    → b.gcs ≡ none
    → b.s3 ≡ none
    → b.azure ≡ none
    → b.postgresql ≡ none
    → b.mysql ≡ none
    → b.file ≡ none
    → number_given b ≡ 1
    → (c : Choice) × (alone c ≡ b)
last_choice b no_inmem no_etcd no_gcs no_s3 no_azure no_postgresql no_mysql no_file one =
    elim (Option-cases b.dynamodb) [
      | inr (s, p) ↦ (Choice.dynamodb s, ground arith)
      | inl no_dynamodb ↦ elim (Option-cases b.swift) [
        | inr (s, p) ↦ (Choice.swift s, ground arith)
        | inl no_swift ↦ elim (Option-cases b.consul) [
          | inr (s, p) ↦ (Choice.consul s, ground arith)
          | inl no_consul ↦ absurd (ground arith)
        ]
      ]
    ]

middle_choice :
    (b : BackendStorageSpec)
    → b.inmem ≡ none
    → b.etcd ≡ none
    → b.gcs ≡ none
    → b.s3 ≡ none
    → number_given b ≡ 1
    → (c : Choice) × (alone c ≡ b)
middle_choice b no_inmem no_etcd no_gcs no_s3 one = elim (Option-cases b.azure) [
  | inr (s, p) ↦ (Choice.azure s, ground arith)
  | inl no_azure ↦ elim (Option-cases b.postgresql) [
    | inr (s, p) ↦ (Choice.postgresql s, ground arith)
    | inl no_postgresql ↦ elim (Option-cases b.mysql) [
      | inr (s, p) ↦ (Choice.mysql s, ground arith)
      | inl no_mysql ↦ elim (Option-cases b.file) [
        | inr (s, p) ↦ (Choice.file s, ground arith)
        | inl no_file ↦
            last_choice b no_inmem no_etcd no_gcs no_s3 no_azure no_postgresql no_mysql no_file one
      ]
    ]
  ]
]

pub choice : (b : BackendStorageSpec) → number_given b ≡ 1 → (c : Choice) × (alone c ≡ b)
choice b one = elim (Option-cases b.inmem) [
  | inr (s, p) ↦ (Choice.inmem s, ground arith)
  | inl no_inmem ↦ elim (Option-cases b.etcd) [
    | inr (s, p) ↦ (Choice.etcd s, ground arith)
    | inl no_etcd ↦ elim (Option-cases b.gcs) [
      | inr (s, p) ↦ (Choice.gcs s, ground arith)
      | inl no_gcs ↦ elim (Option-cases b.s3) [
        | inr (s, p) ↦ (Choice.s3 s, ground arith)
        | inl no_s3 ↦ middle_choice b no_inmem no_etcd no_gcs no_s3 one
      ]
    ]
  ]
]
