-- ===== src/Server/Pod/Template/Resolved.antt =====
-- The variables that a storage adds take keys of secrets that the validator has found.
use vault_operator.Base.{
  String, ◌≡◌, false, Bool-cases, inl, inr, some, List, [], ◌∷◌, ◌==◌, ◌||◌, ok, arith, eq_iff,
}
use vault_operator.Server.AuthMethods.{lookup}
use vault_operator.Server.Spec.{SecretData, EtcdSpec, SwiftSpec}
use vault_operator.Server.Storage.{Storage}
use vault_operator.Server.Storage.Chosen.{backend_of}
use vault_operator.Server.Validator.{Kube}
use vault_operator.Server.Validator.Secrets.{HasKeys, HasSecret}
use vault_operator.Server.Validator.Acceptable.{BackendMet, login, access_keys}
use vault_operator.Server.Pod.{
  EnvSource, EnvVar, value, secret_key_ref, VolumeSource, secret, PodTemplate, when, All,
}
use vault_operator.Server.Pod.Storage.{
  env_of, envs_if, gcs_file, etcd_envs, aws_envs, swift_envs, mount_first, add_env, mount_gcs,
  storage_apply,
}
use vault_operator.Server.Pod.Template.Kept.{
  All-append, IsGood, EndsGood, and_then-EndsGood, when-EndsGood, add_env-EndsGood,
  mount_first-EndsGood,
}

module _ (kube : Kube) (ns : String) where
  abbrev pub SourceResolves : EnvSource → Type 0
  SourceResolves (value x) = Unit
  SourceResolves (secret_key_ref name key) =
      (content : SecretData) × (val : String) × (kube.get_secret ns name ≡ ok content)
      × (lookup key content ≡ some val)

  -- A variable that takes the key of a secret takes one that is there.
  abbrev pub Resolves : EnvVar → Type 0
  Resolves e = SourceResolves e.source

  keys_given :
      (name : String) (content : SecretData) (keys : List String)
      → kube.get_secret ns name ≡ ok content
      → HasKeys content keys
      → All (λ k. (n : String) → Resolves (env_of n name k)) keys
  keys_given name content [] found h = tt
  keys_given name content (k ∷ ks) found ((val, p, q), h) =
      (λ n. (content, val, found, p), keys_given name content ks found h)

  -- The keys of a secret that is named resolve.
  pub secret_key_ref-Resolves :
      (name : String) (keys : List String)
      → HasSecret kube ns name keys
      → (name == "") ≡ false
      → All (λ k. (n : String) → Resolves (env_of n name k)) keys
  secret_key_ref-Resolves name keys (inl p) named = absurd (ground (arith, eq_iff name ""))
  secret_key_ref-Resolves name keys (inr (content, found, h)) named =
      keys_given name content keys found h

  pub envs_if-Resolves :
      (name : String) (envs : List EnvVar)
      → ((name == "") ≡ false → All Resolves envs)
      → All Resolves (envs_if name envs)
  envs_if-Resolves name envs h = elim (Bool-cases (name == "")) [
    | inl p ↦ rw p tt
    | inr p ↦ rw p (h p)
  ]

  aws_envs-Resolves :
      (credential token : String)
      → HasSecret kube ns credential ("access_key" ∷ "secret_key" ∷ [])
      → HasSecret kube ns token ("session_token" ∷ [])
      → All Resolves (aws_envs credential token)
  aws_envs-Resolves credential token h k =
      All-append Resolves (envs_if credential _) (envs_if token _)
        (envs_if-Resolves credential _ (λ p.
          let (a, (b, _)) = secret_key_ref-Resolves credential access_keys h p in
          (a "AWS_ACCESS_KEY_ID", (b "AWS_SECRET_ACCESS_KEY", tt))))
        (envs_if-Resolves token _ (λ p.
          let (a, _) = secret_key_ref-Resolves token ("session_token" ∷ []) k p in
          (a "AWS_SESSION_TOKEN", tt)))

  when_mount-EndsGood :
      (name volume : String) (source : VolumeSource) (path : String) (pt : PodTemplate)
      → IsGood Resolves pt
      → EndsGood Resolves (when name (mount_first volume source path) pt)
  when_mount-EndsGood name volume source path pt good =
      when-EndsGood Resolves name (mount_first volume source path) pt good
        (λ _. mount_first-EndsGood Resolves volume source path pt good)

  when_env-EndsGood :
      (name : String) (envs : List EnvVar) (pt : PodTemplate)
      → ((name == "") ≡ false → All Resolves envs)
      → IsGood Resolves pt
      → EndsGood Resolves (when name (add_env envs) pt)
  when_env-EndsGood name envs pt resolved good =
      when-EndsGood Resolves name (add_env envs) pt good
        (λ named. add_env-EndsGood Resolves envs pt (resolved named) good)

  etcd_envs-Resolves :
      (s : EtcdSpec)
      → HasSecret kube ns s.credential_secret_name login
      → (s.credential_secret_name == "") ≡ false
      → All Resolves (etcd_envs s)
  etcd_envs-Resolves s met named =
      let (a, (b, _)) = secret_key_ref-Resolves s.credential_secret_name login met named in
      (a "ETCD_USERNAME", (b "ETCD_PASSWORD", tt))

  swift_envs-Resolves :
      (s : SwiftSpec)
      → HasSecret kube ns s.credential_secret login
      → HasSecret kube ns s.auth_token_secret ("auth_token" ∷ [])
      → (s.credential_secret == "") ≡ false
      → All Resolves (swift_envs s)
  swift_envs-Resolves s met token named =
      let (a, (b, _)) = secret_key_ref-Resolves s.credential_secret login met named in
      let rest =
        envs_if-Resolves s.auth_token_secret
          (env_of "OS_AUTH_TOKEN" s.auth_token_secret "auth_token" ∷ [])
          (λ p.
            let (c, _) = secret_key_ref-Resolves s.auth_token_secret ("auth_token" ∷ []) token p in
            (c "OS_AUTH_TOKEN", tt)) in
      (a "OS_USERNAME", (b "OS_PASSWORD", rest))

  -- A storage whose secrets are there leaves a good template.
  pub storage_apply-EndsGood :
      (st : Storage) (pt : PodTemplate)
      → BackendMet kube ns (backend_of st)
      → IsGood Resolves pt
      → EndsGood Resolves (storage_apply st pt)
  unfolding storage_apply
  storage_apply-EndsGood Storage.inmem pt met good = good
  storage_apply-EndsGood (Storage.etcd s) pt met good =
      and_then-EndsGood Resolves
        (when s.tls_secret_name
          (mount_first "vault-etcd-tls" (secret s.tls_secret_name) "/etc/vault/storage/etcd/tls/")
          pt)
        (when s.credential_secret_name (add_env (etcd_envs s)))
        (when_mount-EndsGood s.tls_secret_name "vault-etcd-tls" (secret s.tls_secret_name)
          "/etc/vault/storage/etcd/tls/" pt good)
        (λ p.
          when_env-EndsGood s.credential_secret_name (etcd_envs s) p
            (etcd_envs-Resolves s met.etcd.0))
  storage_apply-EndsGood (Storage.gcs s) pt met good =
      when-EndsGood Resolves s.credential_secret (mount_gcs s) pt good (λ _.
        and_then-EndsGood Resolves
          (mount_first "vault-google-credential" (secret s.credential_secret)
            "/etc/vault/storage/gcs/creds" pt)
          (add_env (gcs_file ∷ []))
          (mount_first-EndsGood Resolves "vault-google-credential" (secret s.credential_secret)
            "/etc/vault/storage/gcs/creds" pt good)
          (λ p. add_env-EndsGood Resolves (gcs_file ∷ []) p (tt, tt)))
  storage_apply-EndsGood (Storage.s3 s) pt met good =
      add_env-EndsGood Resolves (aws_envs s.credential_secret s.session_token_secret) pt
        (aws_envs-Resolves s.credential_secret s.session_token_secret met.s3.0 met.s3.1.0) good
  storage_apply-EndsGood (Storage.azure s) pt met good =
      when_env-EndsGood s.account_key_secret
        (env_of "AZURE_ACCOUNT_KEY" s.account_key_secret "account_key" ∷ []) pt
        (λ named.
          let (a, _) =
            secret_key_ref-Resolves s.account_key_secret ("account_key" ∷ []) met.azure.0 named in
          (a "AZURE_ACCOUNT_KEY", tt))
        good
  storage_apply-EndsGood (Storage.postgresql s url) pt met good = good
  storage_apply-EndsGood (Storage.mysql s username password) pt met good =
      when_mount-EndsGood s.tls_ca_secret "mysql-tls" (secret s.tls_ca_secret)
        "/etc/vault/mysql/certs" pt good
  storage_apply-EndsGood (Storage.file s claim) pt met good =
      elim (Bool-cases (s.path == "" || claim == "")) [
        | inl p ↦ rw p tt
        | inr p ↦ rw p (mount_first-EndsGood Resolves _ _ _ pt good)
      ]
  storage_apply-EndsGood (Storage.dynamodb s) pt met good =
      add_env-EndsGood Resolves (aws_envs s.credential_secret s.session_token_secret) pt
        (aws_envs-Resolves s.credential_secret s.session_token_secret met.dynamodb.0
          met.dynamodb.1.0)
        good
  storage_apply-EndsGood (Storage.swift s) pt met good =
      when_env-EndsGood s.credential_secret (swift_envs s) pt
        (swift_envs-Resolves s met.swift.0 met.swift.1.0) good
  storage_apply-EndsGood (Storage.consul s) pt met good =
      when_mount-EndsGood s.tls_secret_name "vault-consul-tls" (secret s.tls_secret_name)
        "/etc/vault/storage/consul/tls/" pt good
