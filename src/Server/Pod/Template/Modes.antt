-- ===== src/Server/Pod/Template/Modes.antt =====
-- The unsealer leaves a good pod template.
use vault_operator.Base.{
  String, refl, Bool, true, false, Bool-cases, inl, inr, List, [], ◌∷◌, ◌==◌, if◌then◌else◌, arith,
  eq_iff,
}
use vault_operator.Server.Spec.{ModeSpec, AwsKmsSsmSpec, AzureKeyVault}
use vault_operator.Server.Unsealer.{Unsealer, mode_of}
use vault_operator.Server.Validator.{Kube}
use vault_operator.Server.Validator.Acceptable.{Given, Secrets, access_keys}
use vault_operator.Server.Pod.{
  EnvVar, value, Container, PodTemplate, zero_container, CoreUtil, CoreUtilLaws, last_named, All,
  IsMade,
}
use vault_operator.Server.Pod.Storage.{env_of, envs_if}
use vault_operator.Server.Pod.Unsealer.{
  container_name, with_mount, with_volume, aws_unsealer_envs, azure_unsealer_envs, google_file,
  mode_apply,
}
use vault_operator.Server.Pod.Template.Kept.{All-map, All-append, IsMounted, IsMade-wider, IsGood}
use vault_operator.Server.Pod.Template.Resolved.{
  Resolves, secret_key_ref-Resolves, envs_if-Resolves,
}

module _ (P : Container → Type 0) where
  pub last_named_lem :
      (name : String) (cont : Container) (cs : List Container)
      → P cont
      → All P cs
      → P (last_named name cont cs)
  last_named_lem name cont [] p h = p
  last_named_lem name cont (c ∷ cs) p (q, h) = elim (Bool-cases (c.name == name)) [
    | inl e ↦ rw e (last_named_lem name c cs q h)
    | inr e ↦ rw e (last_named_lem name cont cs p h)
  ]

-- The secrets of the mode are there.
pub record ModeMet (kube : Kube) (ns : String) (m : ModeSpec) : Type 0 where
  pub aws_kms_ssm :
      Given m.aws_kms_ssm (λ s. Secrets kube ns ((s.credential_secret, access_keys) ∷ []))
  pub azure_key_vault : Given m.azure_key_vault (λ s. Secrets kube ns (
      (s.aad_client_secret, "client-id" ∷ "client-secret" ∷ [])
      ∷ (s.client_cert_secret, "client-cert" ∷ "client-cert-password" ∷ [])
      ∷ []))

-- `Q` holds of the variables, among them those that take keys that are there.
module _ (u : CoreUtil) (laws : CoreUtilLaws u) (kube : Kube) (ns : String) (Q : EnvVar → Type 0)
    (wide : (e : EnvVar) → Resolves kube ns e → Q e) where
  abbrev R : EnvVar → Type 0
  R = Resolves kube ns

  pub put-IsGood :
      (pt : PodTemplate) (c : Container)
      → IsGood Q pt
      → IsMade (IsMounted pt.volumes) Q c
      → IsGood Q (record pt { containers = u.upsert_container pt.containers c })
  put-IsGood pt c good made = record {
    init_containers = good.init_containers;
    containers =
        laws.upsert_container-All (IsMounted pt.volumes) Q pt.containers c good.containers made;
    some_container = laws.upsert_container-ne-nil pt.containers c;
  }

  -- The unsealer's container.
  abbrev found : PodTemplate → Container
  found pt = last_named container_name zero_container pt.containers

  found_lem : (pt : PodTemplate) → IsGood Q pt → IsMade (IsMounted pt.volumes) Q (found pt)
  found_lem pt good =
      last_named_lem (IsMade (IsMounted pt.volumes) Q) container_name zero_container pt.containers
        (tt, tt) good.containers

  with_volume-IsGood :
      (name secret_name : String) (pt : PodTemplate)
      → IsGood Q pt
      → IsGood Q (with_volume u name secret_name pt)
  with_volume-IsGood name secret_name pt good =
      let ws = (with_volume u name secret_name pt).volumes in
      record {
        init_containers =
            IsMade-wider Q pt.volumes ws pt.init_containers
              (λ n. laws.has_volume-upsert_old n pt.volumes _) good.init_containers;
        containers =
            IsMade-wider Q pt.volumes ws pt.containers
              (λ n. laws.has_volume-upsert_old n pt.volumes _) good.containers;
        some_container = good.some_container;
      }

  with_mount-All :
      (name secret_name path : String) (pt : PodTemplate) (c : Container)
      → All (IsMounted (with_volume u name secret_name pt).volumes) c.volume_mounts
      → All
          (IsMounted (with_volume u name secret_name pt).volumes)
          (with_mount u name path c).volume_mounts
  with_mount-All name secret_name path pt c h =
      laws.upsert_volume_mount-All _ c.volume_mounts _ h (
        laws.has_volume-upsert_new name pt.volumes _ (ground (arith, (eq_iff name name).1 refl)),
        tt,
      )

  if-All : (b : Bool) (xs : List EnvVar) → All R xs → All R (if b then [] else xs)
  if-All true xs h = tt
  if-All false xs h = h

  if-IsGood :
      (b : Bool) (x y : PodTemplate) → IsGood Q x → IsGood Q y → IsGood Q (if b then x else y)
  if-IsGood true x y p q = p
  if-IsGood false x y p q = q

  aws_envs-Resolves :
      (s : AwsKmsSsmSpec)
      → Secrets kube ns ((s.credential_secret, access_keys) ∷ [])
      → All R (aws_unsealer_envs s)
  aws_envs-Resolves s met =
      let region : List EnvVar = record { name = "AWS_REGION"; source = value s.region } ∷ [] in
      let endpoint : List EnvVar =
        record { name = "AWS_KMS_ENDPOINT"; source = value s.endpoint } ∷ [] in
      let keys : List EnvVar =
        env_of "AWS_ACCESS_KEY_ID" s.credential_secret "access_key"
        ∷ env_of "AWS_SECRET_ACCESS_KEY" s.credential_secret "secret_key"
        ∷ [] in
      All-append R (if s.region == "" then [] else region) _
        (if-All (s.region == "") region (tt, tt))
        (All-append R (if s.endpoint == "" then [] else endpoint) _
          (if-All (s.endpoint == "") endpoint (tt, tt))
          (envs_if-Resolves kube ns s.credential_secret keys (λ p.
            let (a, (b, _)) =
              secret_key_ref-Resolves kube ns s.credential_secret access_keys met.0 p in
            (a "AWS_ACCESS_KEY_ID", (b "AWS_SECRET_ACCESS_KEY", tt)))))

  azure_envs-Resolves :
      (s : AzureKeyVault)
      → Secrets kube ns (
          (s.aad_client_secret, "client-id" ∷ "client-secret" ∷ [])
          ∷ (s.client_cert_secret, "client-cert" ∷ "client-cert-password" ∷ [])
          ∷ [])
      → All R (azure_unsealer_envs s)
  azure_envs-Resolves s met =
      All-append R (envs_if s.aad_client_secret _) (envs_if s.client_cert_secret _)
        (envs_if-Resolves kube ns s.aad_client_secret _ (λ p.
          let (a, (b, _)) =
            secret_key_ref-Resolves kube ns s.aad_client_secret ("client-id" ∷ "client-secret" ∷ [])
              met.0 p in
          (a "AZURE_CLIENT_ID", (b "AZURE_CLIENT_SECRET", tt))))
        (envs_if-Resolves kube ns s.client_cert_secret _ (λ p.
          let (_, (b, _)) =
            secret_key_ref-Resolves kube ns s.client_cert_secret
              ("client-cert" ∷ "client-cert-password" ∷ []) met.1.0 p in
          (b "AZURE_CLIENT_CERT_PASSWORD", tt)))

  pub mode_apply-IsGood :
      (unslr : Unsealer) (pt : PodTemplate)
      → ModeMet kube ns (mode_of unslr)
      → IsGood Q pt
      → IsGood Q (mode_apply u unslr pt)
  unfolding mode_apply
  mode_apply-IsGood (Unsealer.kubernetes name) pt met good =
      put-IsGood pt _ good (found_lem pt good)
  mode_apply-IsGood (Unsealer.google s) pt met good =
      let wider = with_volume u "vault-unsealer-google-credential" s.credential_secret pt in
      let kept =
        with_volume-IsGood "vault-unsealer-google-credential" s.credential_secret pt good in
      let made = found_lem wider kept in
      if-IsGood (s.credential_secret == "") _ _ (put-IsGood pt _ good (found_lem pt good)) (
        put-IsGood wider _ kept (
          with_mount-All "vault-unsealer-google-credential" s.credential_secret
              "/etc/vault/unsealer/google/creds" pt (found wider) made.0,
          laws.upsert_env_vars-All Q (found wider).env (google_file ∷ []) made.1
              (wide google_file tt, tt),
        ))
  mode_apply-IsGood (Unsealer.aws s) pt met good =
      let made = found_lem pt good in
      put-IsGood pt _ good (
        made.0,
        laws.upsert_env_vars-All Q (found pt).env (aws_unsealer_envs s) made.1
            (All-map (aws_unsealer_envs s) wide (aws_envs-Resolves s met.aws_kms_ssm)),
      )
  mode_apply-IsGood (Unsealer.azure s) pt met good =
      let envs = All-map (azure_unsealer_envs s) wide (azure_envs-Resolves s met.azure_key_vault) in
      let wider = with_volume u "azure-client-cert" s.client_cert_secret pt in
      let kept = with_volume-IsGood "azure-client-cert" s.client_cert_secret pt good in
      let made = found_lem pt good in
      let made' = found_lem wider kept in
      if-IsGood (s.client_cert_secret == "") _ _
        (put-IsGood pt _ good
          (made.0, laws.upsert_env_vars-All Q (found pt).env (azure_unsealer_envs s) made.1 envs))
        (put-IsGood wider _ kept (
          with_mount-All "azure-client-cert" s.client_cert_secret "/etc/vault/unsealer/azure/cert"
              pt (found wider) made'.0,
          laws.upsert_env_vars-All Q (found wider).env (azure_unsealer_envs s) made'.1 envs,
        ))
