-- ===== src/Server/Pod/Template/Sound.antt =====
-- The pod template of a server that the validator accepts.
use vault_operator.Base.{
  String, ◌≡◌, refl, sym, ◌⊎◌, Result, err, Option, none, some, Option-cases, inl, inr, [], ok,
  arith,
}
use vault_operator.Meta.{Vendor}
use vault_operator.Server.Spec.{UnsealerSpec, VaultServer}
use vault_operator.Server.Storage.{Storage, new_storage}
use vault_operator.Server.Storage.Chosen.{backend_of, accepted-IsChosen}
use vault_operator.Server.Unsealer.{
  Unsealer, new_unsealer_service, mode_of, IsService, accepted-IsService,
}
use vault_operator.Server.Validator.{Kube, validate_vault_server}
use vault_operator.Server.Validator.Acceptable.{BackendMet, Given, UnsealerMet}
use vault_operator.Server.Validator.Accepted.{validate_vault_server-IsAcceptable}
use vault_operator.Server.Pod.{EnvVar, secret_key_ref, PodTemplate, CoreUtil, CoreUtilLaws, All}
use vault_operator.Server.Pod.Storage.{storage_apply}
use vault_operator.Server.Pod.Unsealer.{
  Cluster, reviewer_jwt, unsealer_container, with_token, unsealer_apply, mode_apply,
}
use vault_operator.Server.Pod.Token.{
  IsListed, IsLooked, try_get_jwt_token_secret, try_get_jwt_token_secret_lem,
}
use vault_operator.Server.Pod.Template.{
  get_pod_template, own_apply, exporter_env, exporter_apply, vault_apply,
}
use vault_operator.Server.Pod.Template.Kept.{
  All-map, IsGood, EndsGood, and_then-EndsGood, EndsGood-wide,
}
use vault_operator.Server.Pod.Template.Resolved.{Resolves, storage_apply-EndsGood}
use vault_operator.Server.Pod.Template.Modes.{ModeMet, put-IsGood, mode_apply-IsGood}
use vault_operator.Server.Pod.Template.Own.{own_apply-IsGood}
use mathlib.Core.Path.{subst}

module _ (v : Vendor) (u : CoreUtil) (laws : CoreUtilLaws u) (kube : Kube) (cluster : Cluster)
    (vs : VaultServer) where
  -- The variable of the reviewer's token: its secret is one that the reviewer's service account
  -- listed, and it is there.
  abbrev pub IsReviewerToken : EnvVar → Type 0
  IsReviewerToken e =
      (e.name ≡ reviewer_jwt)
      × (jwt : String) × (e.source ≡ secret_key_ref jwt cluster.service_account_token_key)
      × IsListed v kube cluster.accounts (v.name_with_suffix vs.name "k8s-token-reviewer")
          vs.namespace jwt

  -- A variable that takes the key of a secret takes one that is there, or is that of the token.
  abbrev pub IsBacked : EnvVar → Type 0
  IsBacked e = Resolves kube vs.namespace e ⊎ IsReviewerToken e

  abbrev R : EnvVar → Type 0
  R = Resolves kube vs.namespace

  abbrev Q : EnvVar → Type 0
  Q = IsBacked

  -- The secrets of the mode of an unsealer are there.
  abbrev ServiceMet : Option (UnsealerSpec × Unsealer) → Type 0
  ServiceMet none = Unit
  ServiceMet (some (spec, unslr)) = ModeMet kube vs.namespace (mode_of unslr)

  with_jwt :
      (spec : UnsealerSpec) (unslr : Unsealer) (pt : PodTemplate) (jwt : String)
      → ModeMet kube vs.namespace (mode_of unslr)
      → IsGood Q pt
      → IsListed v kube cluster.accounts
          (v.name_with_suffix vs.name "k8s-token-reviewer")
          vs.namespace
          jwt
      → IsGood Q (
          mode_apply u unslr (record pt {
            containers =
                u.upsert_container pt.containers (unsealer_container v u kube cluster vs spec jwt);
          }))
  with_jwt spec unslr pt jwt met good listed =
      mode_apply-IsGood u laws kube vs.namespace Q (λ e r. inl r) unslr _ met
        (put-IsGood u laws kube vs.namespace Q (λ e r. inl r) pt _ good
          (tt, laws.upsert_env_vars-All Q [] _ tt (inr (refl, jwt, refl, listed), (inl tt, tt))))

  with_token-EndsGood :
      (spec : UnsealerSpec) (unslr : Unsealer) (pt : PodTemplate)
      → ModeMet kube vs.namespace (mode_of unslr)
      → IsGood Q pt
      → (r : Option (Result String))
      → IsLooked v kube cluster.accounts
          (v.name_with_suffix vs.name "k8s-token-reviewer")
          vs.namespace
          r
      → EndsGood Q (with_token v u kube cluster vs spec unslr pt r)
  unfolding with_token
  with_token-EndsGood spec unslr pt met good none l = absurd l
  with_token-EndsGood spec unslr pt met good (some (err e)) l = tt
  with_token-EndsGood spec unslr pt met good (some (ok jwt)) l =
      with_jwt spec unslr pt jwt met good l

  unsealer_apply-EndsGood :
      (service : Option (UnsealerSpec × Unsealer)) (pt : PodTemplate)
      → ServiceMet service
      → IsGood Q pt
      → EndsGood Q (unsealer_apply v u kube cluster vs service pt)
  unfolding unsealer_apply
  unsealer_apply-EndsGood none pt met good = good
  unsealer_apply-EndsGood (some (spec, unslr)) pt met good =
      let account = v.name_with_suffix vs.name "k8s-token-reviewer" in
      elim (Option-cases cluster.load_tls_files) [
        | inr (e, p) ↦ rw (p, unsealer_apply) tt
        | inl p ↦
            rw (p, unsealer_apply)
              (with_token-EndsGood spec unslr pt met good
                (try_get_jwt_token_secret v kube cluster.accounts account vs.namespace)
                (try_get_jwt_token_secret_lem v kube cluster.accounts account vs.namespace))
      ]

  service_met :
      (unsealer : Option UnsealerSpec) (service : Option (UnsealerSpec × Unsealer))
      → Given unsealer (UnsealerMet kube vs.namespace)
      → IsService unsealer service
      → ServiceMet service
  service_met none service met is_none = subst ServiceMet (sym is_none) tt
  service_met (some spec) service met (unslr, p, q) =
      let mode_met : ModeMet kube vs.namespace spec.mode = record {
        aws_kms_ssm = met.aws_kms_ssm;
        azure_key_vault = met.azure_key_vault;
      } in
      subst ServiceMet (sym p) (subst (ModeMet kube vs.namespace) (sym q) mode_met)

  get_pod_template-IsGood : IsGood R (get_pod_template vs)
  get_pod_template-IsGood = record {
    init_containers = tt;
    containers = ((tt, (tt, (tt, tt))), tt);
    some_container = λ p. ground arith;
  }

  vault_apply-EndsGood :
      (st : Storage) (service : Option (UnsealerSpec × Unsealer))
      → BackendMet kube vs.namespace (backend_of st)
      → ServiceMet service
      → All R (exporter_env vs.spec.monitor)
      → EndsGood Q (vault_apply v u kube cluster vs st service (get_pod_template vs))
  unfolding vault_apply exporter_apply
  vault_apply-EndsGood st service backend met env =
      and_then-EndsGood Q (storage_apply st (own_apply v u vs (get_pod_template vs))) _
        (EndsGood-wide R Q (λ e r. inl r) _
          (storage_apply-EndsGood kube vs.namespace st _ backend
            (own_apply-IsGood v u laws R vs _ get_pod_template-IsGood)))
        (λ pt good.
          and_then-EndsGood Q (unsealer_apply v u kube cluster vs service pt)
            (exporter_apply v u vs) (unsealer_apply-EndsGood service pt met good)
            (λ pt' good'.
              put-IsGood u laws kube vs.namespace Q (λ e r. inl r) pt' _ good'
                (tt, All-map (exporter_env vs.spec.monitor) (λ e r. inl r) env)))

  -- If the validator accepts a server, then with the same secrets, if a claim can be made and the
  -- variables that the user gives for the exporter take keys that are there, the server has a storage
  -- and, if its spec asks for one, an unsealer, and filling its pod template does not panic; where it
  -- does not fail, each volume mount of each container names a volume of the pod, and each variable
  -- that takes the key of a secret takes one that is there, or is that of the reviewer's token, whose
  -- secret is there and was listed by the reviewer's service account. The helpers of the templates
  -- are as `CoreUtilLaws` says.
  pub accepted-EndsGood :
      validate_vault_server kube vs ≡ none
      → ((claim : String) → kube.create_or_patch_pvc vs.namespace claim ≡ none)
      → All (Resolves kube vs.namespace) (exporter_env vs.spec.monitor)
      → (st : Storage) × (service : Option (UnsealerSpec × Unsealer)) × (new_storage kube vs
          ≡ ok st)
        × (new_unsealer_service vs.spec.unsealer none ≡ ok service)
        × EndsGood IsBacked (vault_apply v u kube cluster vs st service (get_pod_template vs))
  accepted-EndsGood valid made env =
      let acceptable = (validate_vault_server-IsAcceptable kube vs).0 valid in
      let (st, (chosen, same, _)) = accepted-IsChosen kube vs valid made in
      let (service, p, is_service) = accepted-IsService kube vs valid in
      let backend : BackendMet kube vs.namespace (backend_of st) =
        subst (BackendMet kube vs.namespace) (sym same) acceptable.backend in
      let met = service_met vs.spec.unsealer service acceptable.unsealer is_service in
      (st, service, chosen, p, vault_apply-EndsGood st service backend met env)
