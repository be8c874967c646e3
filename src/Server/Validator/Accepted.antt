-- ===== src/Server/Validator/Accepted.antt =====
-- The validator accepts exactly the acceptable Vault servers.
use vault_operator.Base.{
  ℕ, zero, suc, ◌+◌, String, ◌≡◌, refl, inl, inr, Result-cases, false, Option, none, some, List,
  ◌∷◌, Error, message, arith, eq_iff, ◌≤◌,
}
use vault_operator.Base.Int.{ℤ, pos, negsuc, ◌≤?◌}
use vault_operator.Server.Spec.{VaultServer, BackendStorageSpec, UnsealerSpec}
use vault_operator.Server.Validator.{
  Kube, Requirement, no_secrets, etcd_secrets, mysql_secrets, postgresql_secrets, gcs_secrets,
  s3_secrets, azure_secrets, dynamodb_secrets, swift_secrets, consul_secrets,
  google_kms_gcs_secrets, aws_kms_ssm_secrets, azure_key_vault_secrets, Block, block, exactly_one,
  too_few, backend_blocks, mode_blocks, count_blocks, validate_unsealer, validate_backend,
  validate_given, validate_vault_server,
}
use vault_operator.Server.Validator.Secrets.{
  AllMet, IsMet, BlocksMet, present, count_blocks_ok, count_blocks_met,
}
use mathlib.Core.Logic.{◌↔◌}
use vault_operator.Server.Validator.Acceptable.{given, Given, BackendMet, UnsealerMet, IsAcceptable}

exactly_one-none : (n : ℕ) (a b : Error) → exactly_one n a b ≡ none → n ≡ 1
exactly_one-none zero a b h = cc
exactly_one-none (suc zero) a b h = refl
exactly_one-none (suc (suc n)) a b h = cc

positive_lem : (z : ℤ) → (z ≤? pos 0) ≡ false → (k : ℕ) × (z ≡ pos k) × (1 ≤ k)
positive_lem (pos k) h = (k, refl, ground arith)
positive_lem (negsuc k) h = cc

present-block :
    {S : Type 0} (o : Option S) (f : S → List Requirement) (bs : List Block)
    → present (block o f ∷ bs) ≡ given o + present bs
present-block none f bs = omega arith
present-block (some s) f bs = omega arith

module _ (kube : Kube) (ns : String) where
  met-block :
      {S : Type 0} (o : Option S) (f : S → List Requirement)
      → IsMet kube ns (block o f)
      → Given o (λ s. AllMet kube ns (f s))
  met-block none f h = tt
  met-block (some s) f h = h

  block-IsMet :
      {S : Type 0} (o : Option S) (f : S → List Requirement)
      → Given o (λ s. AllMet kube ns (f s))
      → IsMet kube ns (block o f)
  block-IsMet none f h = tt
  block-IsMet (some s) f h = h

  block-free : {S : Type 0} (o : Option S) → IsMet kube ns (block o no_secrets)
  block-free none = tt
  block-free (some s) = tt

  backend_none : (b : BackendStorageSpec) → validate_backend kube ns b ≡ none → BackendMet kube ns b
  unfolding validate_backend
  backend_none b h = elim (Result-cases (count_blocks kube ns 0 (backend_blocks b))) [
    | inr (e, p) ↦ absurd (ground arith)
    | inl (n, p) ↦
        let counted = count_blocks_ok kube ns 0 (backend_blocks b) n p in
        let m = counted.1 in
        record {
          one =
              let e : exactly_one n (message "spec.backend is not specified")
                    (message "more than one spec.backend is specified")
                  ≡ none =
                ground arith in
              omega (arith, exactly_one-none n _ _ e, simp present-block at counted.0);
          etcd = met-block b.etcd etcd_secrets m.1.1.0;
          mysql = met-block b.mysql mysql_secrets m.1.1.1.0;
          postgresql = met-block b.postgresql postgresql_secrets m.1.1.1.1.0;
          gcs = met-block b.gcs gcs_secrets m.1.1.1.1.1.0;
          s3 = met-block b.s3 s3_secrets m.1.1.1.1.1.1.0;
          azure = met-block b.azure azure_secrets m.1.1.1.1.1.1.1.0;
          dynamodb = met-block b.dynamodb dynamodb_secrets m.1.1.1.1.1.1.1.1.0;
          swift = met-block b.swift swift_secrets m.1.1.1.1.1.1.1.1.1.0;
          consul = met-block b.consul consul_secrets m.1.1.1.1.1.1.1.1.1.1.0;
        }
  ]

  backend_met : (b : BackendStorageSpec) → BackendMet kube ns b → validate_backend kube ns b ≡ none
  unfolding validate_backend
  backend_met b m =
      let held : BlocksMet kube ns (backend_blocks b) = (
        block-free b.inmem,
        (
          block-free b.file,
          (
            block-IsMet b.etcd etcd_secrets m.etcd,
            (
              block-IsMet b.mysql mysql_secrets m.mysql,
              (
                block-IsMet b.postgresql postgresql_secrets m.postgresql,
                (
                  block-IsMet b.gcs gcs_secrets m.gcs,
                  (
                    block-IsMet b.s3 s3_secrets m.s3,
                    (
                      block-IsMet b.azure azure_secrets m.azure,
                      (
                        block-IsMet b.dynamodb dynamodb_secrets m.dynamodb,
                        (
                          block-IsMet b.swift swift_secrets m.swift,
                          (block-IsMet b.consul consul_secrets m.consul, tt),
                        ),
                      ),
                    ),
                  ),
                ),
              ),
            ),
          ),
        ),
      ) in
      ground (arith, count_blocks_met kube ns 0 (backend_blocks b) held)

  unsealer_none : (u : UnsealerSpec) → validate_unsealer kube ns u ≡ none → UnsealerMet kube ns u
  unfolding validate_unsealer
  unsealer_none u h = elim (Result-cases (count_blocks kube ns 0 (mode_blocks u.mode))) [
    | inr (e, p) ↦ absurd (ground arith)
    | inl (n, p) ↦
        let counted = count_blocks_ok kube ns 0 (mode_blocks u.mode) n p in
        let m = counted.1 in
        let s = positive_lem u.secret_shares (ground arith) in
        let t = positive_lem u.secret_threshold (ground arith) in
        record {
          shares = s.0;
          shares_lem = s.1;
          threshold = t.0;
          threshold_lem = t.1;
          positive = t.2;
          bounded = ground arith;
          one =
              let e : exactly_one n (message "spec.unsealer.mode is not specified")
                    (message "more than one spec.unsealer.mode is specified")
                  ≡ none =
                ground arith in
              omega (arith, exactly_one-none n _ _ e, simp present-block at counted.0);
          google_kms_gcs = met-block u.mode.google_kms_gcs google_kms_gcs_secrets m.1.0;
          aws_kms_ssm = met-block u.mode.aws_kms_ssm aws_kms_ssm_secrets m.1.1.0;
          azure_key_vault = met-block u.mode.azure_key_vault azure_key_vault_secrets m.1.1.1.0;
        }
  ]

  unsealer_met : (u : UnsealerSpec) → UnsealerMet kube ns u → validate_unsealer kube ns u ≡ none
  unfolding validate_unsealer
  unsealer_met u m =
      let held : BlocksMet kube ns (mode_blocks u.mode) = (
        block-free u.mode.kubernetes_secret,
        (
          block-IsMet u.mode.google_kms_gcs google_kms_gcs_secrets m.google_kms_gcs,
          (
            block-IsMet u.mode.aws_kms_ssm aws_kms_ssm_secrets m.aws_kms_ssm,
            (block-IsMet u.mode.azure_key_vault azure_key_vault_secrets m.azure_key_vault, tt),
          ),
        ),
      ) in
      ground (arith, count_blocks_met kube ns 0 (mode_blocks u.mode) held)

  given_none :
      (u : Option UnsealerSpec) → validate_given kube ns u ≡ none → Given u (UnsealerMet kube ns)
  given_none none h = tt
  given_none (some u) h = unsealer_none u h

  given_met :
      (u : Option UnsealerSpec) → Given u (UnsealerMet kube ns) → validate_given kube ns u ≡ none
  given_met none h = refl
  given_met (some u) h = unsealer_met u h

replicas_none : (r : Option ℤ) → too_few r ≡ false → Given r (λ z. (n : ℕ) × (z ≡ pos (suc n)))
replicas_none none h = tt
replicas_none (some (pos zero)) h = absurd (cc)
replicas_none (some (pos (suc n))) h = (n, refl)
replicas_none (some (negsuc n)) h = absurd (cc)

replicas_met : (r : Option ℤ) → Given r (λ z. (n : ℕ) × (z ≡ pos (suc n))) → too_few r ≡ false
replicas_met none h = refl
replicas_met (some z) (n, p) = ground arith

module _ (kube : Kube) (vs : VaultServer) where
  accepted : validate_vault_server kube vs ≡ none → IsAcceptable kube vs
  unfolding validate_vault_server
  accepted h = record {
    version = λ p. ground (arith, (eq_iff vs.spec.version "").1 p);
    version_known = ground arith;
    replicas = replicas_none vs.spec.replicas (ground arith);
    backend = backend_none kube vs.namespace vs.spec.backend (ground arith);
    unsealer = given_none kube vs.namespace vs.spec.unsealer (ground arith);
  }

  -- The validator accepts exactly these servers: a version is named and known, the replicas are at
  -- least 1 if given, one backend is given and the secrets that it names are there with the keys
  -- that the backend reads, and the unsealer, if given, has a threshold between 1 and the number of
  -- shares, one mode, and the secrets of that mode.
  pub validate_vault_server-IsAcceptable :
      (validate_vault_server kube vs ≡ none) ↔ IsAcceptable kube vs
  unfolding validate_vault_server
  validate_vault_server-IsAcceptable = (
    accepted,
    λ m. ground (
      arith,
      eq_iff vs.spec.version "",
      replicas_met vs.spec.replicas m.replicas,
      backend_met kube vs.namespace vs.spec.backend m.backend,
      given_met kube vs.namespace vs.spec.unsealer m.unsealer,
    ),
  )
