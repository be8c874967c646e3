-- ===== src/Server/Unsealer.antt =====
-- The unsealer of a Vault server: `newUnsealer` and `NewUnsealerService` of
-- pkg/vault/unsealer/unsealer.go. The client of the cluster is the parameter `new_for_config`.
use vault_operator.Base.{
  ◌+◌, ◌≡◌, refl, Option, none, some, Option-cases, inl, inr, String, Error, message, wrap, Result,
  ok, err, arith,
}
use vault_operator.Server.Spec.{
  UnsealerSpec, ModeSpec, GoogleKmsGcsSpec, AwsKmsSsmSpec, AzureKeyVault, VaultServer,
}
use vault_operator.Server.Validator.{Kube, validate_vault_server}
use vault_operator.Server.Validator.Acceptable.{given, Given, UnsealerMet}
use vault_operator.Server.Validator.Accepted.{validate_vault_server-IsAcceptable}

-- The `Options` of each package below pkg/vault/unsealer hold the spec of the mode.
pub data Unsealer : Type 0 where
  kubernetes : String → Unsealer
  google : GoogleKmsGcsSpec → Unsealer
  aws : AwsKmsSsmSpec → Unsealer
  azure : AzureKeyVault → Unsealer

unfoldable pub new_unsealer : ModeSpec → Result Unsealer
new_unsealer mode = elim mode.kubernetes_secret [
  | some s ↦ ok (Unsealer.kubernetes s)
  | none ↦ elim mode.google_kms_gcs [
    | some s ↦ ok (Unsealer.google s)
    | none ↦ elim mode.aws_kms_ssm [
      | some s ↦ ok (Unsealer.aws s)
      | none ↦ elim mode.azure_key_vault [
        | some s ↦ ok (Unsealer.azure s)
        | none ↦ err (message "unsealer mode is not valid/defined")
      ]
    ]
  ]
]

-- Without an unsealer in the spec there is none, and no error.
unfoldable pub new_unsealer_service :
    Option UnsealerSpec → Option Error → Result (Option (UnsealerSpec × Unsealer))
unfolding new_unsealer
new_unsealer_service none new_for_config = ok none
new_unsealer_service (some u) new_for_config = elim (new_unsealer u.mode) [
  | err e ↦ err (wrap "failed to create unsealer service" e)
  | ok unslr ↦ elim new_for_config [
    | some e ↦ err (wrap "failed to create kubernetes client" e)
    | none ↦ ok (some (u, unslr))
  ]
]

-- The spec whose only mode is the one of an unsealer.
abbrev pub mode_of : Unsealer → ModeSpec
mode_of (Unsealer.kubernetes s) = record {
  kubernetes_secret = some s;
  google_kms_gcs = none;
  aws_kms_ssm = none;
  azure_key_vault = none;
}
mode_of (Unsealer.google s) = record {
  kubernetes_secret = none;
  google_kms_gcs = some s;
  aws_kms_ssm = none;
  azure_key_vault = none;
}
mode_of (Unsealer.aws s) = record {
  kubernetes_secret = none;
  google_kms_gcs = none;
  aws_kms_ssm = some s;
  azure_key_vault = none;
}
mode_of (Unsealer.azure s) = record {
  kubernetes_secret = none;
  google_kms_gcs = none;
  aws_kms_ssm = none;
  azure_key_vault = some s;
}

mode_lem :
    (m : ModeSpec)
    → given m.kubernetes_secret
        + given m.google_kms_gcs
        + given m.aws_kms_ssm
        + given m.azure_key_vault
      ≡ 1
    → (unslr : Unsealer) × (new_unsealer m ≡ ok unslr) × (mode_of unslr ≡ m)
unfolding new_unsealer
mode_lem m one = elim (Option-cases m.kubernetes_secret) [
  | inr (s, p) ↦ (Unsealer.kubernetes s, ground arith, ground arith)
  | inl p ↦ elim (Option-cases m.google_kms_gcs) [
    | inr (s, q) ↦ (Unsealer.google s, ground arith, ground arith)
    | inl q ↦ elim (Option-cases m.aws_kms_ssm) [
      | inr (s, r) ↦ (Unsealer.aws s, ground arith, ground arith)
      | inl r ↦ elim (Option-cases m.azure_key_vault) [
        | inr (s, t) ↦ (Unsealer.azure s, ground arith, ground arith)
        | inl t ↦ absurd (ground arith)
      ]
    ]
  ]
]

-- The unsealer that a spec asks for: none, or one of the given mode with the spec's threshold and
-- shares.
abbrev pub IsService : Option UnsealerSpec → Option (UnsealerSpec × Unsealer) → Type 0
IsService none r = r ≡ none
IsService (some u) r = (unslr : Unsealer) × (r ≡ some (u, unslr)) × (mode_of unslr ≡ u.mode)

service_lem :
    (kube : Kube) (ns : String) (u : Option UnsealerSpec)
    → Given u (UnsealerMet kube ns)
    → (r : Option (UnsealerSpec × Unsealer)) × (new_unsealer_service u none ≡ ok r) × IsService u r
unfolding new_unsealer_service
service_lem kube ns none m = (none, refl, refl)
service_lem kube ns (some u) m =
    let (unslr, p, q) = mode_lem u.mode m.one in (some (u, unslr), ground arith, (unslr, refl, q))

-- If the validator accepts a server and the client of the cluster can be made, the server has an
-- unsealer exactly if its spec has one, with the spec's shares and threshold, and of the one mode
-- that is given.
pub accepted-IsService :
    (kube : Kube) (vs : VaultServer)
    → validate_vault_server kube vs ≡ none
    → (r : Option (UnsealerSpec × Unsealer)) × (new_unsealer_service vs.spec.unsealer none ≡ ok r)
      × IsService vs.spec.unsealer r
accepted-IsService kube vs valid =
    service_lem kube vs.namespace vs.spec.unsealer
      ((validate_vault_server-IsAcceptable kube vs).0 valid).unsealer
