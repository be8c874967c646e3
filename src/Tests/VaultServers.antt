-- ===== src/Tests/VaultServers.antt =====
-- Vault servers over concrete secrets: one on MySQL with an unsealer, one on Consul whose secret has
-- no token.
use vault_operator.Base.{
  ◌≡◌, ◌≢◌, refl, sym, ◌∙◌, true, false, not, ◌&&◌, Option, none, some, List, [], ◌∷◌, ◌==◌,
  if◌then◌else◌, is_nil, message, ok, err, Bool, arith, eq_iff,
}
use mathlib.Core.Logic.{◌↔◌}
use vault_operator.Base.Int.{pos, negsuc}
use vault_operator.Server.Spec.{
  BackendStorageSpec, InmemSpec, MysqlSpec, ConsulSpec, UnsealerSpec, ServerSpec, VaultServer,
  SecretData,
}
use vault_operator.Server.Validator.{
  Kube, validate_vault_server, validate_backend, validate_unsealer, count_blocks,
  check_requirements, validate_secret, check_keys,
}
use vault_operator.Server.Validator.Acceptable.{IsAcceptable}
use vault_operator.Server.Validator.Accepted.{validate_vault_server-IsAcceptable}
use vault_operator.Server.Storage.{Storage, storage_config}
use vault_operator.Server.Storage.Chosen.{
  IsChosen, accepted-IsChosen, Keyless, storage_config-empty_iff,
}
use vault_operator.Server.Unsealer.{Unsealer, new_unsealer_service, IsService, accepted-IsService}
use vault_operator.Server.Admission.{
  AdmissionRequest, allowed, Patches, Precondition, key_unchanged, metadata_key_unchanged,
  chain_key_unchanged, validate_update, validator_admit, has_method, kubernetes_method,
  set_default_values,
}
use vault_operator.Server.Admission.Update.{
  PatchLaw, AllUnchanged, IsUpdate, IsKept, validator_admit-IsKept,
}
use vault_operator.Server.Admission.Defaults.{set_default_values_lem}

abbrev pub login : SecretData
login = ("username", "u") ∷ ("password", "p") ∷ []

abbrev pub kube : Kube
kube = record {
  get_secret = λ ns n. if n == "login" then ok login else err (message "not found");
  get_version = λ v. if v == "1.2.3" then none else some (message "not found");
  create_or_patch_pvc = λ ns n. none;
}

abbrev pub on_mysql : MysqlSpec
on_mysql = record {
  address = "my:3306";
  database = "";
  table = "";
  user_credential_secret = "login";
  tls_ca_secret = "";
  max_parallel = pos 128;
}

abbrev pub mysql_backend : BackendStorageSpec
mysql_backend = record {
  inmem = none;
  etcd = none;
  gcs = none;
  s3 = none;
  azure = none;
  postgresql = none;
  mysql = some on_mysql;
  file = none;
  dynamodb = none;
  swift = none;
  consul = none;
}

abbrev unsealing : UnsealerSpec
unsealing = record {
  secret_shares = pos 4;
  secret_threshold = pos 2;
  retry_period_seconds = pos 10;
  overwrite_existing = false;
  store_root_token = true;
  mode = record {
    kubernetes_secret = some "keys";
    google_kms_gcs = none;
    aws_kms_ssm = none;
    azure_key_vault = none;
  };
}

abbrev pub spec : ServerSpec
spec = record {
  tls = none;
  monitor = none;
  replicas = some (pos 2);
  version = "1.2.3";
  backend = mysql_backend;
  unsealer = some unsealing;
  auth_methods = [];
  node_selector = [];
  config_source = none;
  data_sources = [];
}

abbrev pub server : VaultServer
server = record { name = "v"; namespace = "ns"; spec = spec }

validate_vault_server-IsAcceptable_example :
    (validate_vault_server kube server ≡ none) ↔ IsAcceptable kube server
validate_vault_server-IsAcceptable_example = validate_vault_server-IsAcceptable kube server

pub accepted : validate_vault_server kube server ≡ none
unfolding validate_vault_server validate_backend validate_unsealer count_blocks check_requirements
    validate_secret check_keys
accepted = refl

-- A threshold of no keys is refused.
refused :
    validate_vault_server kube (record server {
      spec = record (spec) { unsealer = some (record unsealing { secret_threshold = negsuc 0 }) };
    })
    ≡ some (message "spec.unsealer.secretThreshold must be greater than zero")
unfolding validate_vault_server validate_backend validate_unsealer count_blocks check_requirements
    validate_secret check_keys
refused = refl

accepted-IsChosen_example : (st : Storage) × IsChosen kube server st
accepted-IsChosen_example = accepted-IsChosen kube server accepted (λ claim. refl)

accepted-IsService_example :
    (r : Option (UnsealerSpec × Unsealer)) × (new_unsealer_service (some unsealing) none ≡ ok r)
    × IsService (some unsealing) r
accepted-IsService_example = accepted-IsService kube server accepted

abbrev on_consul : ConsulSpec
on_consul = record {
  address = "";
  check_timeout = "";
  consistency_mode = "";
  disable_registration = "";
  max_parallel = "";
  path = "";
  scheme = "";
  service = "";
  service_tags = "";
  service_address = "";
  acl_token_secret_name = "login";
  session_ttl = "";
  lock_wait_time = "";
  tls_secret_name = "";
  tls_min_version = "";
  tls_skip_verify = false;
}

named : on_consul.acl_token_secret_name ≢ ""
named p = ground (arith, (eq_iff "login" "").1 p)

storage_config-empty_iff_example :
    (storage_config kube "ns" (Storage.consul on_consul) ≡ ("", none))
    ↔ Keyless kube "ns" (Storage.consul on_consul)
storage_config-empty_iff_example = storage_config-empty_iff kube "ns" (Storage.consul on_consul)

-- The token secret of this storage has no key of the token.
empty_config : storage_config kube "ns" (Storage.consul on_consul) ≡ ("", none)
empty_config = storage_config-empty_iff_example.1 (named, login, refl, refl)

abbrev inmem_backend : BackendStorageSpec
inmem_backend = record mysql_backend { inmem = some InmemSpec.inmem_spec; mysql = none }

abbrev small : VaultServer
small = record server { spec = record (spec) { backend = inmem_backend; unsealer = none } }

abbrev is_inmem : BackendStorageSpec → Bool
is_inmem b =
    not (is_nil b.inmem)
    && (is_nil b.etcd
        && (is_nil b.gcs
            && (is_nil b.s3
                && (is_nil b.azure
                    && (is_nil b.postgresql
                        && (is_nil b.mysql
                            && (is_nil b.file
                                && (is_nil b.dynamodb && (is_nil b.swift && is_nil b.consul)))))))))

abbrev is_empty : {A : Type 0} → List A → Bool
is_empty [] = true
is_empty (x ∷ xs) = false

-- A small server of the given name.
abbrev is_small : VaultServer → Bool
is_small vs =
    vs.name == "v"
    && (vs.namespace == "ns"
        && (is_nil vs.spec.unsealer
            && (is_empty vs.spec.node_selector && is_inmem vs.spec.backend)))

-- A patch between small servers touches no key of a precondition; any other is refused.
abbrev strict : Patches
strict = record {
  create_strategic_patch = λ old new ps.
      if is_small old && is_small new then none else some (message "precondition failed");
  is_precondition_failed = λ e. true;
  create_json_patch = λ old new. ok "[]";
}

is_nil_lem : {A : Type 0} (o : Option A) → is_nil o ≡ true → o ≡ none
is_nil_lem none p = refl
is_nil_lem (some a) p = absurd (ground arith)

is_empty_lem : {A : Type 0} (xs : List A) → is_empty xs ≡ true → xs ≡ []
is_empty_lem [] p = refl
is_empty_lem (x ∷ xs) p = absurd (ground arith)

given_lem : (o : Option InmemSpec) → not (is_nil o) ≡ true → o ≡ some InmemSpec.inmem_spec
given_lem none p = absurd (ground arith)
given_lem (some InmemSpec.inmem_spec) p = refl

set_default_values_lem_example :
    let methods = (set_default_values server).spec.auth_methods in
    (has_method methods kubernetes_method ≡ true)
    × (methods ≡ (if has_method [] kubernetes_method then [] else kubernetes_method ∷ []))
    × (set_default_values (set_default_values server) ≡ set_default_values server)
set_default_values_lem_example = set_default_values_lem server

is_inmem_lem : (b : BackendStorageSpec) → is_inmem b ≡ true → b ≡ inmem_backend
is_inmem_lem b p = ground (
  arith,
  given_lem b.inmem,
  is_nil_lem b.etcd,
  is_nil_lem b.gcs,
  is_nil_lem b.s3,
  is_nil_lem b.azure,
  is_nil_lem b.postgresql,
  is_nil_lem b.mysql,
  is_nil_lem b.file,
  is_nil_lem b.dynamodb,
  is_nil_lem b.swift,
  is_nil_lem b.consul,
)

record IsSmall (vs : VaultServer) : Type 0 where
  name : vs.name ≡ "v"
  namespace : vs.namespace ≡ "ns"
  unsealer : vs.spec.unsealer ≡ none
  node_selector : vs.spec.node_selector ≡ []
  backend : vs.spec.backend ≡ inmem_backend

small_lem : (vs : VaultServer) → is_small vs ≡ true → IsSmall vs
small_lem vs p = record {
  name = ground (arith, eq_iff vs.name "v");
  namespace = ground (arith, eq_iff vs.namespace "ns");
  unsealer = is_nil_lem vs.spec.unsealer (ground arith);
  node_selector = is_empty_lem vs.spec.node_selector (ground arith);
  backend = is_inmem_lem vs.spec.backend (ground arith);
}

both-IsSmall :
    (old new : VaultServer) (ps : List Precondition)
    → strict.create_strategic_patch old new ps ≡ none
    → IsSmall old × IsSmall new
both-IsSmall old new ps p = (small_lem old (ground (arith, p)), small_lem new (ground (arith, p)))

unchanged :
    (old new : VaultServer) (ps : List Precondition)
    → IsSmall old
    → IsSmall new
    → AllUnchanged ps old new
unchanged old new [] a b = tt
unchanged old new (key_unchanged k ∷ ps) a b = (tt, unchanged old new ps a b)
unchanged old new (metadata_key_unchanged k ∷ ps) a b =
    ((λ _. a.name ∙ sym b.name, λ _. a.namespace ∙ sym b.namespace), unchanged old new ps a b)
unchanged old new (chain_key_unchanged k ∷ ps) a b = (
  (
    λ _. a.unsealer ∙ sym b.unsealer,
    λ _. a.backend ∙ sym b.backend,
    λ _. a.node_selector ∙ sym b.node_selector,
  ),
  unchanged old new ps a b,
)

strict-PatchLaw : PatchLaw strict
strict-PatchLaw = record {
  create_strategic_patch_lem =
      λ old new ps p. let (a, b) = both-IsSmall old new ps p in unchanged old new ps a b;
}

abbrev larger : VaultServer
larger = record small { spec = record (small.spec) { replicas = some (pos 3) } }

abbrev grown : AdmissionRequest
grown = record {
  operation = "UPDATE";
  sub_resource = "";
  group = "kubevault.com";
  kind = "VaultServer";
  object = ok larger;
  old_object = ok small;
}

grown-IsUpdate : IsUpdate small larger grown
grown-IsUpdate = record {
  operation = refl;
  sub_resource = refl;
  group = refl;
  kind = refl;
  object = refl;
  old_object = refl;
}

admitted : validator_admit kube strict true grown ≡ allowed
unfolding validator_admit validate_update validate_vault_server validate_backend count_blocks
    check_requirements
admitted = refl

validator_admit-IsKept_example : IsKept kube small larger
validator_admit-IsKept_example =
    validator_admit-IsKept kube strict true strict-PatchLaw small larger grown grown-IsUpdate
      admitted
