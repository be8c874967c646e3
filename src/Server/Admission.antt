-- ===== src/Server/Admission.antt =====
-- The webhooks of Vault servers: `Admit` of pkg/admission/{vault_server_validator,
-- vault_server_mutator}.go. The objects are what the decoding of their JSON returns.
pub mod Update
pub mod Defaults
use vault_operator.Base.{
  String, Bool, true, false, not, ◌&&◌, ◌||◌, Option, none, some, List, [], ◌∷◌, ◌++◌, ◌==◌,
  if◌then◌else◌, Error, message, Result, ok, err,
}
use vault_operator.Server.AuthMethods.{AuthMethod}
use vault_operator.Server.Spec.{VaultServer}
use vault_operator.Server.Validator.{Kube, validate_vault_server}

pub record AdmissionRequest : Type 0 where
  pub operation : String
  pub sub_resource : String
  pub group : String
  pub kind : String
  pub object : Result VaultServer
  pub old_object : Result VaultServer

pub data AdmissionResponse : Type 0 where
  allowed uninitialized : AdmissionResponse
  bad_request forbidden internal_error : Error → AdmissionResponse
  -- Allowed, with a JSON patch.
  patched : String → AdmissionResponse

abbrev pub operation_create : String
operation_create = "CREATE"

abbrev pub operation_update : String
operation_update = "UPDATE"

abbrev pub operation_delete : String
operation_delete = "DELETE"

abbrev pub server_group : String
server_group = "kubevault.com"

abbrev pub resource_kind_vault_server : String
resource_kind_vault_server = "VaultServer"

-- The precondition functions of `mergepatch` and `meta_util`, by the keys that they look for.
pub data Precondition : Type 0 where
  key_unchanged metadata_key_unchanged chain_key_unchanged : String → Precondition

abbrev pub precondition_spec_fields : List String
precondition_spec_fields =
    "spec.unsealer" ∷ "spec.backend" ∷ "spec.podTemplate.spec.nodeSelector" ∷ []

-- The loop over the fields.
abbrev append_fields : List Precondition → List String → List Precondition
append_fields preconditions [] = preconditions
append_fields preconditions (field ∷ fields) =
    append_fields (preconditions ++ (chain_key_unchanged field ∷ [])) fields

abbrev pub precondition_funcs : List Precondition
precondition_funcs =
    append_fields
      (key_unchanged "apiVersion"
        ∷ key_unchanged "kind"
        ∷ metadata_key_unchanged "name"
        ∷ metadata_key_unchanged "namespace"
        ∷ [])
      precondition_spec_fields

-- `CreateStrategicPatch` of an old and a new object, whose patch is not looked at, and
-- `IsPreconditionFailed`.
pub record Patches : Type 0 where
  pub create_strategic_patch : VaultServer → VaultServer → List Precondition → Option Error
  pub is_precondition_failed : Error → Bool
  pub create_json_patch : VaultServer → VaultServer → Result String

unfoldable pub validate_update : Patches → VaultServer → VaultServer → Option Error
validate_update patches obj old_obj =
    elim (patches.create_strategic_patch old_obj obj precondition_funcs) [
      | none ↦ none
      | some e ↦ if patches.is_precondition_failed e then some (message "%v.%v") else some e
    ]

-- `Admit` of the validator, from the decoding on; only an update has an old object.
abbrev pub changes : Patches → AdmissionRequest → VaultServer → Option Error
changes patches req vs =
    if req.operation == operation_update
    then (elim req.old_object [ err e ↦ some e | ok old_vs ↦ validate_update patches vs old_vs ])
    else none

unfoldable pub validator_admit : Kube → Patches → Bool → AdmissionRequest → AdmissionResponse
validator_admit kube patches initialized req =
    if not (
        req.operation == operation_create
        || req.operation == operation_update
        || req.operation == operation_delete)
      || not (req.sub_resource == "")
      || not (req.group == server_group)
      || not (req.kind == resource_kind_vault_server)
    then allowed
    else if not initialized
    then uninitialized
    else if req.operation == operation_create || req.operation == operation_update
    then (elim req.object [
      | err e ↦ bad_request e
      | ok vs ↦ elim (changes patches req vs) [
        | some e ↦ bad_request e
        | none ↦ elim (validate_vault_server kube vs) [ some e ↦ forbidden e | none ↦ allowed ]
      ]
    ])
    else allowed

abbrev pub auth_type_kubernetes : String
auth_type_kubernetes = "kubernetes"

-- The loop over the methods, and what follows it.
abbrev pub has_method : List AuthMethod → AuthMethod → Bool
has_method [] new_auth = false
has_method (au ∷ auths) new_auth =
    (au.type == new_auth.type && au.path == new_auth.path) || has_method auths new_auth

unfoldable pub upsert_auth_methods : List AuthMethod → AuthMethod → List AuthMethod
upsert_auth_methods auths new_auth =
    if has_method auths new_auth then auths else auths ++ (new_auth ∷ [])

abbrev pub kubernetes_method : AuthMethod
kubernetes_method = record {
  type = auth_type_kubernetes;
  path = auth_type_kubernetes;
  description = "";
  config = none;
  plugin_name = "";
  local = false;
}

unfoldable pub set_default_values : VaultServer → VaultServer
unfolding upsert_auth_methods
set_default_values vs = record vs {
  spec = record (vs.spec) {
    auth_methods = upsert_auth_methods vs.spec.auth_methods kubernetes_method;
  };
}

-- `Admit` of the mutator.
unfoldable pub mutator_admit : Patches → Bool → AdmissionRequest → AdmissionResponse
unfolding set_default_values
mutator_admit patches initialized req =
    if not (req.operation == operation_create || req.operation == operation_update)
      || not (req.sub_resource == "")
      || not (req.group == server_group)
      || not (req.kind == resource_kind_vault_server)
    then allowed
    else if not initialized
    then uninitialized
    else (elim req.object [
      | err e ↦ bad_request e
      | ok vs ↦ elim (patches.create_json_patch vs (set_default_values vs)) [
        | err e ↦ internal_error e
        | ok patch ↦ patched patch
      ]
    ])
