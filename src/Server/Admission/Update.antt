-- ===== src/Server/Admission/Update.antt =====
-- What holds of an update of a Vault server that the validator admits.
use vault_operator.Base.{
  ◌≡◌, refl, sym, ◌∙◌, if◌then◌else◌, not, Bool, true, false, Option, none, some, List, [], ◌∷◌,
  Error, ok, arith, eq_iff,
}
use vault_operator.Server.Spec.{VaultServer}
use vault_operator.Server.Validator.{Kube, validate_vault_server}
use vault_operator.Server.Validator.Acceptable.{IsAcceptable}
use vault_operator.Server.Validator.Accepted.{validate_vault_server-IsAcceptable}
use vault_operator.Server.Admission.{
  AdmissionRequest, AdmissionResponse, allowed, uninitialized, bad_request, forbidden,
  operation_update, server_group, resource_kind_vault_server, Precondition, key_unchanged,
  metadata_key_unchanged, chain_key_unchanged, precondition_funcs, Patches, validate_update,
  validator_admit,
}

-- What a precondition says of an old and a new object.
abbrev pub Unchanged : Precondition → VaultServer → VaultServer → Type 0
Unchanged (key_unchanged key) old new = Unit
Unchanged (metadata_key_unchanged key) old new =
    (key ≡ "name" → old.name ≡ new.name) × (key ≡ "namespace" → old.namespace ≡ new.namespace)
Unchanged (chain_key_unchanged key) old new =
    (key ≡ "spec.unsealer" → old.spec.unsealer ≡ new.spec.unsealer)
    × (key ≡ "spec.backend" → old.spec.backend ≡ new.spec.backend)
    × (key ≡ "spec.podTemplate.spec.nodeSelector" → old.spec.node_selector ≡ new.spec.node_selector)

abbrev pub AllUnchanged : List Precondition → VaultServer → VaultServer → Type 0
AllUnchanged [] old new = Unit
AllUnchanged (p ∷ ps) old new = Unchanged p old new × AllUnchanged ps old new

-- `CreateStrategicPatch` is documented to fail where the patch touches a key of a precondition.
pub record PatchLaw (patches : Patches) : Type 0 where
  pub create_strategic_patch_lem :
      (old new : VaultServer) (ps : List Precondition)
      → patches.create_strategic_patch old new ps ≡ none
      → AllUnchanged ps old new

-- An update of a Vault server that the webhook looks at.
pub record IsUpdate (old new : VaultServer) (req : AdmissionRequest) : Type 0 where
  pub operation : req.operation ≡ operation_update
  pub sub_resource : req.sub_resource ≡ ""
  pub group : req.group ≡ server_group
  pub kind : req.kind ≡ resource_kind_vault_server
  pub object : req.object ≡ ok new
  pub old_object : req.old_object ≡ ok old

-- What may not change, and what the new object is.
pub record IsKept (kube : Kube) (old new : VaultServer) : Type 0 where
  pub name : old.name ≡ new.name
  pub namespace : old.namespace ≡ new.namespace
  pub unsealer : old.spec.unsealer ≡ new.spec.unsealer
  pub backend : old.spec.backend ≡ new.spec.backend
  pub node_selector : old.spec.node_selector ≡ new.spec.node_selector
  pub acceptable : IsAcceptable kube new

-- The response is that of the changes and then of the new object.
abbrev response : Option Error → Option Error → AdmissionResponse
response (some e) r = bad_request e
response none (some e) = forbidden e
response none none = allowed

admit_lem :
    (kube : Kube) (patches : Patches) (initialized : Bool) (old new : VaultServer)
    (req : AdmissionRequest)
    → IsUpdate old new req
    → validator_admit kube patches initialized req ≡ (
        if not initialized
        then uninitialized
        else response (validate_update patches new old) (validate_vault_server kube new))
unfolding validator_admit
admit_lem kube patches initialized old new req u = ground (
  arith,
  u.operation,
  u.sub_resource,
  u.group,
  u.kind,
  u.object,
  u.old_object,
  eq_iff req.operation "UPDATE",
  eq_iff req.sub_resource "",
  eq_iff req.group "kubevault.com",
  eq_iff req.kind "VaultServer",
)

update_none :
    (patches : Patches) (old new : VaultServer)
    → validate_update patches new old ≡ none
    → patches.create_strategic_patch old new precondition_funcs ≡ none
unfolding validate_update
update_none patches old new h = ground arith

response_allowed :
    (i : Bool) (a b : Option Error)
    → (if not i then uninitialized else response a b) ≡ allowed
    → (a ≡ none) × (b ≡ none)
response_allowed true (some e) b h = cc
response_allowed true none (some e) h = cc
response_allowed true none none h = (refl, refl)
response_allowed false a b h = cc

-- An update that the validator admits leaves the name, the namespace, the unsealer, the backend and
-- the node selector of the server as they were, and the new object is acceptable.
pub validator_admit-IsKept :
    (kube : Kube) (patches : Patches) (initialized : Bool)
    → PatchLaw patches
    → (old new : VaultServer) (req : AdmissionRequest) → IsUpdate old new req
    → validator_admit kube patches initialized req ≡ allowed
    → IsKept kube old new
validator_admit-IsKept kube patches initialized law old new req u h =
    let a =
      response_allowed initialized (validate_update patches new old)
        (validate_vault_server kube new)
        (sym (admit_lem kube patches initialized old new req u) ∙ h) in
    let p =
      law.create_strategic_patch_lem old new precondition_funcs (update_none patches old new a.0) in
    let fields = p.1.1.1.1 in
    record {
      name = p.1.1.0.0 refl;
      namespace = p.1.1.1.0.1 refl;
      unsealer = fields.0.0 refl;
      backend = fields.1.0.1 refl;
      node_selector = fields.1.1.0.2 refl;
      acceptable = (validate_vault_server-IsAcceptable kube new).0 a.1;
    }
