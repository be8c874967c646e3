-- ===== src/Access/Admission.antt =====
-- The admission webhooks of access requests: pkg/admission/{database_access_request,
-- aws_access_key_request, azure_access_key_request, gcp_access_key_request}_validator.go, one text
-- for all four. `meta_util.Diff` is the parameter `diff`.
pub mod Frozen
use vault_operator.Base.{
  String, Bool, true, false, not, ◌||◌, List, [], ◌∷◌, ◌==◌, if◌then◌else◌, Error, message, Result,
  ok, err,
}
use vault_operator.Meta.{Condition, items, condition_request_approved, condition_request_denied}
use vault_operator.Access.Request.{Kind, resource_kind, Request, RequestSpec}

-- The objects are what the decoding of their JSON returns.
pub record AdmissionRequest : Type 0 where
  pub operation : String
  pub sub_resource : String
  pub group : String
  pub kind : String
  pub object : Result Request
  pub old_object : Result Request

pub data AdmissionResponse : Type 0 where
  allowed uninitialized : AdmissionResponse
  bad_request : Error → AdmissionResponse

abbrev pub operation_update : String
operation_update = "UPDATE"

abbrev pub engine_group : String
engine_group = "engine.kubevault.com"

-- The loop over the conditions; their status is not looked at.
unfoldable pub is_approved_or_denied : List Condition → Bool
is_approved_or_denied [] = false
is_approved_or_denied (c ∷ cs) =
    if c.type == condition_request_approved || c.type == condition_request_denied
    then true
    else is_approved_or_denied cs

module _ (k : Kind) (diff : RequestSpec → RequestSpec → String) where
  unfoldable pub validate : Request → Request → AdmissionResponse
  validate old new =
      if is_approved_or_denied (items new.status.conditions)
      then (if not (diff old.spec new.spec == "")
          then bad_request
              (message "once request is approved or denied, .spec can not be changed. Diff: %s")
          else allowed)
      else allowed

  -- `Admit`, where `initialized` is the field of the webhook.
  unfoldable pub admit : Bool → AdmissionRequest → AdmissionResponse
  admit initialized req =
      if not (req.operation == operation_update)
        || not (req.sub_resource == "")
        || not (req.group == engine_group)
        || not (req.kind == resource_kind k)
      then allowed
      else if not initialized
      then uninitialized
      else (elim req.object [
        | err e ↦ bad_request e
        | ok new ↦ elim req.old_object [ err e ↦ bad_request e | ok old ↦ validate old new ]
      ])
