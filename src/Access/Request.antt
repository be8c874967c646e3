-- ===== src/Access/Request.antt =====
-- The access requests of the four kinds (apis/engine/v1alpha1/*_access_request_types.go, type.go)
-- and the Vault secret that is issued for one. Of a spec the fields of every kind are kept.
pub mod Decision
use vault_operator.Base.{
  ℕ, ◌*◌, ◌%◌, ◌^◌, String, Bool, true, false, Option, List, [], ◌∷◌, ◌==◌, ◌&&◌, ◌||◌,
  if◌then◌else◌, is_nil,
}
use vault_operator.Meta.{
  Object, Condition, Conditions, items, condition_failed, condition_true,
  condition_request_approved, condition_request_denied,
}

pub data Kind : Type 0 where
  database aws azure gcp : Kind

abbrev pub resource_kind : Kind → String
resource_kind database = "DatabaseAccessRequest"
resource_kind aws = "AWSAccessKeyRequest"
resource_kind azure = "AzureAccessKeyRequest"
resource_kind gcp = "GCPAccessKeyRequest"

pub record RoleRef : Type 0 where
  pub api_group : String
  pub kind : String
  pub name : String
  pub namespace : String

pub record Subject : Type 0 where
  pub kind : String
  pub name : String
  pub namespace : String

pub record RequestSpec : Type 0 where
  pub role_ref : RoleRef
  pub subjects : List Subject
  pub ttl : String

-- `duration` is an int64 of nanoseconds, kept as its bit pattern.
pub record Lease : Type 0 where
  pub id : String
  pub duration : ℕ
  pub renewable : Bool

pub record RequestStatus : Type 0 where
  pub phase : String
  pub conditions : Conditions
  pub secret : Option String
  pub lease : Option Lease
  pub observed_generation : ℕ

abbrev pub Request : Type 0
Request = Object RequestSpec RequestStatus

abbrev pub phase_waiting_for_approval : String
phase_waiting_for_approval = "WaitingForApproval"

-- The fields of `vaultapi.Secret` that the controllers read. `lease_duration` is a bit pattern too.
pub record Credential : Type 0 where
  pub lease_id : String
  pub lease_duration : ℕ
  pub renewable : Bool

-- `time.Second * time.Duration(n)`, which wraps around.
abbrev pub seconds : ℕ → ℕ
seconds n = (1000000000 * n) % 2 ^ 64

abbrev pub lease_of : Credential → Lease
lease_of cred = record {
  id = cred.lease_id;
  duration = seconds cred.lease_duration;
  renewable = cred.renewable;
}

-- The loop over the conditions: the last decision wins.
unfoldable pub is_decision : Condition → Bool
is_decision c =
    (c.type == condition_request_approved && c.status == condition_true)
    || (c.type == condition_request_denied && c.status == condition_true)

unfoldable pub decide_from : String → List Condition → String
unfolding is_decision
decide_from t [] = t
decide_from t (c ∷ cs) = decide_from (if is_decision c then c.type else t) cs

unfoldable pub condition_type : Request → String
unfolding decide_from
condition_type req = decide_from "" (items req.status.conditions)

abbrev pub no_failed : List Condition → Bool
no_failed [] = true
no_failed (c ∷ cs) = if c.type == condition_failed then false else no_failed cs

unfoldable pub successfully_processed : Request → Bool
successfully_processed req =
    if is_nil req.status.conditions || is_nil req.status.secret
    then false
    else no_failed (items req.status.conditions)
