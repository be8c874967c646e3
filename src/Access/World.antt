-- ===== src/Access/World.antt =====
-- What a run of an access-request controller does outside itself: the calls with their answers,
-- and the systems that answer (the API server, Vault behind the credential manager, the clock).
use vault_operator.Base.{ℕ, String, Option, none, some, List, ◌∷◌, Error, Fallible, Result, ok, err}
use vault_operator.Base.Act.{Act}
use vault_operator.PatchUtil.{Client, Poller, TryState, UpdateState}
use vault_operator.Access.Request.{Request, RequestSpec, RequestStatus, Subject, Credential}

-- A call that was made, with the error that it returned.
pub data Event : Type 0 where
  got : String → String → Option Error → Event
  wrote : Request → Option Error → Event
  wrote_status : Request → Option Error → Event
  sent_patch : String → String → Option Error → Event
  made_manager : Option Error → Event
  issued : Result Credential → Event
  made_secret : String → String → Credential → Option Error → Event
  made_role : String → String → String → Option Error → Event
  bound_role : String → String → String → List Subject → Option Error → Event
  revoked : String → Option Error → Event
  deleted_secret : String → String → Option Error → Event

-- The interface of pkg/vault/credential/interface.go, as far as the controllers call it.
pub record CredentialManager : Type 0 where
  pub get_credential : Act Event (Result Credential)
  pub create_secret : String → String → Credential → Act Event (Option Error)
  pub create_role : String → String → String → Act Event (Option Error)
  pub create_role_binding : String → String → String → List Subject → Act Event (Option Error)
  pub revoke_lease : String → Act Event (Option Error)

-- The outside systems. Each answer may depend on all that was called before.
pub record Env : Type 0 where
  pub get_by_key : List Event → String → Result (Option Request)
  pub get : List Event → String → String → Fallible Request
  pub create : List Event → Request → Fallible Request
  pub update : List Event → Request → Fallible Request
  pub update_status : List Event → Request → Fallible Request
  pub patch : List Event → String → String → String → Fallible Request
  pub marshal : Request → Result String
  pub create_merge_patch : String → String → Result String
  pub zero_spec : RequestSpec
  pub zero_status : RequestStatus
  pub tries : Poller (TryState Event RequestSpec RequestStatus)
  pub updates : Poller (UpdateState Event RequestSpec RequestStatus)
  pub new_manager : List Event → Request → Option Error
  pub get_credential : List Event → Result Credential
  pub create_secret : List Event → String → String → Credential → Option Error
  pub create_role : List Event → String → String → String → Option Error
  pub create_role_binding : List Event → String → String → String → List Subject → Option Error
  pub revoke_lease : List Event → String → Option Error
  pub delete_secret : List Event → String → String → Option Error
  pub now : List Event → ℕ
  pub uniq_suffix : List Event → String → String

abbrev pub client : Env → Client Event RequestSpec RequestStatus
client env = record {
  get = λ ns n h. let r = env.get h ns n in (r, got ns n r.1 ∷ h);
  create = λ ns o h. let r = env.create h o in (r, wrote o r.1 ∷ h);
  update = λ ns o h. let r = env.update h o in (r, wrote o r.1 ∷ h);
  update_status = λ ns o h. let r = env.update_status h o in (r, wrote_status o r.1 ∷ h);
  patch = λ ns n p h. let r = env.patch h ns n p in (r, sent_patch n p r.1 ∷ h);
  marshal = env.marshal;
  create_merge_patch = env.create_merge_patch;
  zero_spec = env.zero_spec;
  zero_status = env.zero_status;
}

abbrev pub manager : Env → CredentialManager
manager env = record {
  get_credential = λ h. let r = env.get_credential h in (r, issued r ∷ h);
  create_secret = λ name ns cred h.
      let e = env.create_secret h name ns cred in (e, made_secret name ns cred e ∷ h);
  create_role = λ name ns secret h.
      let e = env.create_role h name ns secret in (e, made_role name ns secret e ∷ h);
  create_role_binding = λ name ns role subjects h.
      let e = env.create_role_binding h name ns role subjects in
      (e, bound_role name ns role subjects e ∷ h);
  revoke_lease = λ id h. let e = env.revoke_lease h id in (e, revoked id e ∷ h);
}

-- `NewCredentialManagerFor…` of pkg/vault/credential/factory.go.
abbrev pub new_manager : Env → Request → Act Event (Result CredentialManager)
new_manager env req h =
    let e = env.new_manager h req in
    (elim e [ none ↦ ok (manager env) | some e' ↦ err e' ], made_manager e ∷ h)

abbrev pub delete_secret : Env → String → String → Act Event (Option Error)
delete_secret env ns name h =
    let e = env.delete_secret h ns name in (e, deleted_secret ns name e ∷ h)
