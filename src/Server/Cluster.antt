-- ===== src/Server/Cluster.antt =====
-- What a run of the controller of Vault servers does outside itself. A call of a vendored
-- create-or-patch helper, of a monitoring agent or of the API server is a `Call`; its answer may
-- depend on all that was called before.
use vault_operator.Base.{
  ℕ, String, refl, Bool, Option, none, some, List, [], ◌∷◌, Error, Fallible, Result,
}
use vault_operator.Base.Act.{Act}
use vault_operator.Meta.{Object}
use vault_operator.PatchUtil.{Client, Poller, UpdateState}
use vault_operator.PatchUtil.Silent.{IsSilent}
use vault_operator.Server.Spec.{ServerSpec}
use vault_operator.Server.Health.{ServerStatus}
use vault_operator.Server.Validator.{Kube}

abbrev pub Server : Type 0
Server = Object ServerSpec ServerStatus

-- The name of an object, and for a config map and an app binding the data that are written.
pub data Call : Type 0 where
  ensure_secret : String → Call
  ensure_config_map : String → String → Call
  ensure_service_account : String → Call
  ensure_service : String → Call
  ensure_role : String → Call
  ensure_role_binding : String → Call
  ensure_cluster_role_binding : String → Call
  apply_pod_template : Call
  ensure_deployment : String → Call
  ensure_stats_service : String → Call
  delete_stats_service : String → Call
  delete_agent : String → Call
  create_or_update_agent : String → Call
  annotate_service : String → Call
  ensure_app_binding : String → Option String → Call

-- A call that was made, with the error that it returned.
pub data Event : Type 0 where
  got : String → String → Option Error → Event
  wrote : Server → Option Error → Event
  wrote_status : Server → Option Error → Event
  sent_patch : String → String → Option Error → Event
  called : Call → Option Error → Event

pub record Env : Type 0 where
  pub get_by_key : List Event → String → Result (Option Server)
  pub get : List Event → String → String → Fallible Server
  pub create : List Event → Server → Fallible Server
  pub update : List Event → Server → Fallible Server
  pub update_status : List Event → Server → Fallible Server
  pub patch : List Event → String → String → String → Fallible Server
  pub marshal : Server → Result String
  pub create_merge_patch : String → String → Result String
  pub zero_spec : ServerSpec
  pub zero_status : ServerStatus
  pub updates : Poller (UpdateState Event ServerSpec ServerStatus)
  pub call : List Event → Call → Option Error
  -- What is read: secrets and versions, the client of the cluster, a new certificate authority, and
  -- the agent that the annotation of the stats service names.
  pub kube : List Event → Kube
  pub new_for_config : List Event → Option Error
  pub new_certificates : List Event → Result String
  pub agent_annotation : List Event → Result String
  pub is_agent : String → Bool
  pub now : List Event → ℕ

abbrev pub client : Env → Client Event ServerSpec ServerStatus
client env = record {
  get = λ ns n h. let r = env.get h ns n in (r, got ns n r.1 ∷ h);
  create = λ ns o h. let r = env.create h o in (r, wrote o r.1 ∷ h);
  update = λ ns o h. let r = env.update h o in (r, wrote o r.1 ∷ h);
  update_status = λ ns o h. let r = env.update_status h o in (r, wrote_status o r.1 ∷ h);
  patch = λ ns n p h. let r = env.patch h ns n p in (r, sent_patch n p r.1 ∷ h);
  marshal = env.marshal;
  create_merge_patch = env.create_merge_patch;
  zero_spec = env.zero_spec;
  zero_status = env.zero_status;
}

-- What a function that returns an `error` comes to: it may also panic on a nil pointer.
pub data Outcome : Type 0 where
  returned : Option Error → Outcome
  panicked : Outcome

abbrev pub perform : Env → Call → Act Event (Option Error)
perform env c h = let e = env.call h c in (e, called c e ∷ h)

-- A call, and what follows if it succeeds; the error of a failed one is returned with its context.
abbrev pub attempt : Env → (Error → Error) → Call → Act Event Outcome → Act Event Outcome
attempt env context c rest h =
    let e = env.call h c in
    elim e [
      | some x ↦ (returned (some (context x)), called c (some x) ∷ h)
      | none ↦ rest (called c none ∷ h)
    ]

abbrev pub plain : Error → Error
plain e = e

-- The calls in a trace, newest first.
abbrev pub calls : List Event → List (Call × Option Error)
calls [] = []
calls (got _ _ _ ∷ h) = calls h
calls (wrote _ _ ∷ h) = calls h
calls (wrote_status _ _ ∷ h) = calls h
calls (sent_patch _ _ _ ∷ h) = calls h
calls (called c e ∷ h) = (c, e) ∷ calls h

pub calls-IsSilent : (env : Env) → IsSilent calls (client env)
calls-IsSilent env = record {
  get = λ _ _ _. refl;
  update_status = λ _ _ _. refl;
  patch = λ _ _ _ _. refl;
}
