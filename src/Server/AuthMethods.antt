-- ===== src/Server/AuthMethods.antt =====
-- The auth methods of a Vault server: `enableAuthMethods` and `disableAuthMethods` of
-- pkg/controller/auth_method.go. Vault and `filepath.Clean` are parameters.
pub mod Applied
pub mod Sequence
use vault_operator.Base.{
  ℕ, String, Bool, true, false, not, ◌&&◌, ◌||◌, Option, none, some, List, [], ◌∷◌, ◌++◌, ◌==◌,
  if◌then◌else◌, Result, ok, err, Error,
}
use vault_operator.Base.Act.{Act, pure, ◌>>=◌}
use Prim.Native.String

pub record AuthConfig : Type 0 where
  pub default_lease_ttl : String
  pub max_lease_ttl : String
  pub plugin_name : String
  pub audit_non_hmac_request_keys : List String
  pub audit_non_hmac_response_keys : List String
  pub listing_visibility : String
  pub passthrough_request_headers : List String

pub record AuthMethod : Type 0 where
  pub type : String
  pub path : String
  pub description : String
  pub config : Option AuthConfig
  pub plugin_name : String
  pub local : Bool

pub record AuthMethodStatus : Type 0 where
  pub type : String
  pub path : String
  pub status : String
  pub reason : String

abbrev pub enable_succeeded : String
enable_succeeded = "EnableSucceeded"

abbrev pub enable_failed : String
enable_failed = "EnableFailed"

abbrev pub disable_failed : String
disable_failed = "DisableFailed"

-- `EnableAuthOptions`; its config is that of the method, field by field.
pub record EnableOptions : Type 0 where
  pub type : String
  pub description : String
  pub config : Option AuthConfig
  pub plugin_name : String
  pub local : Bool

pub data Event : Type 0 where
  listed : Option Error → Event
  enabled : String → EnableOptions → Option Error → Event
  disabled : String → Option Error → Event

-- Each answer may depend on all that was called before. The list of the methods holds the types by
-- their paths, which end in `/`.
pub record Env : Type 0 where
  pub list_auth : List Event → Result (List (String × String))
  pub enable_auth : List Event → String → EnableOptions → Option Error
  pub disable_auth : List Event → String → Option Error
  pub clean : String → String
  pub error_text : Error → String

abbrev pub lookup : String → List (String × String) → Option String
lookup p [] = none
lookup p ((q, t) ∷ rest) = if q == p then some t else lookup p rest

abbrev pub options_of : AuthMethod → EnableOptions
options_of au = record {
  type = au.type;
  description = au.description;
  config = au.config;
  plugin_name = au.plugin_name;
  local = au.local;
}

abbrev pub status_with : AuthMethod → String → String → AuthMethodStatus
status_with au status reason = record {
  type = au.type;
  path = au.path;
  status = status;
  reason = reason;
}

module _ (env : Env) where
  -- The call of `EnableAuthWithOptions`.
  pub switch_on : AuthMethod → Act Event AuthMethodStatus
  switch_on au h =
      let e = env.enable_auth h au.path (options_of au) in
      (
        elim e [
          | none ↦ status_with au enable_succeeded ""
          | some x ↦ status_with au enable_failed (env.error_text x)
        ],
        enabled au.path (options_of au) e ∷ h,
      )

  -- A path that is taken: by a method of this type or of another one.
  pub taken : AuthMethod → String → AuthMethodStatus
  taken au got =
      if not (got == au.type)
      then status_with au enable_failed (String.◌++◌ got " type auth already enabled in this path")
      else status_with au enable_succeeded ""

  pub enable_one : List (String × String) → AuthMethod → Act Event AuthMethodStatus
  enable_one auth_list au = elim (lookup (String.◌++◌ (env.clean au.path) "/") auth_list) [
    | some got ↦ pure (taken au got)
    | none ↦ switch_on au
  ]

  -- The loop over the methods.
  pub enable_each : List (String × String) → List AuthMethod → Act Event (List AuthMethodStatus)
  enable_each auth_list [] = pure []
  enable_each auth_list (au ∷ auths) = do
    s ← enable_one auth_list au
    rest ← enable_each auth_list auths
    pure (s ∷ rest)

  unfoldable pub enable_auth_methods : List AuthMethod → Act Event (Result (List AuthMethodStatus))
  enable_auth_methods auths h = elim (env.list_auth h) [
    | err e ↦ (err e, listed (some e) ∷ h)
    | ok auth_list ↦ let (resp, h') = enable_each auth_list auths (listed none ∷ h) in (ok resp, h')
  ]

  -- `authMap`, whose keys are the clean paths of the methods that are expected.
  abbrev pub is_expected : List AuthMethod → String → Bool
  is_expected [] p = false
  is_expected (au ∷ auths) p = env.clean au.path == p || is_expected auths p

  pub switch_off : AuthMethodStatus → Act Event (List AuthMethodStatus)
  switch_off au h =
      let p = env.clean au.path in
      let e = env.disable_auth h p in
      (
        elim e [
          | none ↦ []
          | some x ↦
              record {
                type = au.type;
                path = au.path;
                status = disable_failed;
                reason = env.error_text x;
              }
              ∷ []
        ],
        disabled p e ∷ h,
      )

  abbrev pub is_left_over : List AuthMethod → AuthMethodStatus → Bool
  is_left_over expected au =
      not (is_expected expected (env.clean au.path)) && au.status == enable_succeeded

  pub disable_auth_methods :
      List AuthMethod → List AuthMethodStatus → Act Event (List AuthMethodStatus)
  disable_auth_methods expected [] = pure []
  disable_auth_methods expected (au ∷ has) = do
    failed ← if is_left_over expected au then switch_off au else pure []
    rest ← disable_auth_methods expected has
    pure (failed ++ rest)
