-- ===== src/Server/AuthMethods/Sequence.antt =====
-- The goroutine that applies the auth methods of a Vault server: `reconcileAuthMethods` of
-- pkg/controller/auth_method.go with its three waits. Vault, the API server and `wait.PollUntil`
-- are parameters; `newVaultClientForAuthMethodController` is one call.
pub mod Prepared
use vault_operator.Base.{
  ℕ, String, ◌≡◌, Option, none, some, List, [], ◌∷◌, ◌++◌, ◌==◌, if◌then◌else◌, Error, wrap_error,
  Result, ok, err,
}
use vault_operator.Base.Act.{Act, pure, ◌>>=◌}
use vault_operator.Meta.{Vendor}
use vault_operator.PatchUtil.{Polled, done, again, stop, attempts}
use vault_operator.Server.AuthMethods.{
  AuthMethod, AuthMethodStatus, Event, Env, enable_auth_methods, disable_auth_methods,
}

-- What is read of a Vault server.
pub record Server : Type 0 where
  pub name : String
  pub namespace : String
  pub phase : String
  pub auth_methods : List AuthMethod
  pub auth_method_status : List AuthMethodStatus

-- A call that was made, with its answer. A policy and a binding are known by their phase.
pub data Call : Type 0 where
  got_server : String → String → Result Server → Call
  ensured_policy : String → String → Option Error → Call
  got_policy : String → String → Result String → Call
  ensured_binding : String → String → Option Error → Call
  got_binding : String → String → Result String → Call
  made_client : Option Error → Call
  told : Event → Call
  wrote_status : List AuthMethodStatus → Option Error → Call

-- `wait.PollUntil` over what its condition function can change: it tries the condition at every
-- tick until it returns true or an error or the channel is closed.
pub record Ticker (S : Type 0) : Type 0 where
  pub poll_until : (S → Polled × S) → S → Option Error × S
  pub ticks : (S → Polled × S) → S → ℕ
  pub poll_until_lem :
      (condition : S → Polled × S) (s : S)
      → poll_until condition s ≡ attempts (ticks condition s) condition s

-- The outside systems. Each answer may depend on all that was called before.
pub record World : Type 0 where
  pub servers : Ticker (Server × List Call)
  pub phases : Ticker (String × List Call)
  pub get_server : List Call → String → String → Result Server
  pub ensure_policy : List Call → String → String → Option Error
  pub get_policy : List Call → String → String → Result String
  pub ensure_binding : List Call → String → String → Option Error
  pub get_binding : List Call → String → String → Result String
  pub new_client : List Call → Option Error
  pub vault : List Call → Env
  pub update_status : List Call → List AuthMethodStatus → Option Error

-- `ClusterPhaseRunning`.
abbrev pub running : String
running = "Running"

-- `PolicySuccess` and `PolicyBindingSuccess`.
abbrev pub success : String
success = "Success"

module _ {A : Type 0} (get : List Call → Result A) (phase : A → String) (wanted : String)
    (call : Result A → Call) where
  -- The closure of a wait, over the object and the calls. The object that `Get` returns has the name
  -- that was asked for, so that each round asks for the same one.
  unfoldable pub wait_round : A × List Call → Polled × (A × List Call)
  wait_round (a, h) = elim (get h) [
    | err e ↦ (stop e, (a, call (err e) ∷ h))
    | ok b ↦ ((if phase b == wanted then done else again), (b, call (ok b) ∷ h))
  ]

module _ {A : Type 0} where
  -- A wait that ends with an error ends the run.
  abbrev pub after :
      Option Error × (A × List Call) → (A → Act Call (Option Error)) → Option Error × List Call
  after (some e, (a, h)) next = (some e, h)
  after (none, (a, h)) next = next a h

-- The calls of Vault, on a trace of their own, are put into the trace of the run.
abbrev pub told_all : List Event → List Call → List Call
told_all [] h = h
told_all (e ∷ es) h = told e ∷ told_all es h

module _ (w : World) (name_with_suffix : String → String → String) where
  abbrev pub policy_name : Server → String
  policy_name vs = name_with_suffix vs.name "auth-method-controller"

  abbrev pub server_round : Server → Server × List Call → Polled × (Server × List Call)
  server_round vs =
      wait_round (λ h. w.get_server h vs.namespace vs.name) (λ s. s.phase) running
        (got_server vs.namespace vs.name)

  abbrev pub policy_round : Server → String × List Call → Polled × (String × List Call)
  policy_round vs =
      wait_round (λ h. w.get_policy h vs.namespace (policy_name vs)) (λ p. p) success
        (got_policy vs.namespace (policy_name vs))

  abbrev pub binding_round : Server → String × List Call → Polled × (String × List Call)
  binding_round vs =
      wait_round (λ h. w.get_binding h vs.namespace (policy_name vs)) (λ p. p) success
        (got_binding vs.namespace (policy_name vs))

  -- The statuses of the methods that are enabled and of those that could not be disabled.
  abbrev pub write_status : List AuthMethodStatus → Act Call (Option Error)
  write_status auth_status h =
      let e = w.update_status h auth_status in (e, wrote_status auth_status e ∷ h)

  -- From the listing of the methods on.
  unfoldable pub apply_methods : Server → Act Call (Option Error)
  apply_methods vs h =
      let env = w.vault h in
      let (enabled, es) = enable_auth_methods env vs.auth_methods [] in
      elim enabled [
        | err e ↦ (some e, told_all es h)
        | ok auth_status ↦
            let (failed, es') = disable_auth_methods env vs.auth_methods vs.auth_method_status es in
            write_status (auth_status ++ failed) (told_all es' h)
      ]

  unfoldable pub with_client : Server → Act Call (Option Error)
  with_client vs h = elim (w.new_client h) [
    | some e ↦ (some e, made_client (some e) ∷ h)
    | none ↦ apply_methods vs (made_client none ∷ h)
  ]

  unfoldable pub with_binding : Server → Act Call (Option Error)
  with_binding vs h = elim (w.ensure_binding h vs.namespace (policy_name vs)) [
    | some e ↦ (some e, ensured_binding vs.namespace (policy_name vs) (some e) ∷ h)
    | none ↦
        after
          (w.phases.poll_until (binding_round vs)
            ("", ensured_binding vs.namespace (policy_name vs) none ∷ h))
          (λ _. with_client vs)
  ]

  unfoldable pub with_policy : Server → Act Call (Option Error)
  with_policy vs h = elim (w.ensure_policy h vs.namespace (policy_name vs)) [
    | some e ↦ (some e, ensured_policy vs.namespace (policy_name vs) (some e) ∷ h)
    | none ↦
        after
          (w.phases.poll_until (policy_round vs)
            ("", ensured_policy vs.namespace (policy_name vs) none ∷ h))
          (λ _. with_binding vs)
  ]

  -- `reconcileAuthMethods`; the error is only logged.
  unfoldable pub reconcile_auth_methods : Server → Act Call (Option Error)
  reconcile_auth_methods vs h = after (w.servers.poll_until (server_round vs) (vs, h)) with_policy
