-- ===== src/Lib.antt =====
-- KubeVault operator: what its controllers do to Vault servers, access requests, Vault roles, secret
-- engines, policies and policy bindings, which Vault servers its webhooks accept, and how a status is
-- written.
--
-- The operator is a set of controllers. Each has a queue of keys; a worker takes a key and runs the
-- controller's injector on it (`run…Injector`), which reads the object from the informer's store,
-- adds a finalizer, makes a client of Vault, reconciles, writes the outcome into the conditions of
-- the status, and takes the finalizer off an object that is being deleted only after the clean-up.
-- A run that returns an error is tried again. All writes of a status go through the patch
-- utilities, which retry.
--
-- The parts, the files that model them and the code:
--   * Base, Base.Act: errors as values; an action `Act E A` reads the trace of the calls made so
--     far, newest first, and returns its value with the longer trace. The state of a run is this
--     trace: an outside system answers by a function of it, so that every behaviour over time is
--     covered.
--   * Meta: metadata, conditions and the record `Vendor` of the helpers the operator calls
--     (vendor/kmodules.xyz/client-go and k8s.io), with what they are documented to do as the laws
--     `AggregateLaw` and `ConditionLaws`. `finalizer` is `Finalizer` of apis/constants.go.
--   * PatchUtil: client/clientset/versioned/typed/{engine, policy, kubevault}/v1alpha1/util/*.go.
--     `create_or_patch`, `patch`, `patch_object`, `try_update` and `update_status` are the
--     functions `CreateOrPatchX`, `PatchX`, `PatchXObject`, `TryUpdateX` and `UpdateXStatus`, and
--     `try_patch` is `TryPatchX` of policy/v1alpha1/util. One round of a retry loop is
--     `…_round`, over the variables that the closure of the source changes.
--   * Access.Request, Access.World, Access.Controller: pkg/controller/{db_access_request,
--     aws_access_key_request, azure_access_key_request, gcp_access_key_request,
--     access_key_request}.go with their types in apis/engine/v1alpha1. `run_injector` is
--     `run…Injector`, split where the source branches: `handle`, `serve`, `serve_approved`,
--     `roll_back`. `reconcile` is `reconcile…`, split at its steps: `store_credential`,
--     `undo_credential`, `publish`, `grant`, `bind_role`, `finish`. Access.Kinds has the functions of
--     each of the four files.
--   * Access.Admission: the webhooks of pkg/admission/{database_access_request,
--     aws_access_key_request, azure_access_key_request, gcp_access_key_request}_validator.go, which
--     keep the spec of a request that the controller may already have served.
--   * Managed.World, Managed.Role: pkg/controller/{mysql, mongodb, postgres, aws, azure,
--     gcp}_role.go; Managed.Kinds has the functions of each of the six files.
--   * Managed.Engine: pkg/controller/secret_engine.go.
--   * Managed.Policy, Managed.Binding: pkg/controller/{vault_policy, vault_policy_binding}.go and the
--     names of apis/policy/v1alpha1/{vaultpolicy, vaultpolicybinding}_helpers.go.
--   * Managed.Binding.Client: pkg/vault/policybinding/policy_binding.go, the client behind the
--     controller of policy bindings, with the login and the requests as parameters.
--   * Managed.Plan: what it means that the calls of Vault follow a plan.
--   * Server.Health: `updateLocalVaultCRStatus` and `updateVaultCRStatus` of
--     pkg/controller/vault_status.go; the health of a pod is a parameter.
--   * Server.AuthMethods: `enableAuthMethods` and `disableAuthMethods` of
--     pkg/controller/auth_method.go, over calls of Vault;
--     Server.AuthMethods.Sequence is `reconcileAuthMethods`, in which each of the three waits is the
--     record `Ticker` (`wait.PollUntil`).
--   * Server.Spec, Server.Validator, Server.Admission: the spec of a Vault server
--     (apis/kubevault/v1alpha1/vaultserver_types.go) and the webhooks of
--     pkg/admission/{vault_server_validator, vault_server_mutator}.go. The blocks of
--     `ValidateVaultServer` for the backends and the modes are a list of `Block`s, each with the
--     secrets that it names, over which the counter runs. Server.Validator.Acceptable says by fields
--     of the spec which servers are meant to be accepted.
--   * Server.Storage, Server.Unsealer: `NewStorage`, `NewOptions` and `GetStorageConfig` of
--     pkg/vault/storage and `NewUnsealerService` of pkg/vault/unsealer/unsealer.go.
--   * Server.Pod: what is put into the pods of a Vault server: `GetContainer`, `GetPodTemplate` and
--     `Apply` of pkg/controller/vault.go and the `Apply` of pkg/vault/{storage, unsealer, exporter}.
--     `Applied` is the template, an error, or a panic where the first container is used and there
--     is none. The upserts of vendor/kmodules.xyz/client-go/core/v1 are the record `CoreUtil`, with
--     the laws `CoreUtilLaws`. Server.Pod.Token is pkg/util/util.go, the poll for the token secret of
--     the reviewer's service account: the account may change from look to look, the secrets stand
--     still.
--   * Server.Cluster, Server.Deploy, Server.Monitoring, Server.Controller:
--     pkg/controller/{vaultservers, vault, monitor, appbinding}.go. A call of the cluster is a `Call`
--     in the trace with its error; `provision` is `reconcileVault` up to the goroutines, and
--     `run_injector` is `runVaultServerInjector`. A nil pointer that is used is the outcome
--     `panicked`.
--   * Server.Routines: the maps `ctxCancels` and `authMethodCtx` of the controller with the
--     goroutines that they belong to; `Step` is the state machine of all that starts or stops one.
--   * Base.Int, Base.Assoc: the integers of the specs and maps as association lists.
--   * Tests: concrete systems, on which the theorems are applied.
--
-- Bounds. `wait.PollImmediate` is the record `Poller`: it runs the closure at once and then as
-- many times as the clock allows, a number that is a parameter (`rounds`), at least one round in
-- all; no fuel can run out, since a poll that times out returns an error. `wait.PollUntil` is the
-- record `Ticker`, whose number of ticks before the channel is closed is a parameter and may be
-- none. There are no other loops but those over lists and the digits of a number (`decimal`, whose
-- fuel is one more than the number, and each digit takes one). The map of contexts is used one
-- step at a time, in any order. A lease's duration is an int64 of nanoseconds, whose wrap-around
-- is kept (`seconds`). Of a formatted text the format is kept. The clock is read once for a status
-- update, also where the update is tried again.
--
-- Not modelled: the server with its flags and queues (cmd, pkg/cmds, pkg/server); of a pod
-- template the images, ports, probes, resources, security contexts and labels, and the labels of
-- the objects that are written. In a run of the controller the pod template is filled by one call;
-- the loop of the status monitor, what the policy and the binding for the auth methods hold, and
-- that two goroutines can use a map of contexts at the same time; the mutator of policy bindings;
-- the clients of Vault behind the interfaces that the controllers call (pkg/vault/{auth,
-- credential, engine, policy, role, secret}); generated code (client, zz_generated, openapi) and
-- vendored code. The clients of Vault and of Kubernetes are parameters of the model. The spec of a
-- resource is kept where a controller reads it.
pub mod Base
pub mod Meta
pub mod PatchUtil
pub mod Access
pub mod Managed
pub mod Server
mod Tests
