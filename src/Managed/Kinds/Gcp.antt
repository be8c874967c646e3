-- ===== src/Managed/Kinds/Gcp.antt =====
-- The controller of GCPRole objects: pkg/controller/gcp_role.go.
use vault_operator.Base.{String, Option, Error}
use vault_operator.Base.Act.{Act}
use vault_operator.Meta.{Object, Vendor}
use vault_operator.Managed.World.{ManagedStatus, Event, Env}
use vault_operator.Managed.Role
use vault_operator.Managed.Role.{gcp}

module _ {Spec : Type 0} where
  abbrev pub run_gcp_role_injector : Vendor → Env Spec → String → Act (Event Spec) (Option Error)
  run_gcp_role_injector = Role.run_injector gcp

  abbrev pub reconcile_gcp_role :
      Vendor → Env Spec → Object Spec ManagedStatus → Act (Event Spec) (Option Error)
  reconcile_gcp_role = Role.reconcile gcp

  abbrev pub run_gcp_role_finalizer :
      Vendor → Env Spec → Object Spec ManagedStatus → Act (Event Spec) (Option Error)
  run_gcp_role_finalizer = Role.run_finalizer gcp
