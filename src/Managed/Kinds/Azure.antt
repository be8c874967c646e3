-- ===== src/Managed/Kinds/Azure.antt =====
-- The controller of AzureRole objects: pkg/controller/azure_role.go.
use vault_operator.Base.{String, Option, Error}
use vault_operator.Base.Act.{Act}
use vault_operator.Meta.{Object, Vendor}
use vault_operator.Managed.World.{ManagedStatus, Event, Env}
use vault_operator.Managed.Role
use vault_operator.Managed.Role.{azure}

module _ {Spec : Type 0} where
  abbrev pub run_azure_role_injector : Vendor → Env Spec → String → Act (Event Spec) (Option Error)
  run_azure_role_injector = Role.run_injector azure

  abbrev pub reconcile_azure_role :
      Vendor → Env Spec → Object Spec ManagedStatus → Act (Event Spec) (Option Error)
  reconcile_azure_role = Role.reconcile azure

  abbrev pub run_azure_role_finalizer :
      Vendor → Env Spec → Object Spec ManagedStatus → Act (Event Spec) (Option Error)
  run_azure_role_finalizer = Role.run_finalizer azure
