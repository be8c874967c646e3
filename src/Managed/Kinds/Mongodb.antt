-- ===== src/Managed/Kinds/Mongodb.antt =====
-- The controller of MongoDBRole objects: pkg/controller/mongodb_role.go.
use vault_operator.Base.{String, Option, Error}
use vault_operator.Base.Act.{Act}
use vault_operator.Meta.{Object, Vendor}
use vault_operator.Managed.World.{ManagedStatus, Event, Env}
use vault_operator.Managed.Role
use vault_operator.Managed.Role.{mongodb}

module _ {Spec : Type 0} where
  abbrev pub run_mongodb_role_injector :
      Vendor → Env Spec → String → Act (Event Spec) (Option Error)
  run_mongodb_role_injector = Role.run_injector mongodb

  abbrev pub reconcile_mongodb_role :
      Vendor → Env Spec → Object Spec ManagedStatus → Act (Event Spec) (Option Error)
  reconcile_mongodb_role = Role.reconcile mongodb

  abbrev pub run_mongodb_role_finalizer :
      Vendor → Env Spec → Object Spec ManagedStatus → Act (Event Spec) (Option Error)
  run_mongodb_role_finalizer = Role.run_finalizer mongodb
