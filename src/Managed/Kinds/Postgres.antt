-- ===== src/Managed/Kinds/Postgres.antt =====
-- The controller of PostgresRole objects: pkg/controller/postgres_role.go.
use vault_operator.Base.{String, Option, Error}
use vault_operator.Base.Act.{Act}
use vault_operator.Meta.{Object, Vendor}
use vault_operator.Managed.World.{ManagedStatus, Event, Env}
use vault_operator.Managed.Role
use vault_operator.Managed.Role.{postgres}

module _ {Spec : Type 0} where
  abbrev pub run_postgres_role_injector :
      Vendor → Env Spec → String → Act (Event Spec) (Option Error)
  run_postgres_role_injector = Role.run_injector postgres

  abbrev pub reconcile_postgres_role :
      Vendor → Env Spec → Object Spec ManagedStatus → Act (Event Spec) (Option Error)
  reconcile_postgres_role = Role.reconcile postgres

  abbrev pub run_postgres_role_finalizer :
      Vendor → Env Spec → Object Spec ManagedStatus → Act (Event Spec) (Option Error)
  run_postgres_role_finalizer = Role.run_finalizer postgres
