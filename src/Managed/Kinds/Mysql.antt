-- ===== src/Managed/Kinds/Mysql.antt =====
-- The controller of MySQLRole objects: pkg/controller/mysql_role.go.
use vault_operator.Base.{String, Option, Error}
use vault_operator.Base.Act.{Act}
use vault_operator.Meta.{Object, Vendor}
use vault_operator.Managed.World.{ManagedStatus, Event, Env}
use vault_operator.Managed.Role
use vault_operator.Managed.Role.{mysql}

module _ {Spec : Type 0} where
  abbrev pub run_mysql_role_injector : Vendor → Env Spec → String → Act (Event Spec) (Option Error)
  run_mysql_role_injector = Role.run_injector mysql

  abbrev pub reconcile_mysql_role :
      Vendor → Env Spec → Object Spec ManagedStatus → Act (Event Spec) (Option Error)
  reconcile_mysql_role = Role.reconcile mysql

  abbrev pub run_mysql_role_finalizer :
      Vendor → Env Spec → Object Spec ManagedStatus → Act (Event Spec) (Option Error)
  run_mysql_role_finalizer = Role.run_finalizer mysql
