-- ===== src/Managed/Kinds/Aws.antt =====
-- The controller of AWSRole objects: pkg/controller/aws_role.go.
use vault_operator.Base.{String, Option, Error}
use vault_operator.Base.Act.{Act}
use vault_operator.Meta.{Object, Vendor}
use vault_operator.Managed.World.{ManagedStatus, Event, Env}
use vault_operator.Managed.Role
use vault_operator.Managed.Role.{aws}

module _ {Spec : Type 0} where
  abbrev pub run_aws_role_injector : Vendor → Env Spec → String → Act (Event Spec) (Option Error)
  run_aws_role_injector = Role.run_injector aws

  abbrev pub reconcile_aws_role :
      Vendor → Env Spec → Object Spec ManagedStatus → Act (Event Spec) (Option Error)
  reconcile_aws_role = Role.reconcile aws

  abbrev pub run_aws_role_finalizer :
      Vendor → Env Spec → Object Spec ManagedStatus → Act (Event Spec) (Option Error)
  run_aws_role_finalizer = Role.run_finalizer aws
