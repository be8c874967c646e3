-- ===== src/Access/Kinds/Aws.antt =====
-- The controller of AWSAccessKeyRequest objects and their admission:
-- pkg/controller/aws_access_key_request.go.
use vault_operator.Base.{Bool, String, Option, Error}
use vault_operator.Base.Act.{Act}
use vault_operator.Meta.{Vendor}
use vault_operator.Access.Request.{RequestSpec, Request, aws}
use vault_operator.Access.World.{Event, CredentialManager, Env}
use vault_operator.Access.Controller
use vault_operator.Access.Admission.{AdmissionRequest, AdmissionResponse, admit}

abbrev pub run_aws_injector : Vendor → Env → String → Act Event (Option Error)
run_aws_injector = Controller.run_injector aws

abbrev pub reconcile_aws_request :
    Vendor → Env → CredentialManager → Request → Act Event (Option Error)
reconcile_aws_request = Controller.reconcile aws

abbrev pub run_aws_finalizer : Vendor → Env → Request → Act Event (Option Error)
run_aws_finalizer = Controller.run_finalizer aws

abbrev pub delete_cred_secret_for_aws : Vendor → Env → Request → Act Event (Option Error)
delete_cred_secret_for_aws = Controller.delete_cred_secret aws

abbrev pub admit_aws :
    (RequestSpec → RequestSpec → String) → Bool → AdmissionRequest → AdmissionResponse
admit_aws = admit aws
