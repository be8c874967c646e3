-- ===== src/Access/Kinds/Azure.antt =====
-- The controller of AzureAccessKeyRequest objects and their admission:
-- pkg/controller/azure_access_key_request.go.
use vault_operator.Base.{Bool, String, Option, Error}
use vault_operator.Base.Act.{Act}
use vault_operator.Meta.{Vendor}
use vault_operator.Access.Request.{RequestSpec, Request, azure}
use vault_operator.Access.World.{Event, CredentialManager, Env}
use vault_operator.Access.Controller
use vault_operator.Access.Admission.{AdmissionRequest, AdmissionResponse, admit}

abbrev pub run_azure_injector : Vendor → Env → String → Act Event (Option Error)
run_azure_injector = Controller.run_injector azure

abbrev pub reconcile_azure_request :
    Vendor → Env → CredentialManager → Request → Act Event (Option Error)
reconcile_azure_request = Controller.reconcile azure

abbrev pub run_azure_finalizer : Vendor → Env → Request → Act Event (Option Error)
run_azure_finalizer = Controller.run_finalizer azure

abbrev pub delete_cred_secret_for_azure : Vendor → Env → Request → Act Event (Option Error)
delete_cred_secret_for_azure = Controller.delete_cred_secret azure

abbrev pub admit_azure :
    (RequestSpec → RequestSpec → String) → Bool → AdmissionRequest → AdmissionResponse
admit_azure = admit azure
