-- ===== src/Access/Kinds/Gcp.antt =====
-- The controller of GCPAccessKeyRequest objects and their admission:
-- pkg/controller/gcp_access_key_request.go.
use vault_operator.Base.{Bool, String, Option, Error}
use vault_operator.Base.Act.{Act}
use vault_operator.Meta.{Vendor}
use vault_operator.Access.Request.{RequestSpec, Request, gcp}
use vault_operator.Access.World.{Event, CredentialManager, Env}
use vault_operator.Access.Controller
use vault_operator.Access.Admission.{AdmissionRequest, AdmissionResponse, admit}

abbrev pub run_gcp_injector : Vendor → Env → String → Act Event (Option Error)
run_gcp_injector = Controller.run_injector gcp

abbrev pub reconcile_gcp_request :
    Vendor → Env → CredentialManager → Request → Act Event (Option Error)
reconcile_gcp_request = Controller.reconcile gcp

abbrev pub run_gcp_finalizer : Vendor → Env → Request → Act Event (Option Error)
run_gcp_finalizer = Controller.run_finalizer gcp

abbrev pub delete_cred_secret_for_gcp : Vendor → Env → Request → Act Event (Option Error)
delete_cred_secret_for_gcp = Controller.delete_cred_secret gcp

abbrev pub admit_gcp :
    (RequestSpec → RequestSpec → String) → Bool → AdmissionRequest → AdmissionResponse
admit_gcp = admit gcp
