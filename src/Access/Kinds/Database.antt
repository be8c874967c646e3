-- ===== src/Access/Kinds/Database.antt =====
-- The controller of DatabaseAccessRequest objects and their admission:
-- pkg/controller/db_access_request.go.
use vault_operator.Base.{Bool, String, Option, Error}
use vault_operator.Base.Act.{Act}
use vault_operator.Meta.{Vendor}
use vault_operator.Access.Request.{RequestSpec, Request, database}
use vault_operator.Access.World.{Event, CredentialManager, Env}
use vault_operator.Access.Controller
use vault_operator.Access.Admission.{AdmissionRequest, AdmissionResponse, admit}

abbrev pub run_database_injector : Vendor → Env → String → Act Event (Option Error)
run_database_injector = Controller.run_injector database

abbrev pub reconcile_database_request :
    Vendor → Env → CredentialManager → Request → Act Event (Option Error)
reconcile_database_request = Controller.reconcile database

abbrev pub run_database_finalizer : Vendor → Env → Request → Act Event (Option Error)
run_database_finalizer = Controller.run_finalizer database

abbrev pub delete_cred_secret_for_database : Vendor → Env → Request → Act Event (Option Error)
delete_cred_secret_for_database = Controller.delete_cred_secret database

abbrev pub admit_database :
    (RequestSpec → RequestSpec → String) → Bool → AdmissionRequest → AdmissionResponse
admit_database = admit database
