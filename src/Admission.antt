-- ===== src/Admission.antt =====
-- Admission: the approval of certificate requests (controllers/infrastructure/byoadmission_controller.go)
-- and the webhook of the ByoHost (apis/infrastructure/v1beta1/byohost_webhook.go).
pub mod Approval
pub mod Webhook
use cluster_api_provider_bri.Prelude.{
  String, Bool, true, false, ◌||◌, Option, none, some, List, [], ◌∷◌, ◌++◌, any, str_eq,
  starts_with, is_some, if◌then◌else◌,
}
use cluster_api_provider_bri.Api.Meta.{
  ObjectReference, Error, Result, ok, err, is_not_found, Reply, done, fail,
}
use cluster_api_provider_bri.Api.Host.{ByoHost}

-- `CertificateSigningRequest`: its name, its signer and the types of its conditions.
pub record Request : Type 0 where
  pub name : String
  pub signer : String
  pub conditions : List String

abbrev pub approved : String
approved = "Approved"

abbrev pub denied : String
denied = "Denied"

abbrev pub kube_api_server_client_signer : String
kube_api_server_client_signer = "kubernetes.io/kube-apiserver-client"

abbrev pub kubelet_client_signer : String
kubelet_client_signer = "kubernetes.io/kube-apiserver-client-kubelet"

abbrev pub kubelet_serving_signer : String
kubelet_serving_signer = "kubernetes.io/kubelet-serving"

-- `checkCSRCondition`
unfoldable pub check_csr_condition : String → List String → Bool
check_csr_condition kind [] = false
check_csr_condition kind (k ∷ conditions) = str_eq k kind || check_csr_condition kind conditions

-- The `switch` on the signer: whether the request is to be approved.
unfoldable pub is_approvable : Request → Bool
is_approvable r =
    if str_eq r.signer kube_api_server_client_signer
    then starts_with r.name "byoh-csr-" || starts_with r.name "node-csr-"
    else str_eq r.signer kubelet_client_signer || str_eq r.signer kubelet_serving_signer

unfoldable pub approve : Request → Request
approve r = record r { conditions = r.conditions ++ (approved ∷ []) }

-- The request that is sent to `UpdateApproval`, if one is, and the reply.
unfoldable pub review : (Request → Option Error) → Request → Option Request × Reply
unfolding check_csr_condition is_approvable approve
review update r =
    if check_csr_condition approved r.conditions || check_csr_condition denied r.conditions
    then (none, done)
    else if is_approvable r
    then (some (approve r), record { requeue_after = 0; error = update (approve r) })
    else (none, done)

-- `Reconcile`, of the reply to `Get`.
unfoldable pub reconcile : (Request → Option Error) → Result {0} Request → Option Request × Reply
unfolding review
reconcile update (ok r) = review update r
reconcile update (err e) = (none, if is_not_found e then done else fail e)

-- The filter of the created and updated requests in `SetupWithManager`.
unfoldable pub accepts : Request → Bool
accepts r =
    starts_with r.name "byoh-csr-"
    || starts_with r.name "node-csr-"
    || str_eq r.signer kubelet_serving_signer
    || str_eq r.signer kubelet_client_signer

pub data Operation : Type 0 where
  create update delete connect : Operation

pub data Response : Type 0 where
  allowed denied_with bad_request : Response

abbrev pub manager_service_account : String
manager_service_account = "system:serviceaccount:byoh-system:byoh-controller-manager"

-- `handleCreateUpdate`; every branch past the decoder allows.
unfoldable pub handle_create_update : Operation → String → Result {0} ByoHost → Response
handle_create_update op user (err e) = bad_request
handle_create_update create user (ok h) = allowed
handle_create_update update user (ok h) =
    if str_eq user manager_service_account then allowed else allowed
handle_create_update _ user (ok h) = allowed

-- `handleDelete`
unfoldable pub handle_delete : Result {0} ByoHost → Response
handle_delete (err e) = bad_request
handle_delete (ok h) = if is_some h.status.machine_ref then denied_with else allowed

-- `Handle`, of the decoded new and old object.
unfoldable pub handle : Operation → String → Result {0} ByoHost → Result {0} ByoHost → Response
unfolding handle_create_update handle_delete
handle create user new old = handle_create_update create user new
handle update user new old = handle_create_update update user new
handle delete user new old = handle_delete old
handle connect user new old = allowed
