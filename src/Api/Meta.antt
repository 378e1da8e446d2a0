-- ===== src/Api/Meta.antt =====
-- Object metadata, references, errors of the API server, and what a reconciler returns.
use cluster_api_provider_bri.Prelude.{
  ℕ, ◌*◌, String, Bool, true, false, Option, none, some, List, str_eq, any,
}
use cluster_api_provider_bri.Prelude.Dict.{Dict}

-- `corev1.ObjectReference`, the fields that the code sets.
pub record ObjectReference : Type 0 where
  pub api_version : String
  pub kind : String
  pub namespace : String
  pub name : String
  pub uid : String

-- `metav1.ObjectMeta`, the fields that the code reads. Times are counted in nanoseconds.
pub record ObjectMeta : Type 0 where
  pub name : String
  pub namespace : String
  pub uid : String
  pub labels : Dict String
  pub annotations : Dict String
  pub finalizers : List String
  pub deletion_timestamp : Option ℕ

-- An error, as far as the code tells errors apart (`apierrors.IsNotFound` and its kin).
pub data Error : Type 0 where
  not_found conflict already_exists : Error
  failed : String → Error

pub data Result {ℓ} (A : Type ℓ) : Type ℓ where
  ok : A → Result A
  err : Error → Result A

abbrev pub is_not_found : Error → Bool
is_not_found not_found = true
is_not_found _ = false

-- `ctrl.Result` with the error beside it; `requeue_after` is 0 where the code leaves it unset.
pub record Reply : Type 0 where
  pub requeue_after : ℕ
  pub error : Option Error

abbrev pub done : Reply
done = record { requeue_after = 0; error = none }

abbrev pub requeue : ℕ → Reply
requeue d = record { requeue_after = d; error = none }

abbrev pub fail : Error → Reply
fail e = record { requeue_after = 0; error = some e }

-- `time.Second` and `time.Minute`
abbrev pub second : ℕ
second = 1000000000

abbrev pub minute : ℕ
minute = 60 * second

-- `controllerutil.AddFinalizer` and `RemoveFinalizer` are given as parameters.
pub record FinalizerOps : Type 0 where
  pub add_finalizer : String → List String → List String
  pub remove_finalizer : String → List String → List String

abbrev pub has : String → List String → Bool
has f = any (str_eq f)
