-- ===== src/Api/Conditions.antt =====
-- Conditions, and the operations on them that Cluster API's util/conditions gives.
use cluster_api_provider_bri.Prelude.{◌≡◌, String, Bool, true, false, List, if◌then◌else◌, str_eq}

pub record Condition : Type 0 where
  pub kind : String
  pub status : Bool
  pub severity : String
  pub reason : String

abbrev pub Conditions : Type 0
Conditions = List Condition

abbrev pub severity_info : String
severity_info = "Info"

abbrev pub severity_error : String
severity_error = "Error"

-- `conditions.MarkTrue`, `MarkFalse`, `Get(…).Status == True` and `GetReason`.
pub record ConditionOps : Type 0 where
  pub mark_true : String → Conditions → Conditions
  pub mark_false : String → String → String → Conditions → Conditions
  pub is_true : String → Conditions → Bool
  pub get_reason : String → Conditions → String

-- Their documented behaviour: a mark sets its own condition and leaves the others.
pub record ConditionLaws (c : ConditionOps) : Type 0 where
  pub is_true-mark_true :
      (t u : String) (s : Conditions)
      → c.is_true t (c.mark_true u s) ≡ (if str_eq u t then true else c.is_true t s)
  pub is_true-mark_false :
      (t u reason severity : String) (s : Conditions)
      → c.is_true t (c.mark_false u reason severity s)
        ≡ (if str_eq u t then false else c.is_true t s)
  pub get_reason-mark_false :
      (t u reason severity : String) (s : Conditions)
      → c.get_reason t (c.mark_false u reason severity s)
        ≡ (if str_eq u t then reason else c.get_reason t s)
