-- ===== src/Api/Meta.antt =====
-- The parts of metav1 that the resources use, and api/v1alpha1/concurrency_types.go.
use open_actions.Base.{ℕ, String, List, Option, Bool, true, false}

pub data ConditionStatus : Type 0 where
  condition_true condition_false condition_unknown : ConditionStatus

pub record Condition : Type 0 where
  pub kind : String  -- Type
  pub status : ConditionStatus
  pub reason : String

abbrev pub is_true : ConditionStatus → Bool
is_true condition_true = true
is_true _ = false

abbrev pub is_false : ConditionStatus → Bool
is_false condition_false = true
is_false _ = false

abbrev pub is_unknown : ConditionStatus → Bool
is_unknown condition_unknown = true
is_unknown _ = false

pub record ObjectMeta : Type 0 where
  pub name : String
  pub namespace : String
  pub uid : String
  pub creation_timestamp : ℕ
  pub labels : List (String × String)
  pub annotations : List (String × String)

pub record ConcurrencyStatus : Type 0 where
  pub group : String
  pub cancel_in_progress : Bool

pub record CommitStatus : Type 0 where
  pub state : String
  pub report_digest : String

-- meta.FindStatusCondition, which the sources only call.
abbrev pub FindCondition : Type 0
FindCondition = List Condition → String → Option Condition
