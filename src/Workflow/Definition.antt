-- ===== src/Workflow/Definition.antt =====
-- The parts of a workflow definition that the modelled operations read: internal/workflow/workflow.go.
use open_actions.Base.{String, List}

pub record Job : Type 0 where
  pub name : String
  pub runs_on : List String
  pub needs : List String
  pub condition : String  -- If
