-- ===== src/Workflow/Graph/Path.antt =====
-- Chains of needs with and without their IDs, and jobs from which every chain ends.
use open_actions.Base.{String, true, ◌≡◌, List, [], ◌∷◌, ◌++◌}
use open_actions.Base.Dict.{mem}
use open_actions.Workflow.Graph.{Jobs, needs_of}

module _ (jobs : Jobs) where
  -- A chain of at least one need.
  pub data Leads (a : String) : String → Type 0 where
    one : {b : String} → mem b (needs_of jobs a) ≡ true → Leads a b
    more : {b c : String} → Leads a b → mem c (needs_of jobs b) ≡ true → Leads a c

  -- The IDs of a chain in order, from the first to the last: each but the first is a need of the one
  -- before it.
  pub data Route (a : String) : List String → String → Type 0 where
    step : {b : String} → mem b (needs_of jobs a) ≡ true → Route a (a ∷ b ∷ []) b
    further :
        {ids : List String} {b c : String}
        → Route a ids b
        → mem c (needs_of jobs b) ≡ true
        → Route a (ids ++ (c ∷ [])) c

  pub route_leads : {a b : String} {ids : List String} → Route a ids b → Leads a b
  route_leads (step m) = one m
  route_leads (further r m) = more (route_leads r) m

  -- Every chain of needs from the job comes to an end.
  pub data Ends : String → Type 0 where
    ends : {a : String} → ((d : String) → mem d (needs_of jobs a) ≡ true → Ends d) → Ends a

  -- A chain with one more need before it.
  pub before : {a b : String} (c : String) → mem a (needs_of jobs c) ≡ true → Leads a b → Leads c b
  before c m (one n) = more (one m) n
  before c m (more l n) = more (before c m l) n

  -- The second job of a chain, with what follows it.
  pub data Begins (a b : String) : Type 0 where
    at_once : mem b (needs_of jobs a) ≡ true → Begins a b
    by : (c : String) → mem c (needs_of jobs a) ≡ true → Leads c b → Begins a b

  pub first_need : {a b : String} → Leads a b → Begins a b
  first_need (one m) = at_once m
  first_need {a} (more {b} {c} l n) = elim (first_need l) [
    | at_once m ↦ by b m (one n)
    | by x m rest ↦ by x m (more rest n)
  ]

  -- No chain leads from such a job back to it.
  pub no_loop : {a : String} → Ends a → Leads a a → ⊥
  no_loop {a} (ends h) l = elim (first_need l) [
    | at_once m ↦ no_loop (h a m) l
    | by c m rest ↦ no_loop (h c m) (more rest m)
  ]
