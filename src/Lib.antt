-- ===== src/Lib.antt =====
-- open-actions: a controller that runs GitHub Actions workflows on Kubernetes.
--
-- A WorkflowRun is one attempt at a workflow, and its WorkflowJobs are the jobs of that attempt. Both
-- are custom resources, whose conditions carry their state. The controller's reconcilers move them
-- on; jobs and runs of one concurrency group take turns through a Lease.
--
-- - Api: the resources, of api/v1alpha1/workflowrun_types.go, workflowjob_types.go and
--   concurrency_types.go. A pointer is an Option, a map an association list, an instant a number.
-- - Status: the labels of internal/workflowstatus/status.go (Run, Job, JobTerminal) and the
--   predicates of the controllers on a job's result (workflowJobResult,
--   workflowJobEffectiveResult and others). The search of a condition, meta.FindStatusCondition,
--   is a parameter.
-- - Concurrency: internal/controller/concurrency.go. Member holds identities and their parsing,
--   Lease the Lease's holder and pending member, Gate one attempt of acquireConcurrency on a
--   Lease that was read, Release one attempt of releaseConcurrency, Bootstrap the members a new
--   Lease starts with, Activity the test of whether a member still runs, and Attempts the loops
--   around the attempts, with the request that each attempt sends to the API server. Exclusion
--   puts attempts, releases and ends of members into one step relation. JSON, the time format and
--   the search of conditions are parameters (Lease.Platform); that JSON reads back what it writes
--   is Lease.IsFaithful. Each loop makes five attempts as the source does, so it needs no fuel.
-- - Lineage: internal/workflowrun. Approval holds approvals, Attempts the choice of the latest
--   attempt and the making of the next one, History the jobs that still count over the attempts,
--   Dependents the jobs that run again. The loop of Dependents runs until nothing changes; each
--   sweep but the last selects a job, so one sweep more than there are jobs is enough.
-- - Cache: internal/cache. Policy is policy.go, Store the entries of store.go with their sizes
--   and removal, Room makeRoomLocked, Cleanup cleanupLocked. What comes in to makeRoomLocked is
--   `added - freed`, two natural numbers. The files of an entry are not modelled; whether they
--   could be removed is a parameter. A store is well formed if its IDs are distinct, each
--   complete entry was uploaded, and nothing is on its way to an entry that is not in use. Upload,
--   Commit and Serve are the operations on one entry, a function for each critical section; what
--   the disk, the clock, the random source and the copied body answer are their arguments. System
--   puts the critical sections into one step relation, with the uploads that are in flight.
-- - Workflow: internal/workflow/workflow.go. Graph is validateJobGraph, whose recursive visit runs
--   on fuel: each call below another is for a further job, so one call more than there are jobs is
--   deep enough. Matrix is expandMatrix, on values that were resolved. A Go map is an association
--   list, and a number among the values the text that fmt.Sprint writes for it. Glob is
--   compileGitHubPattern, Matcher the patternMatchers, with what regexp does for the expressions
--   that Glob writes, Event the events and filters with paths.go, Inputs resolveInputs, Cron
--   ParseCron and Trigger the function Match. The cron package and the parsing of numbers are
--   parameters (Cron.CronLibrary, Inputs.Numbers).
-- - Runner: KeyValues is readKeyValueFile of internal/runner/file_commands.go, over the lines that
--   the scanner splits, whose length is not limited here. Escapes holds the escapes of workflow
--   commands, of internal/workflowcommand/parser.go.
-- - Expression: internal/expression. Lexer and Parser are parser.go, by recursive descent on fuel,
--   of which twelve rounds for each character and twelve more are enough; Template is Parse, with a
--   round for each character and one more. Value and Access are value.go, Node the syntax with its
--   validation, Calls, Format and Hash the functions that expressions call, Evaluate and Program
--   the evaluation. A float64 is its bit pattern, and the operations on it, the tables of case, JSON
--   and the files that are hashed are a parameter (Value.Runtime). Pointers of arrays and objects
--   are numbers, so that `equal` can compare them. Objects that resolve their properties on demand
--   are not modelled. Where a Go map is searched without regard to case, the order is that of the
--   association list. A panic is an error of its own.
--
-- Not modelled: what only calls Kubernetes, GitHub, git or the file system; HTTP handlers and pages;
-- the status writes around the concurrency gate; the parser of workflows; the commit of a cache
-- entry by ranges.
pub mod Api
pub mod Base
pub mod Cache
pub mod Concurrency
pub mod Expression
pub mod Lineage
pub mod Runner
pub mod Status
pub mod Workflow
