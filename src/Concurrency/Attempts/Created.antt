-- ===== src/Concurrency/Attempts/Created.antt =====
-- The Lease that acquireConcurrency creates for a group without one, read back.
use open_actions.Base.{false}
use open_actions.Concurrency.Lease.{Lease}
use open_actions.Concurrency.Member.{Member}

-- A member as a Lease names it: without its choice on cancellation.
abbrev pub plain : Member → Member
plain m = record m { cancel_in_progress = false }
