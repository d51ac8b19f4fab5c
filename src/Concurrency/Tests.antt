-- ===== src/Concurrency/Tests.antt =====
-- Runs of the definitions, and instances of the theorems at a group with two members.
use open_actions.Base.{
  ℕ, String, true, false, none, some, List, [], ◌∷◌, ◌≡◌, ◌≢◌, inl, inr, refl, arith, ◌<◌, eq_iff,
  eq_refl, ◌==◌,
}
use open_actions.Base.Dict.{get, insert, delete, lookup}
use open_actions.Base.Text.{cut}
use open_actions.Base.Result.{ok, err}
use open_actions.Concurrency.Activity.{found}
use open_actions.Concurrency.Attempts.{
  Turn, written, conflict, acquire_attempt, acquire_concurrency,
}
use open_actions.Concurrency.Attempts.Laws.{
  Sends, sent, gate_at, IsForestalled, acquire_concurrency-Means, acquire_concurrency-conflict,
}
use open_actions.Concurrency.Exclusion.{System, Reach, here, next, attempt, exclusion}
use open_actions.Concurrency.Gate.{
  Activity, acquired, waiting, GateResult, Round, gate, settle, decide, enter, check_holder,
  check_pending, promote,
}
use open_actions.Concurrency.Gate.Laws.{Means, gate-Means, gate-holder}
use open_actions.Concurrency.Lease.{
  Lease, lease_holder, lease_pending, set_pending, validate, give_to, next_transition,
}
use open_actions.Concurrency.Lease.Laws.{holder_text}
use open_actions.Concurrency.Member.{
  Member, Scope, identity, parse_identity, split_three, check_parts, changed_too_frequently,
}
use open_actions.Concurrency.Member.Laws.{IsNamed, parse_identity-identity}
use open_actions.Concurrency.Release.{put, release, leave, hand_over}
use open_actions.Concurrency.Release.Laws.{outcome, IsFreeOf, release-IsFreeOf, release-holder}
use open_actions.Concurrency.Sample.{sample, sample-IsFaithful}

computes : Unit {0}
unfolding gate settle decide enter check_holder check_pending promote lease_holder lease_pending
    set_pending validate give_to next_transition identity parse_identity split_three check_parts cut
    get insert delete lookup release leave hand_over
computes = tt

abbrev run : String → Member
run uid = record { kind = "WorkflowRun"; name = "ci"; uid = uid; cancel_in_progress = true }

abbrev scope : Scope
scope = record { project = "demo"; repository_id = 2 }

abbrev marks : List (String × String)
marks =
    ("actions.kelos.dev/concurrency-project", "demo")
    ∷ ("actions.kelos.dev/concurrency-repository-id", "ii")
    ∷ ("actions.kelos.dev/concurrency-group", "deploy")
    ∷ []

abbrev held_by : String → Lease
held_by i = record {
  annotations = marks;
  holder_identity = some i;
  acquire_time = some 1;
  lease_transitions = none;
}

abbrev everyone : Activity
everyone m = ok true

run-IsNamed : (uid : String) → uid ≢ "" → IsNamed (run uid)
run-IsNamed uid h = record {
  kind = inl refl;
  name_some = λ e. ground (arith, eq_iff "ci" "");
  name_plain = omega arith;
  uid_some = h;
}

a_ne : ◌≢◌ {A = String} "a" ""
a_ne = ground (arith, eq_iff "a" "")

b_ne : ◌≢◌ {A = String} "b" ""
b_ne = ground (arith, eq_iff "b" "")

parse_identity-identity_example :
    parse_identity (identity (run "a")) ≡ ok (record (run "a") { cancel_in_progress = false })
parse_identity-identity_example = parse_identity-identity (run "a") (run-IsNamed "a" a_ne)

abbrev a_holds : Lease
a_holds = held_by "WorkflowRun:ci:a"

abbrev holder_a : Member
holder_a = record (run "a") { cancel_in_progress = false }

-- The second run asks for the group that the first one holds: it waits, and asks for the first
-- one's cancellation.
abbrev b_waits_lease : Lease
b_waits_lease = set_pending sample (some (run "b")) a_holds

abbrev b_waits_result : GateResult
b_waits_result = record { state = waiting; displaced = none; cancel_owner = some holder_a }

abbrev b_waits_round : Round
b_waits_round = record {
  holder = some holder_a;
  pending = some (run "b");
  lease = b_waits_lease;
  changed = true;
}

b_waits :
    gate sample everyone scope "deploy" (run "b") false 9 a_holds
    ≡ ok (b_waits_result, b_waits_round)
unfolding computes
b_waits = refl

gate-Means_example : Means sample waiting (run "b") false b_waits_lease
gate-Means_example =
    gate-Means sample everyone a_holds (run "b") false 9 scope "deploy" sample-IsFaithful
      (run-IsNamed "b" b_ne) b_waits

gate-holder_example : holder_text b_waits_lease ≡ some (identity holder_a)
gate-holder_example =
    gate-holder sample everyone a_holds (run "b") false 9 scope "deploy" {h = holder_a} b_waits
      (unfold computes in refl) refl

-- A third run then takes the second one's place.
abbrev c_waits_result : GateResult
c_waits_result = record {
  state = waiting;
  displaced = some (run "b");
  cancel_owner = some holder_a;
}

abbrev c_waits_round : Round
c_waits_round = record {
  holder = some holder_a;
  pending = some (run "c");
  lease = set_pending sample (some (run "c")) b_waits_lease;
  changed = true;
}

c_waits :
    gate sample everyone scope "deploy" (run "c") false 10 b_waits_lease
    ≡ ok (c_waits_result, c_waits_round)
unfolding computes
c_waits = refl

-- The first run ends, and the second one follows.
abbrev b_holds : Lease
b_holds = set_pending sample none (give_to (run "b") 11 b_waits_lease)

a_leaves : release sample everyone scope "deploy" (run "a") 11 b_waits_lease ≡ ok (put b_holds)
unfolding computes
a_leaves = refl

release-IsFreeOf_example : IsFreeOf sample (run "a") (some b_holds)
release-IsFreeOf_example =
    release-IsFreeOf sample (run "a") everyone 11 scope "deploy" b_waits_lease a_leaves

-- The second run gives up its place instead.
b_leaves :
    release sample everyone scope "deploy" (run "b") 11 b_waits_lease
    ≡ ok (put (set_pending sample none b_waits_lease))
unfolding computes
b_leaves = refl

b_is_not_a : identity (run "a") ≢ identity (run "b")
unfolding identity
b_is_not_a e = ground (arith, eq_iff "WorkflowRun:ci:a" "WorkflowRun:ci:b")

release-holder_example :
    (lease' : Lease) × (outcome (put (set_pending sample none b_waits_lease)) b_waits_lease
      ≡ some lease')
    × (holder_text lease' ≡ some (identity (run "a")))
release-holder_example =
    release-holder sample (run "b") everyone 11 scope "deploy" b_waits_lease (identity (run "a"))
      b_leaves (unfold computes in refl) b_is_not_a

-- One attempt that another writer forestalls, and one that succeeds.
abbrev turns : ℕ → Turn
turns k = record {
  lease = found a_holds;
  runs = ok [];
  active = everyone;
  now = 9;
  write = elim k [ ℕ.zero ↦ conflict | ℕ.suc n ↦ written ];
}

b_acquires : acquire_concurrency sample scope "deploy" (run "b") false turns ≡ ok b_waits_result
unfolding acquire_concurrency acquire_attempt computes
b_acquires = refl

acquire_concurrency-Means_example :
    (k : ℕ) × (k < 5)
    × ((l : Lease) × (r : Round) × ((turns k).lease ≡ found l)
        × (gate_at sample scope "deploy" (run "b") false (turns k) l ≡ ok (b_waits_result, r))
        × (Means sample waiting (run "b") false r.lease
            × Sends (sent sample scope "deploy" (run "b") false (turns k)) (turns k).write l r))
acquire_concurrency-Means_example =
    acquire_concurrency-Means sample scope "deploy" (run "b") false turns sample-IsFaithful
      (run-IsNamed "b" b_ne) b_acquires

abbrev contended : ℕ → Turn
contended k = record {
  lease = found a_holds;
  runs = ok [];
  active = everyone;
  now = 9;
  write = conflict;
}

forestalled : (k : ℕ) → k < 5 → IsForestalled sample scope "deploy" (run "b") false (contended k)
unfolding computes
forestalled k h = inr (a_holds, b_waits_result, b_waits_round, refl, refl, refl, inl refl)

acquire_concurrency-conflict_example :
    acquire_concurrency sample scope "deploy" (run "b") false contended ≡ err changed_too_frequently
acquire_concurrency-conflict_example =
    acquire_concurrency-conflict sample scope "deploy" (run "b") false contended forestalled

-- A group in which the first run is let in.
abbrev start : System
start = record { lease = some a_holds; alive = λ i. true; granted = λ i. false }

abbrev a_round : Round
a_round = record { holder = some holder_a; pending = none; lease = a_holds; changed = false }

a_acquires :
    gate sample everyone scope "deploy" (run "a") false 9 a_holds
    ≡ ok (record { state = acquired; displaced = none; cancel_owner = none }, a_round)
unfolding computes
a_acquires = refl

a_enters :
    Reach sample scope "deploy" start
      (record start { lease = some a_holds; granted = λ i. i == identity (run "a") })
a_enters = next here (
    attempt everyone (run "a") false 9 a_holds _ a_round (run-IsNamed "a" a_ne) (λ h e. cc) refl
      a_acquires)

exclusion_example : identity (run "a") ≡ identity (run "a")
exclusion_example =
    exclusion sample scope "deploy" (identity (run "a")) (identity (run "a")) sample-IsFaithful
      (λ k. refl) a_enters (eq_refl _) refl (eq_refl _) refl
