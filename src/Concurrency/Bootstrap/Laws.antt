-- ===== src/Concurrency/Bootstrap/Laws.antt =====
-- Where the members that bootstrap chooses come from: they have the names of runs.
use open_actions.Api.{WorkflowRun}
use open_actions.Base.{
  String, ◌≡◌, not, ◌&&◌, ◌∙◌, Bool-cases, Option, some, List, [], ◌∷◌, inl, inr, arith, refl,
  Option-cases,
}
use open_actions.Concurrency.Bootstrap.{
  Candidate, before, insert_candidate, sort_candidates, first_member, last_member, is_in_group,
  holders_of, waiters_of, bootstrap,
}
use open_actions.Concurrency.Lease.{Platform}
use open_actions.Concurrency.Member.{Member, Scope, run_member, waits_for_concurrency}
use open_actions.Concurrency.Member.Laws.{IsNamed}
use open_actions.Status.{holds}
use mathlib.Core.List.{Memᴰ}

-- Every member of a list, or the one that there is, has a name that the API server could give.
abbrev AreNamed : List Candidate → Type 0
AreNamed cs = (c : Candidate) → Memᴰ c cs → IsNamed c.member

abbrev pub IsNamedIfAny : Option Member → Type 0
IsNamedIfAny o = (m : Member) → o ≡ some m → IsNamed m

insert-AreNamed :
    (c : Candidate) (cs : List Candidate)
    → IsNamed c.member
    → AreNamed cs
    → AreNamed (insert_candidate c cs)
unfolding insert_candidate
insert-AreNamed c [] n all x (Memᴰ.head e) = rw e n
insert-AreNamed c [] n all x (Memᴰ.tail m) = elim m [ ]
insert-AreNamed c (d ∷ ds) n all x m = elim (Bool-cases (before d c)) [
  | inl earlier ↦ elim (rw (earlier, insert_candidate) at m) [
    | Memᴰ.head e ↦ all x (Memᴰ.head e)
    | Memᴰ.tail t ↦ insert-AreNamed c ds n (λ y at. all y (Memᴰ.tail at)) x t
  ]
  | inr later ↦ elim (rw (later, insert_candidate) at m) [
    | Memᴰ.head e ↦ rw e n
    | Memᴰ.tail t ↦ all x t
  ]
]

sort-AreNamed : (cs : List Candidate) → AreNamed cs → AreNamed (sort_candidates cs)
unfolding sort_candidates
sort-AreNamed [] all = all
sort-AreNamed (c ∷ cs) all =
    insert-AreNamed c (sort_candidates cs) (all c (Memᴰ.head refl))
      (sort-AreNamed cs (λ y at. all y (Memᴰ.tail at)))

first-IsNamedIfAny : (cs : List Candidate) → AreNamed cs → IsNamedIfAny (first_member cs)
first-IsNamedIfAny [] all m e = absurd (cc)
first-IsNamedIfAny (c ∷ cs) all m e =
    let same : c.member ≡ m = ground (arith, e) in
    let named : IsNamed c.member = all c (Memᴰ.head refl) in rw same at named

last-IsNamedIfAny : (cs : List Candidate) → AreNamed cs → IsNamedIfAny (last_member cs)
last-IsNamedIfAny [] all m e = absurd (cc)
last-IsNamedIfAny (c ∷ []) all m e =
    let same : c.member ≡ m = ground (arith, e) in
    let named : IsNamed c.member = all c (Memᴰ.head refl) in rw same at named
last-IsNamedIfAny (c ∷ d ∷ ds) all m e =
    last-IsNamedIfAny (d ∷ ds) (λ y at. all y (Memᴰ.tail at)) m e

-- The runs have names that the API server could give.
abbrev pub RunsAreNamed : Platform → List WorkflowRun → Type 0
RunsAreNamed p runs = (run : WorkflowRun) → Memᴰ run runs → IsNamed (run_member p.find run)

module _ (p : Platform) (scope : Scope) (group : String) where
  holders_of-AreNamed :
      (runs : List WorkflowRun) → RunsAreNamed p runs → AreNamed (holders_of p scope group runs)
  unfolding holders_of
  holders_of-AreNamed [] all c m = elim m [ ]
  holders_of-AreNamed (run ∷ runs) all c m =
      let rest = holders_of-AreNamed runs (λ r at. all r (Memᴰ.tail at)) in
      let planned = holds (p.find run.status.conditions "Planned") in
      elim (Bool-cases (is_in_group p scope group run && planned)) [
        | inl taken ↦ elim (rw (taken, holders_of) at m) [
          | Memᴰ.head e ↦ rw e (all run (Memᴰ.head refl))
          | Memᴰ.tail t ↦ rest c t
        ]
        | inr left_out ↦ rest c (rw (left_out, holders_of) at m)
      ]

  waiters_of-AreNamed :
      (runs : List WorkflowRun) → RunsAreNamed p runs → AreNamed (waiters_of p scope group runs)
  unfolding waiters_of
  waiters_of-AreNamed [] all c m = elim m [ ]
  waiters_of-AreNamed (run ∷ runs) all c m =
      let rest = waiters_of-AreNamed runs (λ r at. all r (Memᴰ.tail at)) in
      let planned = p.find run.status.conditions "Planned" in
      let is_here = is_in_group p scope group run in
      elim (Bool-cases (is_here && not (holds planned) && waits_for_concurrency planned)) [
        | inl taken ↦ elim (rw (taken, waiters_of) at m) [
          | Memᴰ.head e ↦ rw e (all run (Memᴰ.head refl))
          | Memᴰ.tail t ↦ rest c t
        ]
        | inr left_out ↦ rest c (rw (left_out, waiters_of) at m)
      ]

  pub bootstrap-IsNamedIfAny :
      (runs : List WorkflowRun)
      → RunsAreNamed p runs
      → IsNamedIfAny (bootstrap p scope group runs).0
        × IsNamedIfAny (bootstrap p scope group runs).1
  unfolding bootstrap
  bootstrap-IsNamedIfAny runs all =
      let holders = sort_candidates (holders_of p scope group runs) in
      let waiters = sort_candidates (waiters_of p scope group runs) in
      let first =
        first-IsNamedIfAny holders
          (sort-AreNamed (holders_of p scope group runs) (holders_of-AreNamed runs all)) in
      let last =
        last-IsNamedIfAny waiters
          (sort-AreNamed (waiters_of p scope group runs) (waiters_of-AreNamed runs all)) in
      elim (Option-cases (first_member holders)) [
        | inl empty ↦ (rw (empty, bootstrap) last, rw (empty, bootstrap) (λ m e. absurd (cc)))
        | inr (h, found_one) ↦ (
          rw (found_one, bootstrap) (λ m e. first m (found_one ∙ e)),
          rw (found_one, bootstrap) last,
        )
      ]
