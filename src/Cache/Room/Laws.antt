-- ===== src/Cache/Room/Laws.antt =====
-- What makeRoomLocked leaves fits the limits, and what it takes may go.
use open_actions.Base.{
  ℕ, ◌<◌, ◌+◌, ◌≤◌, true, false, ◌≡◌, ◌≢◌, ◌⊎◌, inl, inr, refl, sym, ap, ◌∙◌, arith, List, [], ◌∷◌,
  keep, leb, leb-le, eqb_refl, Bool-cases, Option-cases, reversed, none, some,
}
use open_actions.Cache.Policy.{Tenant}
use open_actions.Cache.Room.{
  is_candidate, Choice, is_victim, select_own, select_any, choose, make_room, sort_entries,
}
use open_actions.Cache.Room.Budget.{
  IsWellFormed, IsFair, AreCandidates, select_own-IsFair, select_any-IsFair,
}
use open_actions.Cache.Room.Order.{
  IsDistinct-same, mem-sort_entries, mem-keep, keep-IsDistinct, sort_entries-IsDistinct,
}
use open_actions.Cache.Store.{Entry, Store, usage, everyone, of_tenant, Removal, remove_all}
use mathlib.Core.List.{Memᴰ}
use open_actions.Cache.Room.Victims.{
  left_nil, usage-remove_all, remove_all-spares, is_victim-reversed, left-reversed,
}

nobody_left : (id : ℕ) → is_victim [] id ≡ false
unfolding is_victim
nobody_left id = refl

nobody_chosen : (id : ℕ) → is_victim [] id ≢ true
unfolding is_victim
nobody_chosen id e = cc

abbrev pub IsWithin : Store → Tenant → Choice → ℕ → ℕ → Type 0
IsWithin s tenant c added freed =
    (c.total + added ≤ s.limits.max_total_bytes + freed)
    × (c.repository + added ≤ s.limits.max_repository_bytes + freed)

pub choose-IsWithin :
    (s : Store) (tenant : Tenant) (added freed except : ℕ) (formed : IsWellFormed s) (c : Choice)
    → choose tenant s added freed except ≡ some c
    → IsFair s tenant except formed c × IsWithin s tenant c added freed
unfolding choose
choose-IsWithin s tenant added freed except formed c e =
    let candidates = sort_entries (keep (is_candidate s except) s.entries) in
    let distinct =
      sort_entries-IsDistinct _
        (keep-IsDistinct (is_candidate s except) s.entries formed.distinct) in
    let can : AreCandidates s tenant except formed candidates =
      λ x m. mem-keep (is_candidate s except) s.entries x (mem-sort_entries _ x m) in
    let begin : Choice = record {
      total = usage everyone s s.entries;
      repository = usage (of_tenant tenant) s s.entries;
      victims = [];
    } in
    let fair : IsFair s tenant except formed begin = record {
      total = ap (usage everyone s) (sym (left_nil s.entries));
      repository = ap (usage (of_tenant tenant) s) (sym (left_nil s.entries));
      reason = λ id m. absurd (nobody_chosen id m);
    } in
    let own_fair =
      select_own-IsFair s tenant except formed added (s.limits.max_repository_bytes + freed)
        candidates begin distinct can (λ x m. nobody_left x.id) fair in
    let (all_fair, less) =
      select_any-IsFair s tenant except formed added (s.limits.max_total_bytes + freed) candidates
        (select_own tenant added (s.limits.max_repository_bytes + freed) candidates begin) can
        own_fair in
    let own = select_own tenant added (s.limits.max_repository_bytes + freed) candidates begin in
    let all = select_any tenant added (s.limits.max_total_bytes + freed) candidates own in
    elim (Bool-cases (leb (own.repository + added) (s.limits.max_repository_bytes + freed))) [
      | inr over ↦ absurd (ground (arith, over, e))
      | inl own_fits ↦
          elim (Bool-cases (leb (all.total + added) (s.limits.max_total_bytes + freed))) [
            | inr over ↦ absurd (ground (arith, over, own_fits, e))
            | inl all_fits ↦
                let same : all ≡ c = ground (arith, all_fits, own_fits, e) in
                rw (← same)
                  (all_fair, (leb-le _ _ all_fits, omega (arith, less, leb-le _ _ own_fits)))
          ]
    ]

select_own_idle :
    (tenant : Tenant) (added allowed : ℕ) (es : List Entry) (c : Choice)
    → c.repository + added ≤ allowed
    → select_own tenant added allowed es c ≡ c
unfolding select_own
select_own_idle tenant added allowed [] c h = refl
select_own_idle tenant added allowed (e ∷ es) c h = ground arith

select_any_idle :
    (tenant : Tenant) (added allowed : ℕ) (es : List Entry) (c : Choice)
    → c.total + added ≤ allowed
    → select_any tenant added allowed es c ≡ c
unfolding select_any
select_any_idle tenant added allowed [] c h = refl
select_any_idle tenant added allowed (e ∷ es) c h = ground arith

module _ (tenant : Tenant) (disk : ℕ → Removal) (s : Store) (added freed except : ℕ)
    (formed : IsWellFormed s) where
  choose-cases :
      (choose tenant s added freed except ≡ none)
      ⊎ ((c : Choice) × (choose tenant s added freed except ≡ some c))
  choose-cases = Option-cases (choose tenant s added freed except)

  -- Where makeRoomLocked ends without an error on a well-formed store, the upload fits: what the
  -- entries of the store then take, with what comes in, is within the limit for all, and so is
  -- the tenant's share within the limit for one repository. What comes in is `added` less
  -- `freed`.
  pub make_room-fits :
      (make_room tenant disk s added freed except).1 ≡ none
      → let r = (make_room tenant disk s added freed except).0 in
        (usage everyone r r.entries + added ≤ s.limits.max_total_bytes + freed)
        × (usage (of_tenant tenant) r r.entries + added ≤ s.limits.max_repository_bytes + freed)
  unfolding make_room
  make_room-fits done = elim choose-cases [
    | inl full ↦ absurd (ground arith)
    | inr (c, chosen) ↦
        let (fair, (total, repository)) =
          choose-IsWithin s tenant added freed except formed c chosen in
        let gone : (remove_all disk (reversed c.victims) s).1 ≡ none =
          rw (chosen, make_room) at done in
        let ids = reversed c.victims in
        let same = left-reversed c.victims s.entries in
        let all = usage-remove_all everyone disk ids s gone ∙ ap (usage everyone s) same in
        let own =
          usage-remove_all (of_tenant tenant) disk ids s gone
          ∙ ap (usage (of_tenant tenant) s) same in
        rw (chosen, make_room)
          (omega (arith, total, fair.total, all), omega (arith, repository, fair.repository, own))
  ]

  spares_no_candidate :
      (e : Entry)
      → Memᴰ e s.entries
      → is_candidate s except e ≡ false
      → Memᴰ e (make_room tenant disk s added freed except).0.entries
  unfolding make_room
  spares_no_candidate e at busy = elim choose-cases [
    | inl full ↦ rw (full, make_room) at
    | inr (c, chosen) ↦
        let (fair, _) = choose-IsWithin s tenant added freed except formed c chosen in
        let safe : is_victim c.victims e.id ≡ false = elim (Bool-cases (is_victim c.victims e.id)) [
          | inr other ↦ other
          | inl victim ↦
              let (x, there, same, may) = fair.reason e.id victim in
              let one = IsDistinct-same formed.distinct there at same in
              absurd (ground (arith, ap (is_candidate s except) one))
        ] in
        rw (chosen, make_room)
          (remove_all-spares disk (reversed c.victims) s e at
            (is_victim-reversed c.victims e.id ∙ safe))
  ]

  no_candidate :
      (e : Entry)
      → ((e.finalized ≡ false) ⊎ (e.id ≡ except))
        ⊎ ((0 < s.active e.id) ⊎ (s.committing e.id ≡ true))
      → is_candidate s except e ≡ false
  unfolding is_candidate
  no_candidate e (inl (inl partial)) = ground arith
  no_candidate e (inl (inr own)) = ground (arith, eqb_refl except)
  no_candidate e (inr (inl busy)) = ground arith
  no_candidate e (inr (inr busy)) = ground arith

  -- Whatever the outcome on a well-formed store, makeRoomLocked keeps each entry that is not
  -- complete, or is in use, or is the one that the upload belongs to.
  pub make_room-spares :
      (e : Entry)
      → Memᴰ e s.entries
      → ((e.finalized ≡ false) ⊎ (e.id ≡ except))
        ⊎ ((0 < s.active e.id) ⊎ (s.committing e.id ≡ true))
      → Memᴰ e (make_room tenant disk s added freed except).0.entries
  make_room-spares e at needed = spares_no_candidate e at (no_candidate e needed)

-- An upload that fits the store as it is costs no entry.
pub make_room_idle :
    (tenant : Tenant) (disk : ℕ → Removal) (s : Store) (added freed except : ℕ)
    → usage everyone s s.entries + added ≤ s.limits.max_total_bytes + freed
    → usage (of_tenant tenant) s s.entries + added ≤ s.limits.max_repository_bytes + freed
    → make_room tenant disk s added freed except ≡ (s, none)
unfolding make_room choose remove_all
make_room_idle tenant disk s added freed except total own =
    let candidates = sort_entries (keep (is_candidate s except) s.entries) in
    let begin : Choice = record {
      total = usage everyone s s.entries;
      repository = usage (of_tenant tenant) s s.entries;
      victims = [];
    } in
    let first =
      select_own_idle tenant added (s.limits.max_repository_bytes + freed) candidates begin own in
    let second =
      select_any_idle tenant added (s.limits.max_total_bytes + freed) candidates begin total in
    let chosen : choose tenant s added freed except ≡ some begin =
      rw (choose, first, second) (ground arith) in
    rw (chosen, make_room) refl
