-- ===== src/Cache/Room/Invariant.antt =====
-- Removals keep a store well formed.
use open_actions.Base.{ℕ, inl, inr, arith, List, [], ◌∷◌, Option-cases, reversed}
use open_actions.Cache.Policy.{Tenant}
use open_actions.Cache.Room.{make_room, choose}
use open_actions.Cache.Room.Budget.{IsWellFormed}
use open_actions.Cache.Room.Order.{mem-keep, keep-IsDistinct}
use open_actions.Cache.Room.Victims.{Removal-cases, remove_all_by}
use open_actions.Cache.Store.{
  Store, Removal, stays, goes, lingers, is_other, forget, remove, remove_all,
}

forget-IsWellFormed : (id : ℕ) (s : Store) → IsWellFormed s → IsWellFormed (forget id s)
forget-IsWellFormed id s formed = record {
  distinct = keep-IsDistinct (is_other id) s.entries formed.distinct;
  uploaded = λ e m done. formed.uploaded e (mem-keep (is_other id) s.entries e m).0 done;
  idle = λ e m quiet.
      let (at, other) = mem-keep (is_other id) s.entries e m in
      ground (arith, other, quiet, formed.idle e at);
}

pub remove_all-IsWellFormed :
    (disk : ℕ → Removal) (ids : List ℕ) (s : Store)
    → IsWellFormed s
    → IsWellFormed (remove_all disk ids s).0
unfolding remove_all remove
remove_all-IsWellFormed disk [] s formed = formed
remove_all-IsWellFormed disk (id ∷ ids) s formed =
    let steps = remove_all_by disk ids id s in
    let next = forget-IsWellFormed id s formed in
    elim (Removal-cases (disk id)) [
      | inl q ↦ rw (steps stays q) formed
      | inr (inl q) ↦ rw (steps goes q) (remove_all-IsWellFormed disk ids (forget id s) next)
      | inr (inr q) ↦ rw (steps lingers q) next
    ]

-- Whatever the outcome, makeRoomLocked leaves a well-formed store well formed.
pub make_room-IsWellFormed :
    (tenant : Tenant) (disk : ℕ → Removal) (s : Store) (added freed except : ℕ)
    → IsWellFormed s
    → IsWellFormed (make_room tenant disk s added freed except).0
unfolding make_room
make_room-IsWellFormed tenant disk s added freed except formed =
    elim (Option-cases (choose tenant s added freed except)) [
      | inl full ↦ rw (full, make_room) formed
      | inr (c, chosen) ↦
          rw (chosen, make_room) (remove_all-IsWellFormed disk (reversed c.victims) s formed)
    ]
