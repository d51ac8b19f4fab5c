-- ===== src/Cache/Steady.antt =====
-- The operations that remove, serve and commit entries leave the uploads in progress as they are.
use open_actions.Base.{
  ℕ, String, Bool, true, false, not, ◌||◌, ◌≡◌, inl, inr, refl, sym, ap, ◌∙◌, arith, List, [], ◌∷◌,
  keep, any, eqb, eqb_refl, reversed, starts_with, ◌==◌, Option, none, some, is_some, Bool-cases,
  Option-cases,
}
use open_actions.Base.Result.{Result}
use open_actions.Cache.Cleanup.{is_expired, entry_ids, entry_ids-reason, cleanup}
use open_actions.Cache.Policy.{Tenant}
use open_actions.Cache.Room.{is_candidate, is_victim, choose, make_room}
use open_actions.Cache.Room.Laws.{choose-IsWithin}
use open_actions.Cache.Room.Order.{mem-keep}
use open_actions.Cache.Room.Victims.{Removal-cases, remove_all_by, is_victim-reversed}
use open_actions.Cache.Sound.{
  IsSound, IsSound-IsWellFormed, Steady, Steady-refl, Steady-trans, save_entry-Steady,
  forget-Steady,
}
use open_actions.Cache.Store.{
  CacheError, Entry, Store, Removal, stays, goes, lingers, forget, remove, remove_all,
}
use open_actions.Cache.Upload.{
  find_entry, same_key, valid_key, new_entry, entry_id, add_entry, and_then, create,
}

remove_all-Steady :
    (disk : ℕ → Removal) (ids : List ℕ) (s : Store)
    → ((id : ℕ) → is_victim ids id ≡ true → s.active id ≡ 0)
    → IsSound s
    → Steady s (remove_all disk ids s).0
unfolding remove_all remove is_victim
remove_all-Steady disk [] s quiet sound = Steady-refl s sound
remove_all-Steady disk (id ∷ ids) s quiet sound =
    let steps = remove_all_by disk ids id s in
    let now = forget-Steady id s (quiet id (ground (arith, eqb_refl id))) sound in
    let next =
      remove_all-Steady disk ids (forget id s) (λ k m. (now.1 k).0 ∙ quiet k (ground (arith, m)))
        now.0 in
    elim (Removal-cases (disk id)) [
      | inl q ↦ rw (steps stays q) (Steady-refl s sound)
      | inr (inl q) ↦ rw (steps goes q) (Steady-trans s (forget id s) _ now next)
      | inr (inr q) ↦ rw (steps lingers q) now
    ]

pub make_room-Steady :
    (tenant : Tenant) (disk : ℕ → Removal) (s : Store) (added freed except : ℕ)
    → IsSound s
    → Steady s (make_room tenant disk s added freed except).0
unfolding make_room is_candidate
make_room-Steady tenant disk s added freed except sound =
    elim (Option-cases (choose tenant s added freed except)) [
      | inl full ↦ rw (full, make_room) (Steady-refl s sound)
      | inr (c, chosen) ↦
          let (fair, _) =
            choose-IsWithin s tenant added freed except (IsSound-IsWellFormed s sound) c chosen in
          rw (chosen, make_room)
            (remove_all-Steady disk (reversed c.victims) s
              (λ id m.
                let (e, _, same, may) =
                  fair.reason id (sym (is_victim-reversed c.victims id) ∙ m) in
                ap s.active (sym same) ∙ ground (arith, may))
              sound)
    ]

pub cleanup-Steady :
    (disk : ℕ → Removal) (now : ℕ) (s : Store) → IsSound s → Steady s (cleanup disk now s).0
unfolding cleanup is_expired
cleanup-Steady disk now s sound =
    remove_all-Steady disk (entry_ids (keep (is_expired s now) s.entries)) s
      (λ id m.
        let (e, at, same) = entry_ids-reason (keep (is_expired s now) s.entries) id m in
        let (_, old) = mem-keep (is_expired s now) s.entries e at in
        ap s.active (sym same) ∙ ground (arith, old))
      sound

-- What follows on a steady step.
pub and_then-Steady {ℓ} :
    {A : Type ℓ} (s : Store) (o : Store × Option CacheError)
    (f : Store → Store × Result CacheError A)
    → Steady s o.0
    → ((t : Store) → IsSound t → Steady t (f t).0)
    → Steady s (and_then o f).0
and_then-Steady s (t, none) f before later = Steady-trans s t (f t).0 before (later t before.0)
and_then-Steady s (t, some e) f before later = before

add_entry-Steady :
    (saved : Bool) (e : Entry) (s : Store)
    → e.finalized ≡ false
    → IsSound s
    → Steady s (add_entry saved e s).0
unfolding add_entry
add_entry-Steady saved e s new sound =
    elim (Bool-cases (
      any (same_key e.tenant e.ref e.key e.version) s.entries
      || is_some (find_entry e.id s.entries))) [
        | inl there ↦ rw there (Steady-refl s sound)
        | inr absent ↦
            rw absent (save_entry-Steady saved e s (λ done. ground (arith, done, new)) sound)
      ]

pub create-Steady :
    (disk : ℕ → Removal) (now random : ℕ) (saved : Bool) (tenant : Tenant)
    (ref owner key version : String) (s : Store)
    → IsSound s
    → Steady s (create disk now random saved tenant ref owner key version s).0
unfolding create new_entry
create-Steady disk now random saved tenant ref owner key version s sound =
    let e = new_entry (entry_id random) now tenant ref owner key version in
    elim (Bool-cases (
      tenant.project_uid == ""
      || eqb tenant.repository_id 0
      || not (starts_with ref "refs/")
      || owner == ""
      || not (valid_key key version))) [
        | inl bad ↦ rw bad (Steady-refl s sound)
        | inr good ↦ rw good (
            and_then-Steady s (cleanup disk now s) (add_entry saved e)
              (cleanup-Steady disk now s sound) (λ t later. add_entry-Steady saved e t refl later))
      ]
