-- ===== src/Cache/System/Tests.antt =====
-- The life of one entry on an empty store, and instances of the theorems on the way.
use open_actions.Base.{ℕ, String, true, false, ◌≡◌, refl, [], ◌∷◌, any}
use open_actions.Base.Dict.{lookup, insert}
use open_actions.Base.Result.{ok, err}
use open_actions.Base.Text.{runes, cut}
use open_actions.Cache.Cleanup.{cleanup, is_expired, entry_ids}
use open_actions.Cache.Commit.{
  copies, sum_blocks, plan_commit, begin_commit, publish_commit, finish_commit,
}
use open_actions.Cache.Offer.{MayRead, answers, look_up-MayRead, look_up_entry_complete}
use open_actions.Cache.Policy.{Tenant, same_tenant}
use open_actions.Cache.Room.{
  is_candidate, is_victim, select_own, select_any, sort_entries, choose, make_room,
}
use open_actions.Cache.Room.Budget.{IsWellFormed}
use open_actions.Cache.Room.Order.{nobody}
use open_actions.Cache.Serve.{
  is_offered, first, finalize_entry, finalize, insert_newest, sort_newest, match_key, match_keys,
  match_refs, look_up_entry, look_up,
}
use open_actions.Cache.Store.{
  not_found, Entry, Store, Removal, goes, blocks_size, staged_size, charge, usage, remove_all,
}
use open_actions.Cache.System.{
  Flight, uploads, bytes, Reach, begins, then_step, created, stage_begun, stage_ended, commit_begun,
  commit_published, commit_finished, finalized,
}
use open_actions.Cache.System.Laws.{Reach-IsWellFormed}
use open_actions.Cache.Upload.{
  sends, find_entry, put_entry, save_entry, get_locked, valid_key, entry_id, new_entry, add_entry,
  create, admit, begin_stage, store_staged, end_stage,
}
use mathlib.Core.List.{Memᴰ}

abbrev tenant : Tenant
tenant = record { project_uid = "p"; repository_id = 1 }

abbrev empty : Store
empty = record {
  limits = record {
    max_entry_bytes = 10;
    max_repository_bytes = 12;
    max_total_bytes = 12;
    retention = 100;
    upload_retention = 10;
  };
  entries = [];
  active = λ k. 0;
  reserved = λ k. 0;
  committing = λ k. false;
}

empty-IsWellFormed : IsWellFormed empty
empty-IsWellFormed = record {
  distinct = nobody;
  uploaded = λ e m done. elim m [ ];
  idle = λ e m quiet. refl;
}

abbrev disk : ℕ → Removal
disk id = goes

abbrev main : String
main = "refs/heads/main"

abbrev with_one : Store
with_one = (create disk 5 7 true tenant main "o" "go-1" "v" empty).0

-- Two blocks are staged, committed and finalized.
abbrev staged_one : Store
staged_one = (end_stage 7 "a" 3 (ok "d") true (begin_stage disk tenant 7 "a" 3 with_one).0).0

abbrev staged_two : Store
staged_two = (end_stage 7 "b" 4 (ok "d") true (begin_stage disk tenant 7 "b" 4 staged_one).0).0

abbrev new : Entry
new = new_entry 7 5 tenant main "o" "go-1" "v"

abbrev staged : Entry
staged = record new { blocks = ("a", 3) ∷ ("b", 4) ∷ [] }

abbrev committed : Store
committed =
    finish_commit 7
      (publish_commit (record staged { size = 7 }) true
        (begin_commit tenant 7 ("a" ∷ "b" ∷ []) staged_two).0).0

abbrev complete : Store
complete = (finalize 6 true tenant main "o" "go-1" "v" 7 committed).0

abbrev found : Entry
found = record staged { size = 7; uploaded = true; finalized = true; accessed_at = 8 }

commit_runs :
    (begin_commit tenant 7 ("a" ∷ "b" ∷ []) staged_two).1 ≡ ok (copies (record staged { size = 7 }))
unfolding create valid_key cut runes entry_id new_entry add_entry find_entry put_entry save_entry
    cleanup is_expired entry_ids remove_all begin_stage admit get_locked staged_size blocks_size
    charge usage make_room choose is_candidate select_own select_any sort_entries is_victim
    same_tenant end_stage store_staged lookup insert begin_commit plan_commit sum_blocks
commit_runs = refl

look_up_runs :
    (look_up disk 8 true tenant (main ∷ []) "go-2" "v" ("go-" ∷ []) complete).1 ≡ ok found
unfolding create valid_key cut runes entry_id new_entry add_entry find_entry put_entry save_entry
    cleanup is_expired entry_ids remove_all begin_stage admit get_locked staged_size blocks_size
    charge usage make_room choose is_candidate select_own select_any sort_entries is_victim
    same_tenant end_stage store_staged lookup insert begin_commit plan_commit sum_blocks
    publish_commit finish_commit finalize finalize_entry first insert_newest sort_newest match_key
    match_keys match_refs look_up_entry look_up
look_up_runs = refl

stage_admitted : (begin_stage disk tenant 7 "a" 3 with_one).1 ≡ ok (sends new)
unfolding create valid_key cut runes entry_id new_entry add_entry find_entry put_entry save_entry
    cleanup is_expired entry_ids remove_all begin_stage admit get_locked staged_size blocks_size
    charge usage make_room choose is_candidate select_own select_any sort_entries is_victim
    same_tenant lookup
stage_admitted = refl

second_admitted :
    (begin_stage disk tenant 7 "b" 4 staged_one).1
    ≡ ok (sends (record new { blocks = ("a", 3) ∷ [] }))
unfolding create valid_key cut runes entry_id new_entry add_entry find_entry put_entry save_entry
    cleanup is_expired entry_ids remove_all begin_stage admit get_locked staged_size blocks_size
    charge usage make_room choose is_candidate select_own select_any sort_entries is_victim
    same_tenant lookup end_stage store_staged insert
second_admitted = refl

abbrev flight : String → ℕ → Flight
flight block size = record { id = 7; block = block; size = size }

-- The first block is on its way, and the second one.
first_sent : Reach ((begin_stage disk tenant 7 "a" 3 with_one).0, flight "a" 3 ∷ [])
first_sent =
    then_step
      (then_step (begins empty-IsWellFormed (λ k. (refl, refl)))
        (created disk 5 7 true tenant main "o" "go-1" "v"))
      (stage_begun disk tenant 7 "a" 3 new stage_admitted)

second_sent : Reach ((begin_stage disk tenant 7 "b" 4 staged_one).0, flight "b" 4 ∷ [])
second_sent =
    then_step (then_step first_sent (stage_ended [] (flight "a" 3) [] (ok "d") true))
      (stage_begun disk tenant 7 "b" 4 (record new { blocks = ("a", 3) ∷ [] }) second_admitted)

completed : Reach (complete, [])
completed =
    then_step
      (then_step
        (then_step
          (then_step (then_step second_sent (stage_ended [] (flight "b" 4) [] (ok "d") true))
            (commit_begun tenant 7 ("a" ∷ "b" ∷ [])))
          (commit_published (record staged { size = 7 }) true))
        (commit_finished 7))
      (finalized 6 true tenant main "o" "go-1" "v" 7)

Reach-IsWellFormed_example :
    IsWellFormed complete
    × ((k : ℕ) → (complete.active k ≡ uploads k []) × (complete.reserved k ≡ bytes k []))
Reach-IsWellFormed_example = Reach-IsWellFormed complete [] completed

complete-IsWellFormed : IsWellFormed complete
complete-IsWellFormed = (Reach-IsWellFormed complete [] completed).0

look_up-MayRead_example : MayRead tenant (main ∷ []) ("go-2" ∷ "go-" ∷ []) "v" found
look_up-MayRead_example =
    look_up-MayRead disk 8 true tenant (main ∷ []) "go-2" "v" ("go-" ∷ []) complete found
      complete-IsWellFormed look_up_runs

abbrev serving : Store
serving = record empty { entries = found ∷ [] }

misses : (look_up_entry 9 true tenant (main ∷ []) ("npm" ∷ []) "v" serving).1 ≡ err not_found
unfolding look_up_entry new_entry match_refs match_keys match_key first sort_newest insert_newest
    same_tenant
misses = refl

found-is_offered : is_offered tenant main "v" found ≡ true
unfolding new_entry same_tenant
found-is_offered = refl

look_up_entry_complete_example : any (answers found) ("npm" ∷ []) ≡ false
look_up_entry_complete_example =
    look_up_entry_complete 9 true tenant (main ∷ []) ("npm" ∷ []) "v" serving misses main found refl
      (Memᴰ.head refl) found-is_offered
