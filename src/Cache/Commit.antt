-- ===== src/Cache/Commit.antt =====
-- Commit of internal/cache/store.go, by its critical sections: beginCommitLocked, publishCommit and
-- finishCommit. The copy of the blocks into one file lies between them.
use open_actions.Base.{
  ℕ, ◌+◌, String, Bool, true, false, not, ◌||◌, List, [], ◌∷◌, eqb, ltb, length, if◌then◌else◌,
  none, some,
}
use open_actions.Base.Dict.{mem, lookup}
use open_actions.Base.Result.{Result, ok, err, ◌>>=◌}
use open_actions.Cache.Policy.{Tenant}
use open_actions.Cache.Store.{CacheError, invalid, limit, Entry, Store, clear}
use open_actions.Cache.Upload.{get_locked, save_entry}

-- The sum of the blocks, each of which is there and named once.
unfoldable pub sum_blocks : Entry → List String → List String → ℕ → Result CacheError ℕ
sum_blocks e seen [] size = ok size
sum_blocks e seen (block ∷ blocks) size = elim (lookup block e.blocks) [
  | none ↦ err invalid
  | some n ↦ if mem block seen then err invalid else sum_blocks e (block ∷ seen) blocks (size + n)
]

-- What beginCommitLocked decides: the entry is there already, or it is copied.
pub data Plan : Type 0 where
  stands : Entry → Plan
  copies : Entry → Plan

unfoldable pub plan_commit : Store → Tenant → ℕ → List String → Result CacheError Plan
unfolding get_locked sum_blocks
plan_commit s tenant id blocks = do
  e ← get_locked s tenant id
  let busy =
      not (eqb (s.active id) 0)
      || s.committing id
      || eqb (length blocks) 0
      || ltb 50000 (length blocks)
  let measured = sum_blocks e [] blocks 0 >>= λ size.
      (if ltb s.limits.max_entry_bytes size
        then err limit
        else ok (copies (record e { size = size })))
  (if e.uploaded then ok (stands e) else if busy then err invalid else measured)

abbrev pub start_commit : ℕ → Store → Store
start_commit id s = record s { committing = λ k. if eqb k id then true else s.committing k }

-- beginCommitLocked.
unfoldable pub begin_commit : Tenant → ℕ → List String → Store → Store × Result CacheError Plan
unfolding plan_commit
begin_commit tenant id blocks s = elim (plan_commit s tenant id blocks) [
  | err e ↦ (s, err e)
  | ok (stands e) ↦ (s, ok (stands e))
  | ok (copies e) ↦ (start_commit id s, ok (copies e))
]

-- publishCommit; `kept` is whether the renaming and the saving succeed.
unfoldable pub publish_commit : Entry → Bool → Store → Store × Result CacheError Entry
unfolding save_entry
publish_commit e kept s = save_entry kept (record e { uploaded = true }) s

-- finishCommit.
unfoldable pub finish_commit : ℕ → Store → Store
finish_commit id s = record s { committing = clear false id s.committing }
