-- ===== src/Cache/Cleanup.antt =====
-- cleanupLocked: the entries that have expired go.
use open_actions.Base.{
  ℕ, ◌+◌, Bool, true, false, not, ◌&&◌, ◌||◌, ◌≡◌, ◌≢◌, ◌⊎◌, ◌<◌, inl, inr, refl, sym, arith, List,
  [], ◌∷◌, keep, eqb, eqb-eq, leb, Option, Bool-cases,
}
use open_actions.Cache.Room.{is_victim}
use open_actions.Cache.Room.Budget.{IsWellFormed}
use open_actions.Cache.Room.Invariant.{remove_all-IsWellFormed}
use open_actions.Cache.Store.{CacheError, Entry, Store, Removal, remove_all}
use mathlib.Core.List.{Memᴰ}

-- An entry that was not completed in time, or was not read for long, and is not in use.
unfoldable pub is_expired : Store → ℕ → Entry → Bool
is_expired s now e =
    (not e.finalized && leb (e.created_at + s.limits.upload_retention) now
      || e.finalized && leb (e.accessed_at + s.limits.retention) now)
    && eqb (s.active e.id) 0
    && not (s.committing e.id)

unfoldable pub entry_ids : List Entry → List ℕ
entry_ids [] = []
entry_ids (e ∷ es) = e.id ∷ entry_ids es

-- cleanupLocked. The removal of an entry does not change whether another one has expired.
unfoldable pub cleanup : (ℕ → Removal) → ℕ → Store → Store × Option CacheError
unfolding is_expired entry_ids
cleanup disk now s = remove_all disk (entry_ids (keep (is_expired s now) s.entries)) s

pub entry_ids-reason :
    (es : List Entry) (id : ℕ)
    → is_victim (entry_ids es) id ≡ true
    → (e : Entry) × Memᴰ e es × (e.id ≡ id)
unfolding entry_ids is_victim
entry_ids-reason [] id m = absurd (cc)
entry_ids-reason (x ∷ es) id m = elim (Bool-cases (eqb id x.id)) [
  | inl here ↦ (x, Memᴰ.head refl, sym (eqb-eq id x.id here))
  | inr other ↦ let (e, at, same) = entry_ids-reason es id (ground arith) in (e, Memᴰ.tail at, same)
]

-- The other way round, what keeps an entry: it is in use, or it is not old enough.
abbrev pub IsKept : Store → ℕ → Entry → Type 0
IsKept s now e =
    ((s.active e.id ≢ 0) ⊎ (s.committing e.id ≡ true))
    ⊎ (((e.finalized ≡ false) × (now < e.created_at + s.limits.upload_retention))
        ⊎ ((e.finalized ≡ true) × (now < e.accessed_at + s.limits.retention)))

module _ (s : Store) (now : ℕ) (formed : IsWellFormed s) where
  abbrev expired : List Entry
  expired = keep (is_expired s now) s.entries

-- Whatever the outcome, a cleanup leaves a well-formed store well formed.
pub cleanup-IsWellFormed :
    (disk : ℕ → Removal) (now : ℕ) (s : Store)
    → IsWellFormed s
    → IsWellFormed (cleanup disk now s).0
unfolding cleanup
cleanup-IsWellFormed disk now s formed =
    remove_all-IsWellFormed disk (entry_ids (keep (is_expired s now) s.entries)) s formed
