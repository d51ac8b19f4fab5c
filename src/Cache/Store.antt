-- ===== src/Cache/Store.antt =====
-- The entries of the cache and their sizes: internal/cache/store.go. The map of the entries is a
-- list, keyed by the entries' IDs; the directory of an entry is not modelled, only whether it could
-- be removed. An instant is a number, and sizes are far below the range of int64.
use open_actions.Base.{
  ℕ, ◌+◌, String, Bool, true, false, not, List, [], ◌∷◌, keep, eqb, if◌then◌else◌, Option, none,
  some,
}
use open_actions.Cache.Policy.{Tenant, same_tenant}

pub data CacheError : Type 0 where
  exists not_found invalid limit disk_failure : CacheError

pub record Limits : Type 0 where
  pub max_entry_bytes : ℕ
  pub max_repository_bytes : ℕ
  pub max_total_bytes : ℕ
  pub retention : ℕ
  pub upload_retention : ℕ

pub record Entry : Type 0 where
  pub id : ℕ
  pub tenant : Tenant
  pub ref : String
  pub key : String
  pub version : String
  pub owner : String
  pub created_at : ℕ
  pub accessed_at : ℕ
  pub size : ℕ
  pub uploaded : Bool
  pub digest : String
  pub finalized : Bool
  pub blocks : List (String × ℕ)

pub record Store : Type 0 where
  pub limits : Limits
  pub entries : List Entry
  pub active : ℕ → ℕ
  pub reserved : ℕ → ℕ
  pub committing : ℕ → Bool

unfoldable pub blocks_size : List (String × ℕ) → ℕ
blocks_size [] = 0
blocks_size ((block, n) ∷ blocks) = n + blocks_size blocks

-- stagedSize.
unfoldable pub staged_size : Entry → ℕ
unfolding blocks_size
staged_size e = if e.uploaded then e.size else blocks_size e.blocks

-- What an entry takes, with what is on its way to it.
unfoldable pub charge : Store → Entry → ℕ
charge s e = staged_size e + s.reserved e.id

-- What the entries take that `test` selects.
unfoldable pub usage : (Entry → Bool) → Store → List Entry → ℕ
usage test s [] = 0
usage test s (e ∷ es) = let rest = usage test s es in if test e then charge s e + rest else rest

abbrev pub everyone : Entry → Bool
everyone e = true

abbrev pub of_tenant : Tenant → Entry → Bool
of_tenant t e = same_tenant e.tenant t

-- `!= id`, and `delete(m, id)` on a map whose missing keys read as `none`.
abbrev pub is_other : ℕ → Entry → Bool
is_other id e = not (eqb e.id id)

abbrev pub clear {ℓ} : {A : Type ℓ} → A → ℕ → (ℕ → A) → ℕ → A
clear zero_value id m k = if eqb k id then zero_value else m k

-- What becomes of the files of an entry: they stay, they go, or only `entry.json` goes.
pub data Removal : Type 0 where
  stays goes lingers : Removal

abbrev pub forget : ℕ → Store → Store
forget id s = record s {
  entries = keep (is_other id) s.entries;
  active = clear 0 id s.active;
  reserved = clear 0 id s.reserved;
  committing = clear false id s.committing;
}

-- remove: the store that it leaves, and its error.
unfoldable pub remove : Removal → ℕ → Store → Store × Option CacheError
remove stays id s = (s, some disk_failure)
remove goes id s = (forget id s, none)
remove lingers id s = (forget id s, some disk_failure)

-- The removals of a list of entries, up to the first error.
unfoldable pub remove_all : (ℕ → Removal) → List ℕ → Store → Store × Option CacheError
remove_all disk [] s = (s, none)
remove_all disk (id ∷ ids) s =
    let (next, e) = remove (disk id) id s in
    elim e [ none ↦ remove_all disk ids next | some failure ↦ (next, some failure) ]
