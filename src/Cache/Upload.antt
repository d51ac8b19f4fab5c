-- ===== src/Cache/Upload.antt =====
-- The life of an entry: Create, Stage, Commit, Finalize, Lookup, List and Open of
-- internal/cache/store.go. What the disk, the clock and the random source answer are arguments. A
-- call that gives the lock away between two critical sections is two definitions.
use open_actions.Base.{
  ℕ, suc, ◌+◌, ◌-◌, ◌%◌, String, Bool, true, false, not, ◌&&◌, ◌||◌, ◌==◌, starts_with, List, [],
  ◌∷◌, any, eqb, leb, ltb, length, if◌then◌else◌, Option, none, some, is_some,
}
use open_actions.Base.Dict.{lookup, insert}
use open_actions.Base.Result.{Result, ok, err, ◌>>=◌}
use open_actions.Base.Text.{runes, cut}
use open_actions.Cache.Cleanup.{cleanup}
use open_actions.Cache.Policy.{Tenant, same_tenant}
use open_actions.Cache.Room.{make_room}
use open_actions.Cache.Store.{
  CacheError, exists, not_found, invalid, limit, disk_failure, Entry, Store, staged_size, Removal,
}
use Prim.Native.String.{len}

-- `s.entries[id]`.
unfoldable pub find_entry : ℕ → List Entry → Option Entry
find_entry id [] = none
find_entry id (e ∷ es) = if eqb e.id id then some e else find_entry id es

-- `s.entries[e.ID] = e`.
unfoldable pub put_entry : Entry → List Entry → List Entry
put_entry e [] = e ∷ []
put_entry e (x ∷ es) = let later = put_entry e es in if eqb x.id e.id then e ∷ es else x ∷ later

abbrev pub with_entry : Entry → Store → Store
with_entry e s = record s { entries = put_entry e s.entries }

-- save, and `s.entries[e.ID] = e` where it does not fail.
unfoldable pub save_entry : Bool → Entry → Store → Store × Result CacheError Entry
unfolding put_entry
save_entry saved e s = if saved then (with_entry e s, ok e) else (s, err disk_failure)

-- getLocked.
unfoldable pub get_locked : Store → Tenant → ℕ → Result CacheError Entry
unfolding find_entry
get_locked s tenant id = elim (find_entry id s.entries) [
  | none ↦ err not_found
  | some e ↦ if same_tenant e.tenant tenant then ok e else err not_found
]

-- ValidateKey; a text is valid UTF-8 here.
unfoldable pub valid_key : String → String → Bool
valid_key key version = not (
    key == ""
    || ltb 512 (length (runes key))
    || is_some (cut 44 key)
    || version == ""
    || ltb 1024 (len version))

abbrev pub same_key : Tenant → String → String → String → Entry → Bool
same_key tenant ref key version e =
    same_tenant e.tenant tenant && e.ref == ref && e.key == key && e.version == version

-- The ID that Create makes of eight random bytes.
unfoldable pub entry_id : ℕ → ℕ
entry_id random = if eqb (random % 9007199254740992) 0 then 1 else random % 9007199254740992

unfoldable pub new_entry : ℕ → ℕ → Tenant → String → String → String → String → Entry
new_entry id now tenant ref owner key version = record {
  id = id;
  tenant = tenant;
  ref = ref;
  key = key;
  version = version;
  owner = owner;
  created_at = now;
  accessed_at = now;
  size = 0;
  uploaded = false;
  digest = "";
  finalized = false;
  blocks = [];
}

-- Create after its cleanup.
unfoldable pub add_entry : Bool → Entry → Store → Store × Result CacheError Entry
unfolding find_entry save_entry
add_entry saved e s =
    if any (same_key e.tenant e.ref e.key e.version) s.entries
      || is_some (find_entry e.id s.entries)
    then (s, err exists)
    else save_entry saved e s

-- What follows on a store, unless there was an error.
abbrev pub and_then {ℓ} :
    {A : Type ℓ}
    → Store × Option CacheError
    → (Store → Store × Result CacheError A)
    → Store × Result CacheError A
and_then (s, none) f = f s
and_then (s, some e) f = (s, err e)

-- Create.
unfoldable pub create :
    (ℕ → Removal)
    → ℕ
    → ℕ
    → Bool
    → Tenant
    → String
    → String
    → String
    → String
    → Store
    → Store × Result CacheError Entry
unfolding valid_key add_entry new_entry entry_id cleanup
create disk now random saved tenant ref owner key version s =
    let e = new_entry (entry_id random) now tenant ref owner key version in
    if tenant.project_uid == ""
      || eqb tenant.repository_id 0
      || not (starts_with ref "refs/")
      || owner == ""
      || not (valid_key key version)
    then (s, err invalid)
    else and_then (cleanup disk now s) (add_entry saved e)

-- `e.Blocks[block]`.
abbrev pub block_size : Entry → String → ℕ
block_size e block = elim (lookup block e.blocks) [ none ↦ 0 | some n ↦ n ]

-- What the first critical section of Stage lets the call do: send the body, or compare it with a
-- blob that was staged before.
pub data Admission : Type 0 where
  sends : Entry → Admission
  compares : Admission

-- Its tests before makeRoomLocked.
unfoldable pub admit : Store → Tenant → ℕ → String → ℕ → Result CacheError Admission
unfolding get_locked staged_size
admit s tenant id block size = do
  e ← get_locked s tenant id
  let used = (staged_size e + s.reserved id) - (if block == "" then 0 else block_size e block)
  let repeats = not e.finalized && block == "" && eqb size e.size && not (e.digest == "")
  let crowded =
      not (block == "") && leb 50000 (length e.blocks) && not (is_some (lookup block e.blocks))
  let checked =
      (if crowded
        then err limit
        else if ltb s.limits.max_entry_bytes (size + used)
        then err limit
        else ok (sends e))
  (if s.committing id
      then err exists
      else if e.uploaded
      then (if repeats then ok compares else err exists)
      else checked)

abbrev pub count_upload : ℕ → ℕ → Store → Store
count_upload id size s = record s {
  active = λ k. if eqb k id then suc (s.active k) else s.active k;
  reserved = λ k. if eqb k id then s.reserved k + size else s.reserved k;
}

abbrev pub end_upload : ℕ → ℕ → Store → Store
end_upload id size s = record s {
  active = λ k. if eqb k id then s.active k - 1 else s.active k;
  reserved = λ k. if eqb k id then s.reserved k - size else s.reserved k;
}

-- The first critical section of Stage.
unfoldable pub begin_stage :
    (ℕ → Removal) → Tenant → ℕ → String → ℕ → Store → Store × Result CacheError Admission
unfolding admit make_room
begin_stage disk tenant id block size s =
    if ltb 1024 (len block) || ltb s.limits.max_entry_bytes size
    then (s, err invalid)
    else elim (admit s tenant id block size) [
      | err e ↦ (s, err e)
      | ok compares ↦ (s, ok compares)
      | ok (sends e) ↦
          and_then (make_room tenant disk s size (block_size e block) id)
            (λ t. (count_upload id size t, ok (sends e)))
    ]

abbrev pub staged_blob : ℕ → String → Entry → Entry
staged_blob size digest e = record e { uploaded = true; digest = digest; size = size }

abbrev pub staged_block : String → ℕ → Entry → Entry
staged_block block size e = record e { blocks = insert block size e.blocks }

-- The second critical section of Stage, on the entry: `copied` is the digest of the body or the error
-- of its copy, `kept` whether the renaming and the saving succeed. A block goes into the map of the
-- entry that the store holds before the two are tried. It is so for an entry with a map, as Create
-- makes it; one that was read from the disk without blocks has none, and a failure would leave its
-- block out, which is not modelled.
unfoldable pub store_staged :
    Entry → String → ℕ → String → Bool → Store → Store × Result CacheError (Unit {0})
unfolding put_entry
store_staged e block size digest kept s =
    if e.uploaded || e.finalized
    then (s, err exists)
    else if block == ""
    then (if not (eqb (length e.blocks) 0)
        then (s, err invalid)
        else if kept
        then (with_entry (staged_blob size digest e) s, ok tt)
        else (s, err disk_failure))
    else (with_entry (staged_block block size e) s, if kept then ok tt else err disk_failure)

-- The second critical section of Stage. The files of an entry that is gone are gone with it, so that
-- the renaming fails.
unfoldable pub end_stage :
    ℕ → String → ℕ → Result CacheError String → Bool → Store → Store × Result CacheError (Unit {0})
unfolding store_staged find_entry
end_stage id block size copied kept s =
    let t = end_upload id size s in
    elim copied [
      | err e ↦ (t, err e)
      | ok digest ↦ elim (find_entry id t.entries) [
        | none ↦ (t, err disk_failure)
        | some e ↦ store_staged e block size digest kept t
      ]
    ]
