-- ===== src/Cache/Serve.antt =====
-- What makes an entry available and reads it: Finalize, Lookup, List and Open of
-- internal/cache/store.go. The order in which Go ranges over the map is that of the list.
use open_actions.Base.{
  ℕ, String, Bool, true, not, ◌&&◌, ◌||◌, ◌==◌, starts_with, List, [], ◌∷◌, keep, all, eqb, leb,
  ltb, length, if◌then◌else◌, Option, none, some,
}
use open_actions.Base.Dict.{mem}
use open_actions.Base.Result.{Result, ok, err}
use open_actions.Cache.Cleanup.{cleanup}
use open_actions.Cache.Policy.{Tenant, same_tenant}
use open_actions.Cache.Store.{CacheError, exists, not_found, invalid, Entry, Store, Removal}
use open_actions.Cache.Upload.{get_locked, same_key, save_entry, valid_key, and_then}

-- The first entry that a test selects.
unfoldable pub first : (Entry → Bool) → List Entry → Option Entry
first test [] = none
first test (e ∷ es) = if test e then some e else first test es

abbrev pub finalized_at : ℕ → Entry → Entry
finalized_at now e = record e { finalized = true; accessed_at = now }

-- `e.AccessedAt = s.now()`.
abbrev pub touched : ℕ → Entry → Entry
touched now e = record e { accessed_at = now }

-- Finalize, where an entry has the key.
unfoldable pub finalize_entry :
    ℕ → Bool → String → ℕ → Entry → Store → Store × Result CacheError Entry
unfolding save_entry
finalize_entry now saved owner size e s =
    if not (e.owner == owner)
    then (s, err exists)
    else if not e.uploaded || not (eqb e.size size)
    then (s, err invalid)
    else if e.finalized
    then (s, ok e)
    else save_entry saved (finalized_at now e) s

-- Finalize. A negative size is an error like another wrong size.
unfoldable pub finalize :
    ℕ
    → Bool
    → Tenant
    → String
    → String
    → String
    → String
    → ℕ
    → Store
    → Store × Result CacheError Entry
unfolding finalize_entry first
finalize now saved tenant ref owner key version size s =
    elim (first (same_key tenant ref key version) s.entries) [
      | none ↦ (s, err not_found)
      | some e ↦ finalize_entry now saved owner size e s
    ]

-- sort.Slice by the creation, the newest first.
unfoldable pub insert_newest : Entry → List Entry → List Entry
insert_newest e [] = e ∷ []
insert_newest e (x ∷ xs) =
    let later = insert_newest e xs in
    if leb x.created_at e.created_at then e ∷ x ∷ xs else x ∷ later

unfoldable pub sort_newest : List Entry → List Entry
unfolding insert_newest
sort_newest [] = []
sort_newest (e ∷ es) = insert_newest e (sort_newest es)

abbrev pub has_key : String → Entry → Bool
has_key key e = e.key == key

-- A candidate with the key, or with a key that begins with it.
unfoldable pub match_key : List Entry → String → Option Entry
unfolding first
match_key candidates prefix = elim (first (has_key prefix) candidates) [
  | some e ↦ some e
  | none ↦ first (λ e. starts_with e.key prefix) candidates
]

unfoldable pub match_keys : List Entry → List String → Option Entry
unfolding match_key
match_keys candidates [] = none
match_keys candidates (key ∷ keys) = elim (match_key candidates key) [
  | some e ↦ some e
  | none ↦ match_keys candidates keys
]

abbrev pub is_offered : Tenant → String → String → Entry → Bool
is_offered tenant ref version e =
    same_tenant e.tenant tenant && e.ref == ref && e.version == version && e.finalized

-- The loop of Lookup over the refs.
unfoldable pub match_refs : Tenant → List String → List String → String → List Entry → Option Entry
unfolding match_keys sort_newest
match_refs tenant [] keys version es = none
match_refs tenant (ref ∷ refs) keys version es =
    elim (match_keys (sort_newest (keep (is_offered tenant ref version) es)) keys) [
      | some e ↦ some e
      | none ↦ match_refs tenant refs keys version es
    ]

-- Lookup after its cleanup.
unfoldable pub look_up_entry :
    ℕ → Bool → Tenant → List String → List String → String → Store → Store × Result CacheError Entry
unfolding match_refs save_entry
look_up_entry now saved tenant refs keys version s =
    elim (match_refs tenant refs keys version s.entries) [
      | none ↦ (s, err not_found)
      | some e ↦ save_entry saved (touched now e) s
    ]

-- Lookup.
unfoldable pub look_up :
    (ℕ → Removal)
    → ℕ
    → Bool
    → Tenant
    → List String
    → String
    → String
    → List String
    → Store
    → Store × Result CacheError Entry
unfolding valid_key look_up_entry cleanup
look_up disk now saved tenant refs key version restore s =
    if not (valid_key key version)
      || ltb 10 (length restore)
      || not (all (λ prefix. valid_key prefix version) restore)
    then (s, err invalid)
    else and_then (cleanup disk now s) (look_up_entry now saved tenant refs (key ∷ restore) version)

-- List.
unfoldable pub list_entries :
    (ℕ → Removal)
    → ℕ
    → Tenant
    → List String
    → String
    → Store
    → Store × Result CacheError (List Entry)
unfolding sort_newest cleanup
list_entries disk now tenant refs prefix s = and_then (cleanup disk now s) (λ t. (
  t,
  ok (
      sort_newest (
        keep
          (λ e.
            same_tenant e.tenant tenant
            && e.finalized
            && mem e.ref refs
            && starts_with e.key prefix)
          t.entries)),
))

-- Open, without the file that it opens.
unfoldable pub open_entry : ℕ → Bool → Tenant → ℕ → Store → Store × Result CacheError Entry
unfolding get_locked save_entry
open_entry now saved tenant id s = elim (get_locked s tenant id) [
  | err e ↦ (s, err e)
  | ok e ↦ if e.finalized then save_entry saved (touched now e) s else (s, err not_found)
]
