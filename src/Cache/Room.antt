-- ===== src/Cache/Room.antt =====
-- makeRoomLocked: which entries go so that an upload fits.
pub mod Order
pub mod Budget
pub mod Victims
pub mod Invariant
pub mod Laws
use open_actions.Base.{
  ℕ, zero, suc, ◌+◌, ◌-◌, Bool, true, false, not, ◌&&◌, List, [], ◌∷◌, keep, any, eqb, leb,
  reversed, if◌then◌else◌, Option, none, some,
}
use open_actions.Cache.Policy.{Tenant}
use open_actions.Cache.Store.{
  CacheError, limit, Entry, Store, usage, everyone, of_tenant, Removal, remove_all,
}

-- The entries that may go: complete, and not in use.
unfoldable pub is_candidate : Store → ℕ → Entry → Bool
is_candidate s except e =
    e.finalized && not (eqb e.id except) && eqb (s.active e.id) 0 && not (s.committing e.id)

-- sort.Slice by the last access, the oldest first.
unfoldable pub insert_entry : Entry → List Entry → List Entry
insert_entry e [] = e ∷ []
insert_entry e (x ∷ xs) =
    let later = insert_entry e xs in
    if leb e.accessed_at x.accessed_at then e ∷ x ∷ xs else x ∷ later

unfoldable pub sort_entries : List Entry → List Entry
unfolding insert_entry
sort_entries [] = []
sort_entries (e ∷ es) = insert_entry e (sort_entries es)

-- The variables of makeRoomLocked; `selected` holds the same IDs as `victims`.
pub record Choice : Type 0 where
  pub total : ℕ
  pub repository : ℕ
  pub victims : List ℕ

unfoldable pub is_victim : List ℕ → ℕ → Bool
is_victim victims id = any (eqb id) victims

module _ (tenant : Tenant) where
  -- selectEntry.
  unfoldable pub select_entry : Entry → Choice → Choice
  select_entry e c = record {
    total = c.total - e.size;
    repository = if of_tenant tenant e then c.repository - e.size else c.repository;
    victims = e.id ∷ c.victims;
  }

  -- The first loop, over the tenant's own entries. What comes in is `added - freed`, which may be
  -- negative, so that `freed` stands on the other side.
  unfoldable pub select_own : ℕ → ℕ → List Entry → Choice → Choice
  select_own added allowed [] c = c
  select_own added allowed (e ∷ es) c =
      let skip = select_own added allowed es c in
      let take = select_own added allowed es (select_entry e c) in
      if leb (c.repository + added) allowed then c else if of_tenant tenant e then take else skip

  -- The second loop, over all of them.
  unfoldable pub select_any : ℕ → ℕ → List Entry → Choice → Choice
  select_any added allowed [] c = c
  select_any added allowed (e ∷ es) c =
      let skip = select_any added allowed es c in
      let take = select_any added allowed es (select_entry e c) in
      if leb (c.total + added) allowed then c else if is_victim c.victims e.id then skip else take

  -- What makeRoomLocked selects, or its ErrLimit.
  unfoldable pub choose : Store → ℕ → ℕ → ℕ → Option Choice
  unfolding select_own select_any sort_entries
  choose s added freed except =
      let candidates = sort_entries (keep (is_candidate s except) s.entries) in
      let own = select_own added (s.limits.max_repository_bytes + freed) candidates (record {
        total = usage everyone s s.entries;
        repository = usage (of_tenant tenant) s s.entries;
        victims = [];
      }) in
      let all = select_any added (s.limits.max_total_bytes + freed) candidates own in
      if not (leb (own.repository + added) (s.limits.max_repository_bytes + freed))
      then none
      else if not (leb (all.total + added) (s.limits.max_total_bytes + freed))
      then none
      else some all

  -- makeRoomLocked, whose victims go in the order in which they were selected.
  unfoldable pub make_room : (ℕ → Removal) → Store → ℕ → ℕ → ℕ → Store × Option CacheError
  unfolding choose
  make_room disk s added freed except = elim (choose s added freed except) [
    | none ↦ (s, some limit)
    | some c ↦ remove_all disk (reversed c.victims) s
  ]
