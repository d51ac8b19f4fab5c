-- ===== src/Cache/Tests.antt =====
-- The theorems at a store with room for ten bytes.
use open_actions.Base.{
  ℕ, ◌+◌, ◌≤◌, Bool, true, false, not, ◌&&◌, ◌||◌, ◌≡◌, ◌==◌, refl, ap, arith, [], ◌∷◌, none,
}
use open_actions.Base.Dict.{mem}
use open_actions.Base.Text.{◌⧺◌}
use open_actions.Cache.Policy.{Tenant, same_tenant, validates, resolve_access}
use open_actions.Cache.Policy.Laws.{resolve_access-reads, resolve_access-validates}
use open_actions.Cache.Room.{make_room, is_candidate, select_entry}
use open_actions.Cache.Room.Budget.{IsWellFormed}
use open_actions.Cache.Room.Laws.{make_room-fits, make_room-spares, make_room_idle}
use open_actions.Cache.Room.Order.{IsDistinct, nobody, another}
use open_actions.Cache.Store.{
  Entry, Store, Removal, goes, usage, charge, staged_size, everyone, of_tenant, remove, remove_all,
}
use open_actions.Base.{inl}
use mathlib.Core.List.{Memᴰ}

resolve_access-reads_example :
    mem "refs/heads/main" (resolve_access "push" "refs/heads/x" "" "main" "").read_refs ≡ (
      "refs/heads/main" == "refs/heads/x"
      || ("push" == "pull_request" && not ("" == "")) && "refs/heads/main" == "refs/heads/" ⧺ ""
      || not ("main" == "") && "refs/heads/main" == "refs/heads/" ⧺ "main")
resolve_access-reads_example =
    resolve_access-reads "push" "refs/heads/x" "" "main" "" "refs/heads/main"

resolve_access-validates_example :
    validates (resolve_access "push" "refs/heads/x" "" "main" "") ≡ true
resolve_access-validates_example =
    resolve_access-validates "push" "refs/heads/x" "" "main" "" refl refl

abbrev tenant : Tenant
tenant = record { project_uid = "p"; repository_id = 1 }

abbrev entry : ℕ → ℕ → Bool → Entry
entry id at finalized = record {
  id = id;
  tenant = tenant;
  ref = "refs/heads/main";
  key = "k";
  version = "v";
  owner = "o";
  created_at = 1;
  accessed_at = at;
  size = 4;
  uploaded = true;
  digest = "";
  finalized = finalized;
  blocks = [];
}

-- Two complete entries, and one that is not.
abbrev store : Store
store = record {
  limits = record {
    max_entry_bytes = 10;
    max_repository_bytes = 12;
    max_total_bytes = 12;
    retention = 100;
    upload_retention = 10;
  };
  entries = entry 1 6 true ∷ entry 2 5 true ∷ entry 3 4 false ∷ [];
  active = λ k. 0;
  reserved = λ k. 0;
  committing = λ k. false;
}

id_of : {x y : Entry} → x ≡ y → x.id ≡ y.id
id_of h = ap (λ (e : Entry). e.id) h

store-IsDistinct : IsDistinct store.entries
store-IsDistinct =
    another
      (λ x m. elim m [
        | Memᴰ.head h ↦ λ q. omega (arith, id_of h, q)
        | Memᴰ.tail (Memᴰ.head h) ↦ λ q. omega (arith, id_of h, q)
        | Memᴰ.tail (Memᴰ.tail t) ↦ elim t [ ]
      ])
      (another
        (λ x m. elim m [ Memᴰ.head h ↦ λ q. omega (arith, id_of h, q) | Memᴰ.tail t ↦ elim t [ ] ])
        (another (λ x m. elim m [ ]) nobody))

all_uploaded : (e : Entry) → Memᴰ e store.entries → e.uploaded ≡ true
all_uploaded e (Memᴰ.head h) = ap (λ (x : Entry). x.uploaded) h
all_uploaded e (Memᴰ.tail (Memᴰ.head h)) = ap (λ (x : Entry). x.uploaded) h
all_uploaded e (Memᴰ.tail (Memᴰ.tail (Memᴰ.head h))) = ap (λ (x : Entry). x.uploaded) h
all_uploaded e (Memᴰ.tail (Memᴰ.tail (Memᴰ.tail m))) = elim m [ ]

store-IsWellFormed : IsWellFormed store
store-IsWellFormed = record {
  distinct = store-IsDistinct;
  uploaded = λ e m done. all_uploaded e m;
  idle = λ e m quiet. refl;
}

abbrev disk : ℕ → Removal
disk id = goes

-- The older complete entry goes.
frees : (make_room tenant disk store 4 0 9).1 ≡ none
unfolding make_room remove_all remove usage charge staged_size same_tenant is_candidate select_entry
frees = refl

-- What is left of the store.
abbrev after : Store
after = (make_room tenant disk store 4 0 9).0

make_room-fits_example :
    (usage everyone after after.entries + 4 ≤ 12 + 0)
    × (usage (of_tenant tenant) after after.entries + 4 ≤ 12 + 0)
make_room-fits_example = make_room-fits tenant disk store 4 0 9 store-IsWellFormed frees

make_room-spares_example : Memᴰ (entry 3 4 false) after.entries
make_room-spares_example =
    make_room-spares tenant disk store 4 0 9 store-IsWellFormed (entry 3 4 false)
      (Memᴰ.tail (Memᴰ.tail (Memᴰ.head refl))) (inl (inl refl))

roomy : usage everyone store store.entries + 0 ≤ 12 + 0
unfolding usage charge staged_size
roomy = omega arith

roomy_own : usage (of_tenant tenant) store store.entries + 0 ≤ 12 + 0
unfolding usage charge staged_size same_tenant
roomy_own = omega arith

make_room_idle_example : make_room tenant disk store 0 0 9 ≡ (store, none)
make_room_idle_example = make_room_idle tenant disk store 0 0 9 roomy roomy_own
