-- ===== src/Cache/Serving.antt =====
-- Finalize, Lookup, List and Open leave the uploads in progress as they are.
use open_actions.Base.{
  ℕ, String, Bool, true, false, not, ◌||◌, ◌≡◌, ◌⊎◌, inl, inr, ap, ◌∙◌, arith, List, [], ◌∷◌, keep,
  all, eqb, eqb-eq, ltb, length, leb, eq_refl, starts_with, ◌==◌, some, Bool-cases, Option-cases,
  if◌then◌else◌,
}
use open_actions.Base.Dict.{mem}
use open_actions.Base.Result.{Result, ok, err, Result-cases}
use open_actions.Cache.Cleanup.{cleanup}
use open_actions.Cache.Policy.{Tenant}
use open_actions.Cache.Room.Order.{mem-keep}
use open_actions.Cache.Serve.{
  first, finalized_at, touched, finalize_entry, finalize, match_key, match_keys, match_refs,
  is_offered, insert_newest, sort_newest, look_up_entry, look_up, list_entries, open_entry,
}
use open_actions.Cache.Sound.{IsSound, Steady, Steady-refl, save_entry-Steady}
use open_actions.Cache.Store.{CacheError, not_found, Entry, Store, Removal}
use open_actions.Cache.Upload.{find_entry, get_locked, save_entry, same_key, valid_key}
use open_actions.Cache.Steady.{and_then-Steady, cleanup-Steady}
use mathlib.Core.List.{Memᴰ}

first-mem : (test : Entry → Bool) (es : List Entry) (e : Entry) → first test es ≡ some e → Memᴰ e es
unfolding first
first-mem test [] e h = absurd (cc)
first-mem test (x ∷ es) e h = elim (Bool-cases (test x)) [
  | inl here ↦ Memᴰ.head (ground (arith, here, h))
  | inr other ↦ Memᴰ.tail (first-mem test es e (ground (arith, other, h)))
]

pub find_entry-mem :
    (id : ℕ) (es : List Entry) (e : Entry) → find_entry id es ≡ some e → Memᴰ e es × (e.id ≡ id)
unfolding find_entry
find_entry-mem id [] e h = absurd (cc)
find_entry-mem id (x ∷ es) e h = elim (Bool-cases (eqb x.id id)) [
  | inl here ↦
      let same : e ≡ x = ground (arith, here, h) in
      (Memᴰ.head same, ap (λ (z : Entry). z.id) same ∙ eqb-eq x.id id here)
  | inr other ↦
      let (m, same) = find_entry-mem id es e (ground (arith, other, h)) in (Memᴰ.tail m, same)
]

pub get_locked-mem :
    (s : Store) (tenant : Tenant) (id : ℕ) (e : Entry)
    → get_locked s tenant id ≡ ok e
    → Memᴰ e s.entries × (e.id ≡ id)
unfolding get_locked
get_locked-mem s tenant id e h = elim (Option-cases (find_entry id s.entries)) [
  | inl missing ↦ absurd (ground (arith, missing, h))
  | inr (x, found) ↦
      let same : x ≡ e = ground (arith, found, h) in
      find_entry-mem id s.entries e (found ∙ ap some same)
]

finalize_entry-Steady :
    (now : ℕ) (saved : Bool) (owner : String) (size : ℕ) (e : Entry) (s : Store)
    → IsSound s
    → Steady s (finalize_entry now saved owner size e s).0
unfolding finalize_entry
finalize_entry-Steady now saved owner size e s sound = elim (Bool-cases (e.owner == owner)) [
  | inr foreign ↦ rw foreign (Steady-refl s sound)
  | inl own ↦ elim (Bool-cases (not e.uploaded || not (eqb e.size size))) [
    | inl bad ↦ rw (own, bad) (Steady-refl s sound)
    | inr good ↦ elim (Bool-cases e.finalized) [
      | inl done ↦ rw (own, good, done) (Steady-refl s sound)
      | inr open_still ↦
          rw (own, good, open_still)
            (save_entry-Steady saved (finalized_at now e) s (λ h. ground (arith, good)) sound)
    ]
  ]
]

pub finalize-Steady :
    (now : ℕ) (saved : Bool) (tenant : Tenant) (ref owner key version : String) (size : ℕ)
    (s : Store)
    → IsSound s
    → Steady s (finalize now saved tenant ref owner key version size s).0
unfolding finalize
finalize-Steady now saved tenant ref owner key version size s sound =
    elim (Option-cases (first (same_key tenant ref key version) s.entries)) [
      | inl missing ↦ rw (missing, finalize) (Steady-refl s sound)
      | inr (e, found) ↦ rw (found, finalize) (finalize_entry-Steady now saved owner size e s sound)
    ]

match_key-mem :
    (es : List Entry) (prefix : String) (e : Entry) → match_key es prefix ≡ some e → Memᴰ e es
unfolding match_key
match_key-mem es prefix e h = elim (Option-cases (first (λ x. x.key == prefix) es)) [
  | inr (x, found) ↦ first-mem (λ x. x.key == prefix) es e (found ∙ ground (arith, found, h))
  | inl missing ↦ first-mem (λ x. starts_with x.key prefix) es e (ground (arith, missing, h))
]

match_keys-mem :
    (es : List Entry) (keys : List String) (e : Entry) → match_keys es keys ≡ some e → Memᴰ e es
unfolding match_keys
match_keys-mem es [] e h = absurd (cc)
match_keys-mem es (key ∷ keys) e h = elim (Option-cases (match_key es key)) [
  | inr (x, found) ↦ match_key-mem es key e (found ∙ ground (arith, found, h))
  | inl missing ↦ match_keys-mem es keys e (ground (arith, missing, h))
]

insert_newest-mem :
    (x : Entry) (es : List Entry) (e : Entry) → Memᴰ e (insert_newest x es) → (e ≡ x) ⊎ Memᴰ e es
unfolding insert_newest
insert_newest-mem x [] e (Memᴰ.head h) = inl h
insert_newest-mem x [] e (Memᴰ.tail m) = elim m [ ]
insert_newest-mem x (y ∷ es) e m = elim (Bool-cases (leb y.created_at x.created_at)) [
  | inl newer ↦ elim (rw (newer, insert_newest) at m) [ Memᴰ.head h ↦ inl h | Memᴰ.tail t ↦ inr t ]
  | inr older ↦ elim (rw (older, insert_newest) at m) [
    | Memᴰ.head h ↦ inr (Memᴰ.head h)
    | Memᴰ.tail t ↦ elim (insert_newest-mem x es e t) [
      | inl new ↦ inl new
      | inr old ↦ inr (Memᴰ.tail old)
    ]
  ]
]

sort_newest-mem : (es : List Entry) (e : Entry) → Memᴰ e (sort_newest es) → Memᴰ e es
unfolding sort_newest
sort_newest-mem [] e m = m
sort_newest-mem (x ∷ es) e m = elim (insert_newest-mem x (sort_newest es) e m) [
  | inl new ↦ Memᴰ.head new
  | inr old ↦ Memᴰ.tail (sort_newest-mem es e old)
]

pub match_refs-mem :
    (tenant : Tenant) (refs keys : List String) (version : String) (es : List Entry) (e : Entry)
    → match_refs tenant refs keys version es ≡ some e
    → (ref : String) × (mem ref refs ≡ true) × Memᴰ e es × (is_offered tenant ref version e ≡ true)
unfolding match_refs
match_refs-mem tenant [] keys version es e h = absurd (cc)
match_refs-mem tenant (ref ∷ refs) keys version es e h =
    let offered = keep (is_offered tenant ref version) es in
    elim (Option-cases (match_keys (sort_newest offered) keys)) [
      | inr (x, found) ↦
          let same : x ≡ e = ground (arith, found, h) in
          let (m, may) = mem-keep (is_offered tenant ref version) es e (
            sort_newest-mem offered e
              (match_keys-mem (sort_newest offered) keys e (found ∙ ap some same))) in
          (ref, ground (arith, eq_refl ref), m, may)
      | inl missing ↦
          let (other, at, m, may) =
            match_refs-mem tenant refs keys version es e (ground (arith, missing, h)) in
          (other, ground (arith, at), m, may)
    ]

look_up_entry-Steady :
    (now : ℕ) (saved : Bool) (tenant : Tenant) (refs keys : List String) (version : String)
    (s : Store)
    → IsSound s
    → Steady s (look_up_entry now saved tenant refs keys version s).0
unfolding look_up_entry
look_up_entry-Steady now saved tenant refs keys version s sound =
    elim (Option-cases (match_refs tenant refs keys version s.entries)) [
      | inl missing ↦ rw (missing, look_up_entry) (Steady-refl s sound)
      | inr (e, found) ↦
          let (_, _, m, _) = match_refs-mem tenant refs keys version s.entries e found in
          rw (found, look_up_entry)
            (save_entry-Steady saved (touched now e) s (sound.uploaded e m) sound)
    ]

pub look_up-Steady :
    (disk : ℕ → Removal) (now : ℕ) (saved : Bool) (tenant : Tenant) (refs : List String)
    (key version : String) (restore : List String) (s : Store)
    → IsSound s
    → Steady s (look_up disk now saved tenant refs key version restore s).0
unfolding look_up
look_up-Steady disk now saved tenant refs key version restore s sound =
    elim (Bool-cases (
      not (valid_key key version)
      || ltb 10 (length restore)
      || not (all (λ prefix. valid_key prefix version) restore))) [
        | inl bad ↦ rw bad (Steady-refl s sound)
        | inr good ↦ rw good (
            and_then-Steady s (cleanup disk now s)
              (look_up_entry now saved tenant refs (key ∷ restore) version)
              (cleanup-Steady disk now s sound)
              (λ t later.
                look_up_entry-Steady now saved tenant refs (key ∷ restore) version t later))
      ]

pub list_entries-Steady :
    (disk : ℕ → Removal) (now : ℕ) (tenant : Tenant) (refs : List String) (prefix : String)
    (s : Store)
    → IsSound s
    → Steady s (list_entries disk now tenant refs prefix s).0
unfolding list_entries
list_entries-Steady disk now tenant refs prefix s sound =
    and_then-Steady s (cleanup disk now s) _ (cleanup-Steady disk now s sound)
      (λ t later. Steady-refl t later)

opened-Steady :
    (done : Bool) (s : Store) (o : Store × Result CacheError Entry)
    → Steady s o.0
    → IsSound s
    → Steady s (if done then o else (s, err not_found)).0
opened-Steady true s o steady sound = steady
opened-Steady false s o steady sound = Steady-refl s sound

pub open_entry-Steady :
    (now : ℕ) (saved : Bool) (tenant : Tenant) (id : ℕ) (s : Store)
    → IsSound s
    → Steady s (open_entry now saved tenant id s).0
unfolding open_entry
open_entry-Steady now saved tenant id s sound = elim (Result-cases (get_locked s tenant id)) [
  | inl (e, bad) ↦ rw (bad, open_entry) (Steady-refl s sound)
  | inr (e, found) ↦
      let (m, _) = get_locked-mem s tenant id e found in
      rw (found, open_entry)
        (opened-Steady e.finalized s (save_entry saved (touched now e) s)
          (save_entry-Steady saved (touched now e) s (sound.uploaded e m) sound) sound)
]
