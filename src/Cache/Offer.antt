-- ===== src/Cache/Offer.antt =====
-- What Lookup may give.
use open_actions.Base.{
  ℕ, String, Bool, true, false, not, ◌||◌, ◌==◌, ◌≡◌, ◌≢◌, ◌⊎◌, inl, inr, refl, ap, ◌∙◌, subst,
  arith, List, [], ◌∷◌, keep, any, all, eq_iff, ltb, leb, length, starts_with, Option, none, some,
  Bool-cases, Option-cases,
}
use open_actions.Base.Dict.{mem}
use open_actions.Base.Result.{Result, ok, err}
use open_actions.Cache.Cleanup.{cleanup, cleanup-IsWellFormed}
use open_actions.Cache.Policy.{Tenant, same_tenant}
use open_actions.Cache.Room.Budget.{IsWellFormed}
use open_actions.Cache.Room.Order.{keep-mem}
use open_actions.Cache.Serve.{
  first, touched, has_key, match_key, match_keys, match_refs, is_offered, insert_newest,
  sort_newest, look_up_entry, look_up,
}
use open_actions.Cache.Serving.{match_refs-mem}
use open_actions.Cache.Store.{CacheError, not_found, Entry, Store, Removal}
use open_actions.Cache.Upload.{save_entry, valid_key, and_then}
use mathlib.Core.List.{Memᴰ}

-- A key that was asked for, or the beginning of one that was.
abbrev pub answers : Entry → String → Bool
answers e key = e.key == key || starts_with e.key key

first-holds :
    (test : Entry → Bool) (es : List Entry) (e : Entry) → first test es ≡ some e → test e ≡ true
unfolding first
first-holds test [] e h = absurd (cc)
first-holds test (x ∷ es) e h = elim (Bool-cases (test x)) [
  | inl here ↦ let same : x ≡ e = ground (arith, here, h) in subst (λ y. test y ≡ true) same here
  | inr other ↦ first-holds test es e (ground (arith, other, h))
]

match_key-answers :
    (es : List Entry) (key : String) (e : Entry) → match_key es key ≡ some e → answers e key ≡ true
unfolding match_key
match_key-answers es key e h = elim (Option-cases (first (has_key key) es)) [
  | inr (x, found) ↦
      let exact = first-holds (has_key key) es e (found ∙ ground (arith, found, h)) in
      ground (arith, exact)
  | inl missing ↦
      let begins = first-holds (λ x. starts_with x.key key) es e (ground (arith, missing, h)) in
      ground (arith, begins)
]

match_keys-answers :
    (es : List Entry) (keys : List String) (e : Entry)
    → match_keys es keys ≡ some e
    → any (answers e) keys ≡ true
unfolding match_keys
match_keys-answers es [] e h = absurd (cc)
match_keys-answers es (key ∷ keys) e h = elim (Option-cases (match_key es key)) [
  | inr (x, found) ↦
      let here = match_key-answers es key e (found ∙ ground (arith, found, h)) in
      ground (arith, here)
  | inl missing ↦
      let later = match_keys-answers es keys e (ground (arith, missing, h)) in ground (arith, later)
]

match_refs-answers :
    (tenant : Tenant) (refs keys : List String) (version : String) (es : List Entry) (e : Entry)
    → match_refs tenant refs keys version es ≡ some e
    → any (answers e) keys ≡ true
unfolding match_refs
match_refs-answers tenant [] keys version es e h = absurd (cc)
match_refs-answers tenant (ref ∷ refs) keys version es e h =
    let offered = sort_newest (keep (is_offered tenant ref version) es) in
    elim (Option-cases (match_keys offered keys)) [
      | inr (x, found) ↦ match_keys-answers offered keys e (found ∙ ground (arith, found, h))
      | inl missing ↦ match_refs-answers tenant refs keys version es e (ground (arith, missing, h))
    ]

-- An entry that a job may read under a key.
abbrev pub MayRead : Tenant → List String → List String → String → Entry → Type 0
MayRead tenant refs keys version e =
    (same_tenant e.tenant tenant ≡ true)
    × (mem e.ref refs ≡ true)
    × (e.version == version ≡ true)
    × (any (answers e) keys ≡ true)
    × (e.finalized ≡ true)
    × (e.uploaded ≡ true)

save_entry-eq-ok :
    (saved : Bool) (x : Entry) (s : Store) {e : Entry} → (save_entry saved x s).1 ≡ ok e → x ≡ e
unfolding save_entry
save_entry-eq-ok true x s h = ground arith
save_entry-eq-ok false x s h = absurd (cc)

look_up_entry-MayRead :
    (now : ℕ) (saved : Bool) (tenant : Tenant) (refs keys : List String) (version : String)
    (s : Store) (e : Entry)
    → IsWellFormed s
    → (look_up_entry now saved tenant refs keys version s).1 ≡ ok e
    → MayRead tenant refs keys version e
unfolding look_up_entry
look_up_entry-MayRead now saved tenant refs keys version s e formed h =
    elim (Option-cases (match_refs tenant refs keys version s.entries)) [
      | inl missing ↦ absurd (ground (arith, missing, h))
      | inr (x, found) ↦
          let (ref, at, m, may) = match_refs-mem tenant refs keys version s.entries x found in
          let asked = match_refs-answers tenant refs keys version s.entries x found in
          let same = save_entry-eq-ok saved (touched now x) s (rw (found, look_up_entry) at h) in
          let done : x.finalized ≡ true = ground (arith, may) in
          let here : x.ref ≡ ref = (eq_iff x.ref ref).0 (ground (arith, may)) in
          subst (λ y. MayRead tenant refs keys version y) same
            (
              ground (arith, may),
              ap (λ r. mem r refs) here ∙ at,
              ground (arith, may),
              asked,
              done,
              formed.uploaded x m done,
            )
    ]

after_cleanup :
    (o : Store × Option CacheError) (f : Store → Store × Result CacheError Entry) (e : Entry)
    → (and_then o f).1 ≡ ok e
    → (f o.0).1 ≡ ok e
after_cleanup (t, none) f e h = h
after_cleanup (t, some bad) f e h = absurd (cc)

-- From a well-formed store, Lookup gives a job only an entry of its own tenant, of one of the refs it
-- asked for, of the same version, whose key is or begins with one it asked for, that was finalized
-- after its whole upload.
pub look_up-MayRead :
    (disk : ℕ → Removal) (now : ℕ) (saved : Bool) (tenant : Tenant) (refs : List String)
    (key version : String) (restore : List String) (s : Store) (e : Entry)
    → IsWellFormed s
    → (look_up disk now saved tenant refs key version restore s).1 ≡ ok e
    → MayRead tenant refs (key ∷ restore) version e
unfolding look_up
look_up-MayRead disk now saved tenant refs key version restore s e formed h =
    let bad =
      not (valid_key key version)
      || ltb 10 (length restore)
      || not (all (λ prefix. valid_key prefix version) restore) in
    elim (Bool-cases bad) [
      | inl refused ↦ absurd (ground (arith, refused, h))
      | inr good ↦
          look_up_entry-MayRead now saved tenant refs (key ∷ restore) version (cleanup disk now s).0
            e (cleanup-IsWellFormed disk now s formed)
            (after_cleanup (cleanup disk now s)
              (look_up_entry now saved tenant refs (key ∷ restore) version) e
              (rw (good, look_up) at h))
    ]

-- Nothing in the list answers one of the keys.
abbrev NoneAnswers : List Entry → List String → Type 0
NoneAnswers es keys = (e : Entry) → Memᴰ e es → any (answers e) keys ≡ false

first-none :
    (test : Entry → Bool) (es : List Entry) (e : Entry)
    → first test es ≡ none
    → Memᴰ e es
    → test e ≡ false
unfolding first
first-none test [] e h m = elim m [ ]
first-none test (x ∷ es) e h m = elim (Bool-cases (test x)) [
  | inl here ↦ absurd (ground (arith, here, h))
  | inr other ↦ elim m [
    | Memᴰ.head same ↦ ap test same ∙ other
    | Memᴰ.tail later ↦ first-none test es e (ground (arith, other, h)) later
  ]
]

match_key-none :
    (es : List Entry) (key : String) (e : Entry)
    → match_key es key ≡ none
    → Memᴰ e es
    → answers e key ≡ false
unfolding match_key
match_key-none es key e h m = elim (Option-cases (first (has_key key) es)) [
  | inr (x, found) ↦ absurd (ground (arith, found, h))
  | inl missing ↦
      let no_exact = first-none (has_key key) es e missing m in
      let no_begin = first-none (λ x. starts_with x.key key) es e (ground (arith, missing, h)) m in
      ground (arith, no_exact, no_begin)
]

match_keys-none :
    (es : List Entry) (keys : List String) → match_keys es keys ≡ none → NoneAnswers es keys
unfolding match_keys
match_keys-none es [] h e m = refl
match_keys-none es (key ∷ keys) h e m = elim (Option-cases (match_key es key)) [
  | inr (x, found) ↦ absurd (ground (arith, found, h))
  | inl missing ↦
      let here = match_key-none es key e missing m in
      let later = match_keys-none es keys (ground (arith, missing, h)) e m in
      ground (arith, here, later)
]

insert_newest-keeps :
    (x : Entry) (es : List Entry) (e : Entry) → (e ≡ x) ⊎ Memᴰ e es → Memᴰ e (insert_newest x es)
unfolding insert_newest
insert_newest-keeps x [] e (inl same) = Memᴰ.head same
insert_newest-keeps x [] e (inr m) = elim m [ ]
insert_newest-keeps x (y ∷ es) e m = elim (Bool-cases (leb y.created_at x.created_at)) [
  | inl newer ↦
      rw (newer, insert_newest) (elim m [ inl same ↦ Memᴰ.head same | inr old ↦ Memᴰ.tail old ])
  | inr older ↦
      rw (older, insert_newest)
        (elim m [
          | inl same ↦ Memᴰ.tail (insert_newest-keeps x es e (inl same))
          | inr (Memᴰ.head same) ↦ Memᴰ.head same
          | inr (Memᴰ.tail old) ↦ Memᴰ.tail (insert_newest-keeps x es e (inr old))
        ])
]

sort_newest-keeps : (es : List Entry) (e : Entry) → Memᴰ e es → Memᴰ e (sort_newest es)
unfolding sort_newest
sort_newest-keeps [] e m = m
sort_newest-keeps (x ∷ es) e (Memᴰ.head same) = insert_newest-keeps x (sort_newest es) e (inl same)
sort_newest-keeps (x ∷ es) e (Memᴰ.tail m) =
    insert_newest-keeps x (sort_newest es) e (inr (sort_newest-keeps es e m))

match_refs-none :
    (tenant : Tenant) (refs keys : List String) (version : String) (es : List Entry)
    → match_refs tenant refs keys version es ≡ none
    → (ref : String) → mem ref refs ≡ true
    → (e : Entry) → Memᴰ e es
    → is_offered tenant ref version e ≡ true
    → any (answers e) keys ≡ false
unfolding match_refs
match_refs-none tenant [] keys version es h ref at e m may = absurd (cc)
match_refs-none tenant (r ∷ refs) keys version es h ref at e m may =
    let offered = keep (is_offered tenant r version) es in
    elim (Option-cases (match_keys (sort_newest offered) keys)) [
      | inr (x, found) ↦ absurd (ground (arith, found, h))
      | inl missing ↦ elim (Bool-cases (ref == r)) [
        | inl here ↦
            let same = (eq_iff ref r).0 here in
            match_keys-none (sort_newest offered) keys missing e (
              sort_newest-keeps offered e (
                keep-mem (is_offered tenant r version) es e m
                  (subst (λ q. is_offered tenant q version e ≡ true) same may)))
        | inr other ↦
            match_refs-none tenant refs keys version es (ground (arith, missing, h)) ref
              (ground (arith, other, at)) e m may
      ]
    ]

never_missing : (saved : Bool) (x : Entry) (s : Store) → (save_entry saved x s).1 ≢ err not_found
unfolding save_entry
never_missing true x s h = absurd (cc)
never_missing false x s h = absurd (cc)

-- Lookup, once the cache is cleaned up, finds nothing only where no complete entry of the tenant, of
-- one of the refs and of the version has a key that is or begins with one of those asked for.
pub look_up_entry_complete :
    (now : ℕ) (saved : Bool) (tenant : Tenant) (refs keys : List String) (version : String)
    (s : Store)
    → (look_up_entry now saved tenant refs keys version s).1 ≡ err not_found
    → (ref : String) (e : Entry) → mem ref refs ≡ true
    → Memᴰ e s.entries
    → is_offered tenant ref version e ≡ true
    → any (answers e) keys ≡ false
unfolding look_up_entry save_entry
look_up_entry_complete now saved tenant refs keys version s h ref e at m may =
    elim (Option-cases (match_refs tenant refs keys version s.entries)) [
      | inl missing ↦ match_refs-none tenant refs keys version s.entries missing ref at e m may
      | inr (x, found) ↦
          absurd (never_missing saved (touched now x) s (rw (found, look_up_entry) at h))
    ]
