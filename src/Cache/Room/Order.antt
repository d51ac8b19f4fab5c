-- ===== src/Cache/Room/Order.antt =====
-- The candidates, in the order in which they are tried, are entries with distinct IDs.
use open_actions.Base.{
  Bool, true, ◌≡◌, ◌≢◌, ◌⊎◌, inl, inr, refl, sym, ap, ◌∙◌, List, [], ◌∷◌, keep, leb, Bool-cases,
}
use open_actions.Cache.Room.{insert_entry, sort_entries}
use open_actions.Cache.Store.{Entry}
use mathlib.Core.List.{Memᴰ}

pub data IsDistinct : List Entry → Type 0 where
  nobody : IsDistinct []
  another :
      {e : Entry} {es : List Entry}
      → ((x : Entry) → Memᴰ x es → x.id ≢ e.id)
      → IsDistinct es
      → IsDistinct (e ∷ es)

mem-insert_entry :
    (e : Entry) (es : List Entry) (x : Entry) → Memᴰ x (insert_entry e es) → (x ≡ e) ⊎ Memᴰ x es
unfolding insert_entry
mem-insert_entry e [] x (Memᴰ.head h) = inl h
mem-insert_entry e [] x (Memᴰ.tail m) = elim m [ ]
mem-insert_entry e (y ∷ es) x m = elim (Bool-cases (leb e.accessed_at y.accessed_at)) [
  | inl older ↦ elim (rw older at m) [ Memᴰ.head h ↦ inl h | Memᴰ.tail t ↦ inr t ]
  | inr newer ↦ elim (rw newer at m) [
    | Memᴰ.head h ↦ inr (Memᴰ.head h)
    | Memᴰ.tail t ↦ elim (mem-insert_entry e es x t) [
      | inl h ↦ inl h
      | inr later ↦ inr (Memᴰ.tail later)
    ]
  ]
]

pub mem-sort_entries : (es : List Entry) (x : Entry) → Memᴰ x (sort_entries es) → Memᴰ x es
unfolding sort_entries
mem-sort_entries [] x m = m
mem-sort_entries (e ∷ es) x m = elim (mem-insert_entry e (sort_entries es) x m) [
  | inl h ↦ Memᴰ.head h
  | inr later ↦ Memᴰ.tail (mem-sort_entries es x later)
]

insert_entry-IsDistinct :
    (e : Entry) (es : List Entry)
    → ((x : Entry) → Memᴰ x es → x.id ≢ e.id)
    → IsDistinct es
    → IsDistinct (insert_entry e es)
unfolding insert_entry
insert_entry-IsDistinct e [] new d = another new d
insert_entry-IsDistinct e (y ∷ es) new (another h d) =
    elim (Bool-cases (leb e.accessed_at y.accessed_at)) [
      | inl older ↦ rw older (another new (another h d))
      | inr newer ↦ rw newer (
          another
            (λ x m. elim (mem-insert_entry e es x m) [
              | inl same ↦ λ q. new y (Memᴰ.head refl) (sym q ∙ ap (λ (e : Entry). e.id) same)
              | inr later ↦ h x later
            ])
            (insert_entry-IsDistinct e es (λ x m. new x (Memᴰ.tail m)) d))
    ]

pub sort_entries-IsDistinct : (es : List Entry) → IsDistinct es → IsDistinct (sort_entries es)
unfolding sort_entries
sort_entries-IsDistinct [] d = d
sort_entries-IsDistinct (e ∷ es) (another h d) =
    insert_entry-IsDistinct e (sort_entries es) (λ x m. h x (mem-sort_entries es x m))
      (sort_entries-IsDistinct es d)

pub mem-keep :
    (p : Entry → Bool) (es : List Entry) (x : Entry) → Memᴰ x (keep p es) → Memᴰ x es × (p x ≡ true)
mem-keep p [] x m = elim m [ ]
mem-keep p (e ∷ es) x m = elim (Bool-cases (p e)) [
  | inl kept ↦ elim (rw (kept, keep) at m) [
    | Memᴰ.head h ↦ (Memᴰ.head h, rw h kept)
    | Memᴰ.tail t ↦ let (at, holds) = mem-keep p es x t in (Memᴰ.tail at, holds)
  ]
  | inr dropped ↦
      let (at, holds) = mem-keep p es x (rw (dropped, keep) at m) in (Memᴰ.tail at, holds)
]

-- What is kept is there.
pub keep-mem :
    (p : Entry → Bool) (es : List Entry) (x : Entry) → Memᴰ x es → p x ≡ true → Memᴰ x (keep p es)
keep-mem p [] x m h = m
keep-mem p (e ∷ es) x (Memᴰ.head q) h =
    let kept : p e ≡ true = rw q at h in rw (kept, keep) (Memᴰ.head q)
keep-mem p (e ∷ es) x (Memᴰ.tail t) h =
    let later = keep-mem p es x t h in
    elim (Bool-cases (p e)) [
      | inl kept ↦ rw (kept, keep) (Memᴰ.tail later)
      | inr dropped ↦ rw (dropped, keep) later
    ]

pub keep-IsDistinct : (p : Entry → Bool) (es : List Entry) → IsDistinct es → IsDistinct (keep p es)
keep-IsDistinct p [] d = d
keep-IsDistinct p (e ∷ es) (another h d) = elim (Bool-cases (p e)) [
  | inl kept ↦ rw (kept, keep) (another (λ x m. h x (mem-keep p es x m).0) (keep-IsDistinct p es d))
  | inr dropped ↦ rw (dropped, keep) (keep-IsDistinct p es d)
]

-- Two entries with one ID are one entry.
pub IsDistinct-same :
    {x y : Entry} {es : List Entry} → IsDistinct es → Memᴰ x es → Memᴰ y es → x.id ≡ y.id → x ≡ y
IsDistinct-same d (Memᴰ.head h) (Memᴰ.head k) q = h ∙ sym k
IsDistinct-same {x = x} {y = y} (another n d) (Memᴰ.head h) (Memᴰ.tail t) q =
    absurd (n y t (sym q ∙ ap (λ (e : Entry). e.id) h))
IsDistinct-same {x = x} {y = y} (another n d) (Memᴰ.tail t) (Memᴰ.head k) q =
    absurd (n x t (q ∙ ap (λ (e : Entry). e.id) k))
IsDistinct-same (another n d) (Memᴰ.tail t) (Memᴰ.tail u) q = IsDistinct-same d t u q
