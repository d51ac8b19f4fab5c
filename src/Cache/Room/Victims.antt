-- ===== src/Cache/Room/Victims.antt =====
-- What the removals of makeRoomLocked leave.
use open_actions.Base.{
  ℕ, Bool, false, ◌||◌, ◌≡◌, ◌⊎◌, inl, inr, refl, sym, ap, ◌∙◌, arith, List, [], ◌∷◌, keep,
  reversed, onto, Option, none, some,
}
use open_actions.Cache.Room.{is_victim}
use open_actions.Cache.Room.Budget.{left}
use open_actions.Cache.Room.Order.{keep-mem}
use open_actions.Cache.Store.{
  CacheError, Entry, Store, charge, usage, is_other, forget, Removal, stays, goes, lingers, remove,
  remove_all,
}
use mathlib.Core.List.{Memᴰ}

pub left_nil : (es : List Entry) → left [] es ≡ es
unfolding is_victim
left_nil [] = refl
left_nil (e ∷ es) = ap (e ∷◌) (left_nil es)

-- What stays after one removal takes what it took before.
usage-forget :
    (test : Entry → Bool) (s : Store) (id : ℕ) (ids : List ℕ) (es : List Entry)
    → usage test (forget id s) (left ids (keep (is_other id) es))
      ≡ usage test s (left (id ∷ ids) es)
unfolding usage is_victim charge
usage-forget test s id ids [] = refl
usage-forget test s id ids (e ∷ es) =
    let later = usage-forget test s id ids es in ground (arith, later)

pub Removal-cases : (r : Removal) → (r ≡ stays) ⊎ ((r ≡ goes) ⊎ (r ≡ lingers))
Removal-cases stays = inl refl
Removal-cases goes = inr (inl refl)
Removal-cases lingers = inr (inr refl)

-- The removals, by what becomes of the first one.
module _ (disk : ℕ → Removal) (ids : List ℕ) (id : ℕ) (s : Store) where
  abbrev pub after : Removal → Store × Option CacheError
  after r = elim (remove r id s).1 [
    | none ↦ remove_all disk ids (remove r id s).0
    | some failure ↦ ((remove r id s).0, some failure)
  ]

  pub remove_all_by : (r : Removal) → disk id ≡ r → remove_all disk (id ∷ ids) s ≡ after r
  unfolding remove_all
  remove_all_by r q = ap after q

pub usage-remove_all :
    (test : Entry → Bool) (disk : ℕ → Removal) (ids : List ℕ) (s : Store)
    → (remove_all disk ids s).1 ≡ none
    → usage test (remove_all disk ids s).0 (remove_all disk ids s).0.entries
      ≡ usage test s (left ids s.entries)
unfolding remove_all remove
usage-remove_all test disk [] s done = ap (usage test s) (sym (left_nil s.entries))
usage-remove_all test disk (id ∷ ids) s done =
    let steps = remove_all_by disk ids id s in
    elim (Removal-cases (disk id)) [
      | inl q ↦ absurd (ground (arith, ap (λ (o : Store × Option CacheError). o.1) (steps stays q)))
      | inr (inl q) ↦
          let later = usage-remove_all test disk ids (forget id s) (rw (steps goes q) at done) in
          rw (steps goes q) (later ∙ usage-forget test s id ids s.entries)
      | inr (inr q) ↦
          absurd (ground (arith, ap (λ (o : Store × Option CacheError). o.1) (steps lingers q)))
    ]

left-forget :
    (id : ℕ) (ids : List ℕ) (es : List Entry)
    → left ids (keep (is_other id) es) ≡ left (id ∷ ids) es
unfolding is_victim
left-forget id ids [] = refl
left-forget id ids (e ∷ es) = ground (arith, left-forget id ids es)

-- Removals that all succeed leave the other entries.
pub remove_all-entries :
    (disk : ℕ → Removal) (ids : List ℕ) (s : Store)
    → (remove_all disk ids s).1 ≡ none
    → (remove_all disk ids s).0.entries ≡ left ids s.entries
unfolding remove_all remove
remove_all-entries disk [] s done = sym (left_nil s.entries)
remove_all-entries disk (id ∷ ids) s done =
    let steps = remove_all_by disk ids id s in
    elim (Removal-cases (disk id)) [
      | inl q ↦ absurd (ground (arith, ap (λ (o : Store × Option CacheError). o.1) (steps stays q)))
      | inr (inl q) ↦
          let later = remove_all-entries disk ids (forget id s) (rw (steps goes q) at done) in
          rw (steps goes q) (later ∙ left-forget id ids s.entries)
      | inr (inr q) ↦
          absurd (ground (arith, ap (λ (o : Store × Option CacheError). o.1) (steps lingers q)))
    ]

-- An entry that is not to be removed is not.
pub remove_all-spares :
    (disk : ℕ → Removal) (ids : List ℕ) (s : Store) (e : Entry)
    → Memᴰ e s.entries
    → is_victim ids e.id ≡ false
    → Memᴰ e (remove_all disk ids s).0.entries
unfolding remove_all remove is_victim
remove_all-spares disk [] s e at new = at
remove_all-spares disk (id ∷ ids) s e at new =
    let here : Memᴰ e (forget id s).entries =
      keep-mem (is_other id) s.entries e at (ground arith) in
    let steps = remove_all_by disk ids id s in
    elim (Removal-cases (disk id)) [
      | inl q ↦ rw (steps stays q) at
      | inr (inl q) ↦
          rw (steps goes q) (remove_all-spares disk ids (forget id s) e here (ground arith))
      | inr (inr q) ↦ rw (steps lingers q) here
    ]

is_victim-onto :
    (xs ys : List ℕ) (id : ℕ) → is_victim (onto xs ys) id ≡ (is_victim xs id || is_victim ys id)
unfolding is_victim
is_victim-onto [] ys id = refl
is_victim-onto (x ∷ xs) ys id = ground (arith, is_victim-onto xs (x ∷ ys) id)

pub is_victim-reversed : (xs : List ℕ) (id : ℕ) → is_victim (reversed xs) id ≡ is_victim xs id
unfolding is_victim
is_victim-reversed xs id = ground (arith, is_victim-onto xs [] id)

pub left-reversed : (xs : List ℕ) (es : List Entry) → left (reversed xs) es ≡ left xs es
left-reversed xs [] = refl
left-reversed xs (e ∷ es) = ground (arith, is_victim-reversed xs e.id, left-reversed xs es)
