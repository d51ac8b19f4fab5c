-- ===== src/Cache/Room/Budget.antt =====
-- The sums that makeRoomLocked keeps while it selects are those of the entries that stay.
use open_actions.Base.{
  ℕ, ◌+◌, ◌≤◌, Bool, true, false, not, ◌≡◌, ◌≢◌, inl, inr, refl, sym, arith, List, [], ◌∷◌, keep,
  eqb, leb, if◌then◌else◌, Bool-cases, eqb_refl, eqb-eq,
}
use open_actions.Cache.Policy.{Tenant}
use open_actions.Cache.Room.{is_candidate, Choice, is_victim, select_entry, select_own, select_any}
use open_actions.Cache.Room.Order.{IsDistinct, another}
use open_actions.Cache.Store.{Entry, Store, charge, usage, everyone, of_tenant, staged_size}
use mathlib.Core.List.{Memᴰ}

-- IDs are distinct, only an uploaded entry is complete, and nothing is on its way to an entry that
-- is not in use.
pub record IsWellFormed (s : Store) : Type 0 where
  pub distinct : IsDistinct s.entries
  pub uploaded : (e : Entry) → Memᴰ e s.entries → e.finalized ≡ true → e.uploaded ≡ true
  pub idle : (e : Entry) → Memᴰ e s.entries → s.active e.id ≡ 0 → s.reserved e.id ≡ 0

-- The entries that stay.
abbrev pub left : List ℕ → List Entry → List Entry
left victims es = keep (λ e. not (is_victim victims e.id)) es

module _ (s : Store) (test : Entry → Bool) where
  usage_absent :
      (e : Entry) (victims : List ℕ) (es : List Entry)
      → ((x : Entry) → Memᴰ x es → x.id ≢ e.id)
      → usage test s (left (e.id ∷ victims) es) ≡ usage test s (left victims es)
  unfolding usage is_victim
  usage_absent e victims [] h = refl
  usage_absent e victims (x ∷ es) h =
      let later = usage_absent e victims es (λ y m. h y (Memᴰ.tail m)) in
      let other = h x (Memᴰ.head refl) in ground (arith, later, other)

  pub usage_take :
      (e : Entry) (victims : List ℕ) (es : List Entry)
      → IsDistinct es
      → Memᴰ e es
      → is_victim victims e.id ≡ false
      → usage test s (left victims es)
        ≡ (if test e then charge s e else 0) + usage test s (left (e.id ∷ victims) es)
  unfolding usage is_victim
  usage_take e victims [] d m stays = elim m [ ]
  usage_take e victims (x ∷ es) (another new d) (Memᴰ.head h) stays =
      let later = usage_absent x victims es new in
      let stays' : is_victim victims x.id ≡ false = rw h at stays in
      rw h (ground (arith, later, stays', eqb_refl x.id))
  usage_take e victims (x ∷ es) (another new d) (Memᴰ.tail m) stays =
      let later = usage_take e victims es d m stays in
      let other = new e m in ground (arith, later, other, eqb-eq x.id e.id)

module _ (s : Store) (tenant : Tenant) (except : ℕ) (formed : IsWellFormed s) where
  -- The sums are those of the entries that stay, and only candidates are selected.
  pub record IsFair (c : Choice) : Type 0 where
    pub total : c.total ≡ usage everyone s (left c.victims s.entries)
    pub repository : c.repository ≡ usage (of_tenant tenant) s (left c.victims s.entries)
    pub reason :
        (id : ℕ)
        → is_victim c.victims id ≡ true
        → (e : Entry) × Memᴰ e s.entries × (e.id ≡ id) × (is_candidate s except e ≡ true)

  -- The members of a list are candidates.
  abbrev pub AreCandidates : List Entry → Type 0
  AreCandidates es = (e : Entry) → Memᴰ e es → Memᴰ e s.entries × (is_candidate s except e ≡ true)

  candidate-charge :
      (e : Entry) → Memᴰ e s.entries → is_candidate s except e ≡ true → charge s e ≡ e.size
  unfolding is_candidate charge staged_size
  candidate-charge e at may =
      let done : e.finalized ≡ true = ground arith in
      let quiet : s.active e.id ≡ 0 = ground arith in
      ground (arith, formed.uploaded e at done, formed.idle e at quiet)

  select_entry-IsFair :
      (e : Entry) (c : Choice)
      → Memᴰ e s.entries
      → is_candidate s except e ≡ true
      → is_victim c.victims e.id ≡ false
      → IsFair c
      → IsFair (select_entry tenant e c)
  unfolding select_entry is_victim
  select_entry-IsFair e c at may new fair =
      let size = candidate-charge e at may in
      let all = usage_take s everyone e c.victims s.entries formed.distinct at new in
      let own = usage_take s (of_tenant tenant) e c.victims s.entries formed.distinct at new in
      record {
        total = ground (arith, fair.total, all, size);
        repository = ground (arith, fair.repository, own, size);
        reason = λ id m. elim (Bool-cases (eqb id e.id)) [
          | inl same ↦ (e, at, sym (eqb-eq id e.id same), may)
          | inr other ↦ fair.reason id (ground arith)
        ];
      }

  select_entry-spares :
      (e x : Entry) (c : Choice)
      → x.id ≢ e.id
      → is_victim c.victims x.id ≡ false
      → is_victim (select_entry tenant e c).victims x.id ≡ false
  unfolding select_entry is_victim
  select_entry-spares e x c other new = ground arith

  select_entry-repository :
      (e : Entry) (c : Choice) → (select_entry tenant e c).repository ≤ c.repository
  unfolding select_entry
  select_entry-repository e c = ground arith

  pub select_own-IsFair :
      (added allowed : ℕ) (es : List Entry) (c : Choice)
      → IsDistinct es
      → AreCandidates es
      → ((e : Entry) → Memᴰ e es → is_victim c.victims e.id ≡ false)
      → IsFair c
      → IsFair (select_own tenant added allowed es c)
  unfolding select_own
  select_own-IsFair added allowed [] c d can new fair = fair
  select_own-IsFair added allowed (e ∷ es) c (another other d) can new fair =
      let (at, may) = can e (Memᴰ.head refl) in
      let skip =
        select_own-IsFair added allowed es c d (λ x m. can x (Memᴰ.tail m))
          (λ x m. new x (Memᴰ.tail m)) fair in
      let take =
        select_own-IsFair added allowed es (select_entry tenant e c) d (λ x m. can x (Memᴰ.tail m))
          (λ x m. select_entry-spares e x c (other x m) (new x (Memᴰ.tail m)))
          (select_entry-IsFair e c at may (new e (Memᴰ.head refl)) fair) in
      elim (Bool-cases (leb (c.repository + added) allowed)) [
        | inl fits ↦ rw fits fair
        | inr over ↦ elim (Bool-cases (of_tenant tenant e)) [
          | inl own ↦ rw (over, own) take
          | inr foreign ↦ rw (over, foreign) skip
        ]
      ]

  pub select_any-IsFair :
      (added allowed : ℕ) (es : List Entry) (c : Choice)
      → AreCandidates es
      → IsFair c
      → IsFair (select_any tenant added allowed es c)
        × ((select_any tenant added allowed es c).repository ≤ c.repository)
  unfolding select_any
  select_any-IsFair added allowed [] c can fair = (fair, omega arith)
  select_any-IsFair added allowed (e ∷ es) c can fair =
      elim (Bool-cases (leb (c.total + added) allowed)) [
        | inl fits ↦ rw fits (fair, omega arith)
        | inr over ↦ elim (Bool-cases (is_victim c.victims e.id)) [
          | inl chosen ↦
              rw (over, chosen)
                (select_any-IsFair added allowed es c (λ x m. can x (Memᴰ.tail m)) fair)
          | inr new ↦
              let (at, may) = can e (Memᴰ.head refl) in
              let (later, less) =
                select_any-IsFair added allowed es (select_entry tenant e c)
                  (λ x m. can x (Memᴰ.tail m)) (select_entry-IsFair e c at may new fair) in
              rw (over, new) (later, omega (arith, less, select_entry-repository e c))
        ]
      ]
