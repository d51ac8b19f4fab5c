-- ===== src/Cache/Sound.antt =====
-- What every operation keeps of a store, and that removals keep it.
use open_actions.Base.{
  ℕ, Bool, true, false, ◌≡◌, ◌⊎◌, inl, inr, refl, sym, ap, ◌∙◌, arith, List, [], ◌∷◌, eqb, eqb-eq,
  Bool-cases,
}
use open_actions.Cache.Room.Budget.{IsWellFormed}
use open_actions.Cache.Room.Order.{IsDistinct, nobody, another, mem-keep, keep-IsDistinct}
use open_actions.Cache.Store.{Entry, Store, is_other, forget}
use open_actions.Cache.Upload.{put_entry, with_entry, save_entry}
use mathlib.Core.List.{Memᴰ}

-- Well formed, and nothing is on its way to an ID that is not in use.
pub record IsSound (s : Store) : Type 0 where
  pub distinct : IsDistinct s.entries
  pub uploaded : (e : Entry) → Memᴰ e s.entries → e.finalized ≡ true → e.uploaded ≡ true
  pub calm : (id : ℕ) → s.active id ≡ 0 → s.reserved id ≡ 0

pub IsSound-IsWellFormed : (s : Store) → IsSound s → IsWellFormed s
IsSound-IsWellFormed s sound = record {
  distinct = sound.distinct;
  uploaded = sound.uploaded;
  idle = λ e m quiet. sound.calm e.id quiet;
}

-- The uploads that are counted, and the bytes that are reserved, are the same.
abbrev pub SameUse : Store → Store → Type 0
SameUse s t = (k : ℕ) → (t.active k ≡ s.active k) × (t.reserved k ≡ s.reserved k)

abbrev pub Steady : Store → Store → Type 0
Steady s t = IsSound t × SameUse s t

pub Steady-refl : (s : Store) → IsSound s → Steady s s
Steady-refl s sound = (sound, λ k. (refl, refl))

pub Steady-trans : (s t u : Store) → Steady s t → Steady t u → Steady s u
Steady-trans s t u (_, a) (sound, b) = (sound, λ k. ((b k).0 ∙ (a k).0, (b k).1 ∙ (a k).1))

put-mem : (e x : Entry) (es : List Entry) → Memᴰ x (put_entry e es) → (x ≡ e) ⊎ Memᴰ x es
unfolding put_entry
put-mem e x [] (Memᴰ.head h) = inl h
put-mem e x [] (Memᴰ.tail m) = elim m [ ]
put-mem e x (y ∷ es) m = elim (Bool-cases (eqb y.id e.id)) [
  | inl here ↦ elim (rw (here, put_entry) at m) [
    | Memᴰ.head h ↦ inl h
    | Memᴰ.tail t ↦ inr (Memᴰ.tail t)
  ]
  | inr other ↦ elim (rw (other, put_entry) at m) [
    | Memᴰ.head h ↦ inr (Memᴰ.head h)
    | Memᴰ.tail t ↦ elim (put-mem e x es t) [ inl new ↦ inl new | inr old ↦ inr (Memᴰ.tail old) ]
  ]
]

put-IsDistinct : (e : Entry) (es : List Entry) → IsDistinct es → IsDistinct (put_entry e es)
unfolding put_entry
put-IsDistinct e [] d = another {e = e} (λ x m. elim m [ ]) nobody
put-IsDistinct e (y ∷ es) (another new d) = elim (Bool-cases (eqb y.id e.id)) [
  | inl here ↦
      rw (here, put_entry)
        (another {e = e} (λ x m same. new x m (same ∙ sym (eqb-eq y.id e.id here))) d)
  | inr other ↦
      rw (other, put_entry)
        (another {e = y}
          (λ x m same. elim (put-mem e x es m) [
            | inl equal ↦ ground (arith, other, same, ap (λ (z : Entry). z.id) equal)
            | inr old ↦ new x old same
          ])
          (put-IsDistinct e es d))
]

pub with_entry-Steady :
    (e : Entry) (s : Store)
    → (e.finalized ≡ true → e.uploaded ≡ true)
    → IsSound s
    → Steady s (with_entry e s)
with_entry-Steady e s good sound = (
  record {
    distinct = put-IsDistinct e s.entries sound.distinct;
    uploaded = λ x m done. elim (put-mem e x s.entries m) [
      | inl same ↦
          ap (λ (z : Entry). z.uploaded) same
          ∙ good (ap (λ (z : Entry). z.finalized) (sym same) ∙ done)
      | inr old ↦ sound.uploaded x old done
    ];
    calm = sound.calm;
  },
  λ k. (refl, refl),
)

pub save_entry-Steady :
    (saved : Bool) (e : Entry) (s : Store)
    → (e.finalized ≡ true → e.uploaded ≡ true)
    → IsSound s
    → Steady s (save_entry saved e s).0
unfolding save_entry
save_entry-Steady true e s good sound = with_entry-Steady e s good sound
save_entry-Steady false e s good sound = Steady-refl s sound

pub forget-Steady : (id : ℕ) (s : Store) → s.active id ≡ 0 → IsSound s → Steady s (forget id s)
forget-Steady id s quiet sound = (
  record {
    distinct = keep-IsDistinct (is_other id) s.entries sound.distinct;
    uploaded = λ e m done. sound.uploaded e (mem-keep (is_other id) s.entries e m).0 done;
    calm = λ k h. ground (arith, h, sound.calm k, eqb-eq k id);
  },
  λ k. (ground (arith, quiet, eqb-eq k id), ground (arith, sound.calm id quiet, eqb-eq k id)),
)
