-- ===== src/Cache/System.antt =====
-- Calls on one store, interleaved: each step is one critical section of a call. An upload that was
-- admitted is in flight until its second critical section.
pub mod Laws
mod Tests
use open_actions.Base.{
  ℕ, zero, suc, ◌+◌, ◌-◌, String, Bool, true, false, not, ◌&&◌, ◌||◌, ◌==◌, ◌≡◌, ◌≢◌, ◌⊎◌, inl, inr,
  refl, sym, ap, ◌∙◌, subst, arith, List, [], ◌∷◌, ◌++◌, eqb, eqb-eq, eqb_refl, ltb, length, Option,
  none, some, Bool-cases, Option-cases, if◌then◌else◌,
}
use open_actions.Base.Result.{Result, ok, err, Result-cases}
use open_actions.Cache.Cleanup.{cleanup}
use open_actions.Cache.Commit.{
  Plan, stands, copies, plan_commit, start_commit, begin_commit, publish_commit, finish_commit,
}
use open_actions.Cache.Policy.{Tenant}
use open_actions.Cache.Room.{make_room}
use open_actions.Cache.Room.Budget.{IsWellFormed}
use open_actions.Cache.Serve.{finalize, look_up, list_entries, open_entry}
use open_actions.Cache.Serving.{
  get_locked-mem, finalize-Steady, look_up-Steady, list_entries-Steady, open_entry-Steady,
}
use open_actions.Cache.Sound.{
  IsSound, IsSound-IsWellFormed, SameUse, Steady, Steady-refl, Steady-trans, with_entry-Steady,
  save_entry-Steady,
}
use open_actions.Cache.Steady.{make_room-Steady, cleanup-Steady, create-Steady}
use open_actions.Cache.Store.{CacheError, exists, invalid, disk_failure, Entry, Store, Removal}
use open_actions.Cache.Upload.{
  Admission, sends, compares, find_entry, block_size, admit, and_then, count_upload, end_upload,
  begin_stage, staged_blob, staged_block, store_staged, end_stage, create,
}

pub record Flight : Type 0 where
  pub id : ℕ
  pub block : String
  pub size : ℕ

-- How many uploads of an entry are in flight, and how many bytes.
abbrev pub uploads : ℕ → List Flight → ℕ
uploads id [] = 0
uploads id (f ∷ fs) = if eqb id f.id then suc (uploads id fs) else uploads id fs

abbrev pub bytes : ℕ → List Flight → ℕ
bytes id [] = 0
bytes id (f ∷ fs) = if eqb id f.id then bytes id fs + f.size else bytes id fs

abbrev pub System : Type 0
System = Store × List Flight

-- One critical section.
pub data Step : System → System → Type 0 where
  created :
      {s : Store} {fs : List Flight} (disk : ℕ → Removal) (now random : ℕ) (saved : Bool)
      (tenant : Tenant) (ref owner key version : String)
      → Step (s, fs) ((create disk now random saved tenant ref owner key version s).0, fs)
  stage_begun :
      {s : Store} {fs : List Flight} (disk : ℕ → Removal) (tenant : Tenant) (id : ℕ)
      (block : String) (size : ℕ) (e : Entry)
      → (begin_stage disk tenant id block size s).1 ≡ ok (sends e)
      → Step
          (s, fs)
          (
            (begin_stage disk tenant id block size s).0,
            record { id = id; block = block; size = size } ∷ fs,
          )
  stage_refused :
      {s : Store} {fs : List Flight} (disk : ℕ → Removal) (tenant : Tenant) (id : ℕ)
      (block : String) (size : ℕ)
      → ((e : Entry) → (begin_stage disk tenant id block size s).1 ≢ ok (sends e))
      → Step (s, fs) ((begin_stage disk tenant id block size s).0, fs)
  stage_ended :
      {s : Store} (before : List Flight) (f : Flight) (after : List Flight)
      (copied : Result CacheError String) (kept : Bool)
      → Step
          (s, before ++ f ∷ after)
          ((end_stage f.id f.block f.size copied kept s).0, before ++ after)
  commit_begun :
      {s : Store} {fs : List Flight} (tenant : Tenant) (id : ℕ) (blocks : List String)
      → Step (s, fs) ((begin_commit tenant id blocks s).0, fs)
  commit_published :
      {s : Store} {fs : List Flight} (e : Entry) (kept : Bool)
      → Step (s, fs) ((publish_commit e kept s).0, fs)
  commit_finished : {s : Store} {fs : List Flight} (id : ℕ) → Step (s, fs) (finish_commit id s, fs)
  finalized :
      {s : Store} {fs : List Flight} (now : ℕ) (saved : Bool) (tenant : Tenant)
      (ref owner key version : String) (size : ℕ)
      → Step (s, fs) ((finalize now saved tenant ref owner key version size s).0, fs)
  looked_up :
      {s : Store} {fs : List Flight} (disk : ℕ → Removal) (now : ℕ) (saved : Bool) (tenant : Tenant)
      (refs : List String) (key version : String) (restore : List String)
      → Step (s, fs) ((look_up disk now saved tenant refs key version restore s).0, fs)
  listed :
      {s : Store} {fs : List Flight} (disk : ℕ → Removal) (now : ℕ) (tenant : Tenant)
      (refs : List String) (prefix : String)
      → Step (s, fs) ((list_entries disk now tenant refs prefix s).0, fs)
  opened :
      {s : Store} {fs : List Flight} (now : ℕ) (saved : Bool) (tenant : Tenant) (id : ℕ)
      → Step (s, fs) ((open_entry now saved tenant id s).0, fs)
  cleaned :
      {s : Store} {fs : List Flight} (disk : ℕ → Removal) (now : ℕ)
      → Step (s, fs) ((cleanup disk now s).0, fs)

-- The counts of the store are those of the flights.
abbrev pub AreCounted : Store → List Flight → Type 0
AreCounted s fs = (k : ℕ) → (s.active k ≡ uploads k fs) × (s.reserved k ≡ bytes k fs)

-- What is reached from a well-formed store without uploads.
pub data Reach : System → Type 0 where
  begins :
      {s : Store}
      → IsWellFormed s
      → ((k : ℕ) → (s.active k ≡ 0) × (s.reserved k ≡ 0))
      → Reach (s, [])
  then_step : {w v : System} → Reach w → Step w v → Reach v
