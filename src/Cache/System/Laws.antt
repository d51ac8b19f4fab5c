-- ===== src/Cache/System/Laws.antt =====
-- The counts and the form of the store hold at every moment.
use open_actions.Base.{
  ℕ, String, Bool, true, ◌||◌, ◌==◌, ◌≡◌, ◌≢◌, inl, inr, refl, sym, ◌∙◌, subst, arith, List, [],
  ◌∷◌, ◌++◌, eqb, ltb, length, Option, none, some, Bool-cases, Option-cases,
}
use open_actions.Base.Result.{Result, ok, err, Result-cases}
use open_actions.Cache.Commit.{
  stands, copies, plan_commit, begin_commit, publish_commit, finish_commit,
}
use open_actions.Cache.Policy.{Tenant}
use open_actions.Cache.Room.{make_room}
use open_actions.Cache.Room.Budget.{IsWellFormed}
use open_actions.Cache.Room.Order.{IsDistinct}
use mathlib.Core.List.{Memᴰ}
use Prim.Native.String.{len}
use open_actions.Cache.Serving.{
  finalize-Steady, look_up-Steady, list_entries-Steady, open_entry-Steady,
}
use open_actions.Cache.Sound.{
  IsSound, IsSound-IsWellFormed, Steady, Steady-refl, with_entry-Steady, save_entry-Steady,
}
use open_actions.Cache.Steady.{make_room-Steady, cleanup-Steady, create-Steady}
use open_actions.Cache.Store.{CacheError, invalid, Entry, Store, Removal}
use open_actions.Cache.System.{
  Flight, uploads, bytes, System, Step, created, stage_begun, stage_refused, stage_ended,
  commit_begun, commit_published, commit_finished, finalized, looked_up, listed, opened, cleaned,
  AreCounted, Reach, begins, then_step,
}
use open_actions.Cache.Upload.{
  Admission, sends, compares, find_entry, block_size, admit, and_then, count_upload, end_upload,
  begin_stage, staged_blob, staged_block, store_staged, end_stage,
}

quiet-bytes : (k : ℕ) (fs : List Flight) → uploads k fs ≡ 0 → bytes k fs ≡ 0
quiet-bytes k [] h = refl
quiet-bytes k (f ∷ fs) h = ground (arith, quiet-bytes k fs)

-- A flight among others counts once.
uploads-split :
    (k : ℕ) (before : List Flight) (f : Flight) (after : List Flight)
    → uploads k (before ++ f ∷ after) ≡ uploads k (f ∷ before ++ after)
uploads-split k [] f after = refl
uploads-split k (g ∷ before) f after = ground (arith, uploads-split k before f after)

bytes-split :
    (k : ℕ) (before : List Flight) (f : Flight) (after : List Flight)
    → bytes k (before ++ f ∷ after) ≡ bytes k (f ∷ before ++ after)
bytes-split k [] f after = refl
bytes-split k (g ∷ before) f after = ground (arith, bytes-split k before f after)

AreCounted-Steady :
    (s t : Store) (fs : List Flight) → Steady s t → AreCounted s fs → AreCounted t fs
AreCounted-Steady s t fs (_, same) counted k =
    ((same k).0 ∙ (counted k).0, (same k).1 ∙ (counted k).1)

-- What holds of a system at every moment.
abbrev pub IsTracked : System → Type 0
IsTracked (s, fs) = IsSound s × AreCounted s fs

Steady-IsTracked :
    (s t : Store) (fs : List Flight) → Steady s t → IsTracked (s, fs) → IsTracked (t, fs)
Steady-IsTracked s t fs steady (sound, counted) =
    (steady.0, AreCounted-Steady s t fs steady counted)

counted-IsSound :
    (s t : Store) (fs : List Flight)
    → t.entries ≡ s.entries
    → IsSound s
    → AreCounted t fs
    → IsSound t
counted-IsSound s t fs same sound counted = record {
  distinct = subst (λ es. IsDistinct es) (sym same) sound.distinct;
  uploaded = λ e m done. sound.uploaded e (subst (λ es. Memᴰ e es) same m) done;
  calm = λ k h. (counted k).1 ∙ quiet-bytes k fs (sym (counted k).0 ∙ h);
}

count_upload-IsTracked :
    (id : ℕ) (block : String) (size : ℕ) (s : Store) (fs : List Flight)
    → IsTracked (s, fs)
    → IsTracked (count_upload id size s, record { id = id; block = block; size = size } ∷ fs)
count_upload-IsTracked id block size s fs (sound, counted) =
    let f : Flight = record { id = id; block = block; size = size } in
    let next : AreCounted (count_upload id size s) (f ∷ fs) =
      λ k. (ground (arith, (counted k).0), ground (arith, (counted k).1)) in
    (counted-IsSound s (count_upload id size s) (f ∷ fs) refl sound next, next)

end_upload-IsTracked :
    (f : Flight) (s : Store) (before after : List Flight)
    → IsTracked (s, before ++ f ∷ after)
    → IsTracked (end_upload f.id f.size s, before ++ after)
end_upload-IsTracked f s before after (sound, counted) =
    let next : AreCounted (end_upload f.id f.size s) (before ++ after) = λ k. (
      ground (arith, (counted k).0, uploads-split k before f after),
      ground (arith, (counted k).1, bytes-split k before f after),
    ) in
    (counted-IsSound s (end_upload f.id f.size s) (before ++ after) refl sound next, next)

-- The second critical section of Stage, after the upload was counted out.
store_staged-Steady :
    (e : Entry) (block : String) (size : ℕ) (digest : String) (kept : Bool) (s : Store)
    → IsSound s
    → Steady s (store_staged e block size digest kept s).0
unfolding store_staged
store_staged-Steady e block size digest kept s sound =
    elim (Bool-cases (e.uploaded || e.finalized)) [
      | inl late ↦ rw (late, store_staged) (Steady-refl s sound)
      | inr early ↦ elim (Bool-cases (block == "")) [
        | inr named ↦
            rw (early, store_staged, named)
              (with_entry-Steady (staged_block block size e) s (λ h. ground (arith, early, h))
                sound)
        | inl blob ↦ elim (Bool-cases (eqb (length e.blocks) 0)) [
          | inr mixed ↦ rw (early, store_staged, blob, mixed) (Steady-refl s sound)
          | inl alone ↦ elim (Bool-cases kept) [
            | inr lost ↦ rw (early, store_staged, blob, alone, lost) (Steady-refl s sound)
            | inl there ↦
                rw (early, store_staged, blob, alone, there)
                  (with_entry-Steady (staged_blob size digest e) s (λ h. refl) sound)
          ]
        ]
      ]
    ]

end_stage-Steady :
    (id : ℕ) (block : String) (size : ℕ) (copied : Result CacheError String) (kept : Bool)
    (s : Store)
    → IsSound (end_upload id size s)
    → Steady (end_upload id size s) (end_stage id block size copied kept s).0
unfolding end_stage
end_stage-Steady id block size (err e) kept s sound = Steady-refl (end_upload id size s) sound
end_stage-Steady id block size (ok digest) kept s sound =
    elim (Option-cases (find_entry id s.entries)) [
      | inl gone ↦ rw (gone, end_stage) (Steady-refl (end_upload id size s) sound)
      | inr (e, there) ↦
          rw (there, end_stage)
            (store_staged-Steady e block size digest kept (end_upload id size s) sound)
    ]

-- A section of Stage on an outcome of makeRoomLocked.
room-IsTracked :
    (id : ℕ) (block : String) (size : ℕ) (e : Entry) (s : Store) (o : Store × Option CacheError)
    (fs : List Flight)
    → Steady s o.0
    → IsTracked (s, fs)
    → ((x : Entry)
        → (and_then o (λ t. (count_upload id size t, ok (sends e)))).1 ≡ ok (sends x)
        → IsTracked (
          (and_then o (λ t. (count_upload id size t, ok (sends e)))).0,
          record { id = id; block = block; size = size } ∷ fs,
        ))
      × (((x : Entry) → (and_then o (λ t. (count_upload id size t, ok (sends e)))).1 ≢ ok (sends x))
          → IsTracked ((and_then o (λ t. (count_upload id size t, ok (sends e)))).0, fs))
room-IsTracked id block size e s (t, none) fs steady tracked = (
  λ x h. count_upload-IsTracked id block size t fs (Steady-IsTracked s t fs steady tracked),
  λ never. absurd (never e refl),
)
room-IsTracked id block size e s (t, some bad) fs steady tracked =
    (λ x h. absurd (cc), λ never. Steady-IsTracked s t fs steady tracked)

-- The first critical section of Stage, admitted or not.
abbrev StageTracked : ℕ → String → ℕ → List Flight → Store × Result CacheError Admission → Type 0
StageTracked id block size fs o =
    ((x : Entry)
      → o.1 ≡ ok (sends x)
      → IsTracked (o.0, record { id = id; block = block; size = size } ∷ fs))
    × (((x : Entry) → o.1 ≢ ok (sends x)) → IsTracked (o.0, fs))

refused-StageTracked :
    (id : ℕ) (block : String) (size : ℕ) (fs : List Flight) (s : Store)
    (r : Result CacheError Admission)
    → ((x : Entry) → r ≢ ok (sends x))
    → IsTracked (s, fs)
    → StageTracked id block size fs (s, r)
refused-StageTracked id block size fs s r never tracked = (λ x h. absurd (never x h), λ _. tracked)

begin_stage-StageTracked :
    (disk : ℕ → Removal) (tenant : Tenant) (id : ℕ) (block : String) (size : ℕ) (s : Store)
    (fs : List Flight)
    → IsTracked (s, fs)
    → StageTracked id block size fs (begin_stage disk tenant id block size s)
unfolding begin_stage
begin_stage-StageTracked disk tenant id block size s fs tracked =
    elim (Bool-cases (ltb 1024 (len block) || ltb s.limits.max_entry_bytes size)) [
      | inl bad ↦
          rw (bad, begin_stage)
            (refused-StageTracked id block size fs s (err invalid) (λ x h. absurd (cc)) tracked)
      | inr fine ↦ elim (Result-cases (admit s tenant id block size)) [
        | inl (e, q) ↦
            rw (fine, begin_stage, q)
              (refused-StageTracked id block size fs s (err e) (λ x h. absurd (cc)) tracked)
        | inr (compares, q) ↦
            rw (fine, begin_stage, q)
              (refused-StageTracked id block size fs s (ok compares) (λ x h. absurd (cc)) tracked)
        | inr (sends e, q) ↦
            rw (fine, begin_stage, q)
              (room-IsTracked id block size e s
                (make_room tenant disk s size (block_size e block) id) fs
                (make_room-Steady tenant disk s size (block_size e block) id tracked.0) tracked)
      ]
    ]

committing-Steady : (s : Store) (c : ℕ → Bool) → IsSound s → Steady s (record s { committing = c })
committing-Steady s c sound = (
  record { distinct = sound.distinct; uploaded = sound.uploaded; calm = sound.calm },
  λ k. (refl, refl),
)

begin_commit-Steady :
    (tenant : Tenant) (id : ℕ) (blocks : List String) (s : Store)
    → IsSound s
    → Steady s (begin_commit tenant id blocks s).0
unfolding begin_commit
begin_commit-Steady tenant id blocks s sound =
    elim (Result-cases (plan_commit s tenant id blocks)) [
      | inl (e, q) ↦ rw (q, begin_commit) (Steady-refl s sound)
      | inr (stands e, q) ↦ rw (q, begin_commit) (Steady-refl s sound)
      | inr (copies e, q) ↦ rw (q, begin_commit) (committing-Steady s _ sound)
    ]

publish_commit-Steady :
    (e : Entry) (kept : Bool) (s : Store) → IsSound s → Steady s (publish_commit e kept s).0
unfolding publish_commit
publish_commit-Steady e kept s sound =
    save_entry-Steady kept (record e { uploaded = true }) s (λ h. refl) sound

finish_commit-Steady : (id : ℕ) (s : Store) → IsSound s → Steady s (finish_commit id s)
unfolding finish_commit
finish_commit-Steady id s sound = committing-Steady s _ sound

Step-IsTracked : {w v : System} → Step w v → IsTracked w → IsTracked v
Step-IsTracked (created {s} {fs} disk now random saved tenant ref owner key version) h =
    Steady-IsTracked s _ fs (create-Steady disk now random saved tenant ref owner key version s h.0)
      h
Step-IsTracked (stage_begun {s} {fs} disk tenant id block size e q) h =
    (begin_stage-StageTracked disk tenant id block size s fs h).0 e q
Step-IsTracked (stage_refused {s} {fs} disk tenant id block size never) h =
    (begin_stage-StageTracked disk tenant id block size s fs h).1 never
Step-IsTracked (stage_ended {s} before f after copied kept) h =
    let out = end_upload-IsTracked f s before after h in
    Steady-IsTracked (end_upload f.id f.size s) _ (before ++ after)
      (end_stage-Steady f.id f.block f.size copied kept s out.0) out
Step-IsTracked (commit_begun {s} {fs} tenant id blocks) h =
    Steady-IsTracked s _ fs (begin_commit-Steady tenant id blocks s h.0) h
Step-IsTracked (commit_published {s} {fs} e kept) h =
    Steady-IsTracked s _ fs (publish_commit-Steady e kept s h.0) h
Step-IsTracked (commit_finished {s} {fs} id) h =
    Steady-IsTracked s _ fs (finish_commit-Steady id s h.0) h
Step-IsTracked (finalized {s} {fs} now saved tenant ref owner key version size) h =
    Steady-IsTracked s _ fs (finalize-Steady now saved tenant ref owner key version size s h.0) h
Step-IsTracked (looked_up {s} {fs} disk now saved tenant refs key version restore) h =
    Steady-IsTracked s _ fs (look_up-Steady disk now saved tenant refs key version restore s h.0) h
Step-IsTracked (listed {s} {fs} disk now tenant refs prefix) h =
    Steady-IsTracked s _ fs (list_entries-Steady disk now tenant refs prefix s h.0) h
Step-IsTracked (opened {s} {fs} now saved tenant id) h =
    Steady-IsTracked s _ fs (open_entry-Steady now saved tenant id s h.0) h
Step-IsTracked (cleaned {s} {fs} disk now) h =
    Steady-IsTracked s _ fs (cleanup-Steady disk now s h.0) h

Reach-IsTracked : {w : System} → Reach w → IsTracked w
Reach-IsTracked (begins {s} formed free) = (
  record { distinct = formed.distinct; uploaded = formed.uploaded; calm = λ k _. (free k).1 },
  free,
)
Reach-IsTracked (then_step r step) = Step-IsTracked step (Reach-IsTracked r)

-- However the critical sections of Create, Stage, Commit, Finalize, Lookup, List, Open and Cleanup
-- follow each other, from a well-formed store without uploads on: the store is well formed, and for
-- every ID `active` counts the uploads in flight and `reserved` sums their sizes.
pub Reach-IsWellFormed :
    (s : Store) (fs : List Flight)
    → Reach (s, fs)
    → IsWellFormed s × ((k : ℕ) → (s.active k ≡ uploads k fs) × (s.reserved k ≡ bytes k fs))
Reach-IsWellFormed s fs r =
    let (sound, counted) = Reach-IsTracked r in (IsSound-IsWellFormed s sound, counted)
