-- ===== src/Concurrency/Release.antt =====
-- releaseConcurrency: one reading of a group's Lease, and what becomes of it.
pub mod Laws
use open_actions.Base.{ℕ, String, Bool, true, false, not, Option, none, some, if◌then◌else◌}
use open_actions.Base.Result.{Result, ok, ◌>>=◌, ◌>>◌}
use open_actions.Concurrency.Gate.{Activity, is_member}
use open_actions.Concurrency.Lease.{
  Platform, Lease, lease_holder, lease_pending, set_pending, validate, give_to,
}
use open_actions.Concurrency.Member.{Member, Scope, GateError}

-- What an attempt asks of the API server.
pub data Release : Type 0 where
  nothing : Release
  put : Lease → Release
  remove : Release

module _ (p : Platform) where
  -- The holder leaves: an active pending member follows, and otherwise the Lease goes.
  unfoldable pub hand_over : Activity → ℕ → Option Member → Lease → Result GateError Release
  hand_over active now none lease = ok remove
  hand_over active now (some w) lease = do
    is_active ← active w
    ok (if is_active then put (set_pending p none (give_to w now lease)) else remove)

  unfoldable pub leave :
      Activity → Member → ℕ → Option Member → Option Member → Lease → Result GateError Release
  unfolding hand_over
  leave active m now holder pending lease =
      let queued = is_member pending m in
      let lease' = if queued then set_pending p none lease else lease in
      let pending' : Option Member = if queued then none else pending in
      if not (is_member holder m)
      then ok (if queued then put lease' else nothing)
      else hand_over active now pending' lease'

  -- One attempt, from the Lease that was read.
  unfoldable pub release : Activity → Scope → String → Member → ℕ → Lease → Result GateError Release
  unfolding leave
  release active scope group m now lease = do
    validate p lease scope group
    holder ← lease_holder lease
    pending ← lease_pending p lease
    leave active m now holder pending lease
