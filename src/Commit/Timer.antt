-- ===== src/Commit/Timer.antt =====
-- ncc_commit_timeout_schedule and ncc_try_restore of src/netconf_confirmed_commit.c.
pub mod Restarted
use netopeer.Common.{
  ℕ, ◌+◌, ◌-◌, ◌%◌, ◌==◌, ltb, Bool, true, false, not, List, [], ◌∷◌, Option, none, some,
  if◌then◌else◌,
}
use netopeer.Sysrepo.{Code, sr_ok, sr_err_sys, is_ok}
use netopeer.Commit.Types.{Timer, Ncc, World}
use netopeer.Commit.Backup.{read_meta_file}

-- timer_settime(2): a time of 0 disarms the timer.
abbrev pub arm : ℕ → ℕ → List Timer → List Timer
arm id seconds timers =
    if seconds == 0 then timers else record { id = id; seconds = seconds } ∷ timers

-- timer_delete(2)
unfoldable pub disarm : ℕ → List Timer → List Timer
disarm id [] = []
disarm id (t ∷ ts) = let rest = disarm id ts in if t.id == id then rest else t ∷ rest

unfoldable pub commit_timeout_schedule : World → ℕ → Ncc → Ncc × Code
commit_timeout_schedule w timeout s = elim w.timer_create [
  | none ↦ (s, sr_err_sys)
  | some id ↦
      if w.timer_settime
      then (record s { timer = id; armed = arm id timeout s.armed }, sr_ok)
      else (s, sr_err_sys)
]

-- The time that is left, on a uint32_t.
abbrev pub new_timeout : ℕ → ℕ → ℕ → ℕ
new_timeout timestamp timeout current =
    if ltb current (timestamp + timeout) then (timestamp + timeout - current) % 4294967296 else 0

unfoldable pub try_restore : World → Ncc → Ncc
unfolding read_meta_file commit_timeout_schedule
try_restore w s =
    let ((timestamp, timeout), rc) = read_meta_file w s in
    if not (is_ok rc)
    then s
    else if timestamp == 0
    then s
    else (commit_timeout_schedule w (new_timeout timestamp timeout w.now) s).0

-- The server is started again: commit_ctx as it is initialised, no timer, and ncc_try_restore.
unfoldable pub restart : World → Ncc → Ncc
unfolding try_restore
restart w s = try_restore w (record s { persist = none; timer = 0; armed = [] })
