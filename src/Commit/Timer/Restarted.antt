-- ===== src/Commit/Timer/Restarted.antt =====
-- What ncc_try_restore of src/netconf_confirmed_commit.c arms after a restart.
use netopeer.Common.{ℕ, ◌+◌, ◌-◌, ◌≤◌, ◌<◌, ◌≡◌, true, [], ◌∷◌, none, some, arith}
use netopeer.Commit.Types.{meta, Ncc, World}
use netopeer.Commit.Files.{find_file, meta_file}
use netopeer.Commit.Backup.{read_meta_file}
use netopeer.Commit.Timer.{new_timeout, commit_timeout_schedule, try_restore, restart}

module _ (w : World) (s : Ncc) (time timeout id : ℕ) where
  restart-eq :
      find_file meta_file s.files ≡ some (meta time timeout)
      → w.opens_meta ≡ true
      → w.timer_create ≡ some id
      → w.timer_settime ≡ true
      → 0 < time
      → restart w s
        ≡ (commit_timeout_schedule w
            (new_timeout time timeout w.now)
            (record s { persist = none; timer = 0; armed = [] })).0
  unfolding restart try_restore read_meta_file
  restart-eq f o c t p = ground (arith, f, o, c, t, p)

  -- A server that is started again before the timeout of a confirmed commit arms one timer, which
  -- ends when the commit's timeout would have.
  pub restart_in_time :
      find_file meta_file s.files ≡ some (meta time timeout)
      → w.opens_meta ≡ true
      → w.timer_create ≡ some id
      → w.timer_settime ≡ true
      → 0 < time
      → timeout < 4294967296
      → time ≤ w.now
      → w.now < time + timeout
      → (seconds : ℕ) × ((restart w s).armed ≡ record { id = id; seconds = seconds } ∷ [])
        × (w.now + seconds ≡ time + timeout)
  unfolding commit_timeout_schedule
  restart_in_time f o c t p b l u =
      let e = restart-eq f o c t p in (time + timeout - w.now, ground (arith, e, c, t), omega arith)

  -- A server that is started again when the timeout has passed arms no timer, so that nothing rolls
  -- the confirmed commit back, but holds the timer's ID as that of a pending commit.
  pub restart_too_late :
      find_file meta_file s.files ≡ some (meta time timeout)
      → w.opens_meta ≡ true
      → w.timer_create ≡ some id
      → w.timer_settime ≡ true
      → 0 < time
      → time + timeout ≤ w.now
      → ((restart w s).armed ≡ [])
        × ((restart w s).timer ≡ id)
        × ((restart w s).running ≡ s.running)
  unfolding commit_timeout_schedule
  restart_too_late f o c t p l = let e = restart-eq f o c t p in ground (arith, e, c, t)
