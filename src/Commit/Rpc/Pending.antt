-- ===== src/Commit/Rpc/Pending.antt =====
-- What a confirmed commit leaves pending: src/netconf_confirmed_commit.c.
use netopeer.Common.{
  subst, not, ◌⊎◌, inl, inr, Bool-cases, Option-cases, if◌then◌else◌, ℕ, ◌≡◌, refl, true, false,
  Option, none, some, CString, arith, sym, ap, ◌∙◌,
}
use netopeer.Sysrepo.{Code, sr_ok, is_ok}
use netopeer.Commit.Types.{meta, Ncc, World}
use netopeer.Commit.Files.{find_file, meta_file}
use netopeer.Commit.Files.Lookup.{find_file-write_same}
use netopeer.Commit.Backup.{set_running_backup, create_meta_file}
use netopeer.Commit.Backup.Saved.{set_running_backup-files}
use netopeer.Commit.Timer.{arm, commit_timeout_schedule}
use netopeer.Commit.Rpc.{
  Input, parse_digits, start_commit, set_given, confirmed_commit_cb, copy_config,
}

-- Neither datastore nor what is pending has changed.
abbrev pub SamePending : Ncc → Ncc → Type 0
SamePending s t =
    (t.running ≡ s.running)
    × (t.candidate ≡ s.candidate)
    × (t.armed ≡ s.armed)
    × (t.timer ≡ s.timer)
    × (t.persist ≡ s.persist)

abbrev pub given_or : Option CString → Option CString → Option CString
given_or none old = old
given_or (some p) old = some p

-- From the backup on, with its code: the backup fails; or no timer is armed; or it is, and then candidate
-- is copied.
abbrev pub Begun : World → ℕ → Option CString → Ncc → Code → Ncc × Code → Type 0
Begun w timeout persist s backup r =
    ((is_ok backup ≡ false) × (r.1 ≡ sr_ok) × SamePending s r.0)
    ⊎ ((is_ok backup ≡ true)
        × ((w.timer_create ≡ none) ⊎ (w.timer_settime ≡ false))
        × (r.1 ≡ sr_ok)
        × SamePending s (record r.0 { persist = s.persist }))
    ⊎ ((id : ℕ) × (is_ok backup ≡ true)
        × (w.timer_create ≡ some id)
        × (w.timer_settime ≡ true)
        × (r.1 ≡ w.copy_config)
        × (r.0.running ≡ (if is_ok w.copy_config then s.candidate else s.running))
        × (r.0.candidate ≡ s.candidate)
        × (r.0.armed ≡ arm id timeout s.armed)
        × (r.0.timer ≡ id)
        × (r.0.persist ≡ given_or persist s.persist)
        × (w.opens_meta ≡ true → find_file meta_file r.0.files ≡ some (meta w.now timeout)))

module _ (w : World) (timeout : ℕ) where
  -- Behind the meta file: the states before and after it, and the code of the backup.
  behind_meta : Option CString → Ncc → Ncc → Code → Ncc × Code
  behind_meta persist saved noted backup =
      let scheduled = commit_timeout_schedule w timeout (set_given persist noted) in
      if not (is_ok backup)
      then (saved, sr_ok)
      else if not (is_ok scheduled.1)
      then (scheduled.0, sr_ok)
      else copy_config w scheduled.0

  -- The state with the persist-id given.
  given-SamePending :
      (persist : Option CString) (s noted : Ncc)
      → SamePending s noted
      → SamePending s (record (set_given persist noted) { persist = s.persist })
        × ((set_given persist noted).persist ≡ given_or persist s.persist)
        × ((set_given persist noted).files ≡ noted.files)
  given-SamePending none s noted (r, c, a, t, p) = ((r, c, a, t, refl), p, refl)
  given-SamePending (some x) s noted (r, c, a, t, p) = ((r, c, a, t, refl), refl, refl)

  copied :
      (persist : Option CString) (id : ℕ) (s given : Ncc)
      → SamePending s (record given { persist = s.persist })
      → given.persist ≡ given_or persist s.persist
      → (w.opens_meta ≡ true → find_file meta_file given.files ≡ some (meta w.now timeout))
      → w.timer_create ≡ some id
      → w.timer_settime ≡ true
      → Begun w timeout persist s sr_ok
          (copy_config w (record given { timer = id; armed = arm id timeout given.armed }))
  copied persist id s given (r, c, a, t, _) p f e o = elim (Bool-cases (is_ok w.copy_config)) [
    | inl k ↦
        let done : sr_ok ≡ w.copy_config = ground (arith, k) in
        rw k (inr (inr (id, refl, e, o, done, c, c, ap (arm id timeout) a, refl, p, f)))
    | inr k ↦ rw k (inr (inr (id, refl, e, o, refl, r, c, ap (arm id timeout) a, refl, p, f)))
  ]

  behind_meta-Begun :
      (persist : Option CString) (s saved noted : Ncc) (backup : Code)
      → SamePending s saved
      → SamePending s noted
      → (w.opens_meta ≡ true → find_file meta_file noted.files ≡ some (meta w.now timeout))
      → Begun w timeout persist s backup (behind_meta persist saved noted backup)
  unfolding behind_meta commit_timeout_schedule
  behind_meta-Begun persist s saved noted backup h k f =
      let (given, p, files) = given-SamePending persist s noted k in
      elim (Bool-cases (is_ok backup)) [
        | inr e ↦ rw e (inl (refl, refl, h))
        | inl e ↦ elim (Option-cases w.timer_create) [
          | inl c ↦ rw (e, c) (inr (inl (refl, inl refl, refl, given)))
          | inr (id, c) ↦ elim (Bool-cases w.timer_settime) [
            | inr o ↦ rw (e, c, o) (inr (inl (refl, inr refl, refl, given)))
            | inl o ↦
                let after = set_given persist noted in
                let ok : backup ≡ sr_ok = ground (arith, e) in
                let step : behind_meta persist saved noted backup
                    ≡ copy_config w
                        (record after { timer = id; armed = arm id timeout after.armed }) =
                  rw (behind_meta, e, c, o) in
                subst (Begun w timeout persist s backup) (sym step) (
                  subst
                    (λ b. Begun w timeout persist s b (
                      copy_config w
                        (record after { timer = id; armed = arm id timeout after.armed })))
                    (sym ok)
                    (copied persist id s after given p (λ g. ap (find_file meta_file) files ∙ f g) c
                      o))
          ]
        ]
      ]

  noted-SamePending :
      (s saved : Ncc)
      → SamePending s saved
      → SamePending s (create_meta_file w timeout saved)
        × (w.opens_meta ≡ true
            → find_file meta_file (create_meta_file w timeout saved).files
              ≡ some (meta w.now timeout))
  unfolding create_meta_file
  noted-SamePending s saved h = elim (Bool-cases w.opens_meta) [
    | inl o ↦
        rw (o, create_meta_file)
          (h, λ k. find_file-write_same meta_file (meta w.now timeout) saved.files)
    | inr o ↦ rw (o, create_meta_file) (h, λ k. cc)
  ]

  saved-SamePending : (s : Ncc) → SamePending s (set_running_backup w s).0
  saved-SamePending s =
      let k = set_running_backup-files w s in
      (
        ap (λ (t : Ncc). t.running) k,
        ap (λ (t : Ncc). t.candidate) k,
        ap (λ (t : Ncc). t.armed) k,
        ap (λ (t : Ncc). t.timer) k,
        ap (λ (t : Ncc). t.persist) k,
      )

  start_commit-Begun :
      (persist : Option CString) (s : Ncc)
      → Begun w timeout persist s (set_running_backup w s).1 (start_commit w timeout persist s)
  unfolding start_commit behind_meta
  start_commit-Begun persist s =
      let saved = (set_running_backup w s).0 in
      let h = saved-SamePending s in
      let (k, f) = noted-SamePending s saved h in
      behind_meta-Begun persist s saved (create_meta_file w timeout saved)
        (set_running_backup w s).1 h k f

-- Where it is refused nothing changes.
abbrev pub Ends : World → Input → Ncc → Ncc × Code → Type 0
Ends w i s r =
    ((r.0 ≡ s) × (is_ok r.1 ≡ false))
    ⊎ ((value : CString) × (timeout : ℕ) × (i.confirm_timeout ≡ some value)
        × (parse_digits 0 value ≡ some timeout)
        × Begun w timeout i.persist s (set_running_backup w s).1 r)

-- A confirmed commit is refused with an error and changes nothing; or it ends in one of three ways.
-- Where the backup of running fails, or no timer is armed, it is answered with success although
-- running, candidate and the timers are as they were. Otherwise a new timer is armed with the
-- timeout, in addition to those that are armed already, the time and the timeout stand in the meta
-- file if it can be written, the persist-id given is pending, and candidate is copied to running or
-- the error of the copy is returned.
pub confirmed_commit_starts :
    (w : World) (i : Input) (s : Ncc) → Ends w i s (confirmed_commit_cb w i s)
unfolding confirmed_commit_cb
confirmed_commit_starts w i s = elim (Bool-cases (is_ok i.user_sess)) [
  | inr u ↦ rw (u, confirmed_commit_cb) (inl (refl, u))
  | inl u ↦ elim (Option-cases i.confirm_timeout) [
    | inl v ↦ rw (u, v, confirmed_commit_cb) (inl (refl, refl))
    | inr (value, v) ↦ elim (Option-cases (parse_digits 0 value)) [
      | inl d ↦ rw (u, v, d, confirmed_commit_cb) (inl (refl, refl))
      | inr (timeout, d) ↦ elim (Option-cases i.persist_id) [
        | inr (x, p) ↦ rw (u, v, d, p, confirmed_commit_cb) (inl (refl, refl))
        | inl p ↦ elim (Bool-cases (is_ok w.switch_ds)) [
          | inr q ↦ rw (u, v, d, p, q, confirmed_commit_cb) (inl (refl, q))
          | inl q ↦
              rw (u, v, d, p, q, confirmed_commit_cb)
                (inr (value, timeout, refl, d, start_commit-Begun w timeout i.persist s))
        ]
      ]
    ]
  ]
]
