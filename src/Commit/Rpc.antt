-- ===== src/Commit/Rpc.antt =====
-- The RPC callbacks of src/netconf_confirmed_commit.c: commit, confirmed commit and cancel-commit.
pub mod Confirms
pub mod Pending
pub mod Cancelled
use netopeer.Common.{
  ℕ, ◌+◌, ◌-◌, ◌*◌, ◌%◌, ◌==◌, ltb, Bool, true, false, not, ◌||◌, ◌&&◌, List, [], ◌∷◌, Option, none,
  some, CString, str_eq, if◌then◌else◌,
}
use netopeer.Sysrepo.{Code, sr_ok, sr_err_inval_arg, assertion, is_ok}
use netopeer.Commit.Types.{Ncc, World}
use netopeer.Commit.Backup.{set_running_backup, create_meta_file}
use netopeer.Commit.Timer.{commit_timeout_schedule}
use netopeer.Commit.Rollback.{commit_confirmed, commit_cancel}

-- The nodes of the input; `ignored` is NP_IGNORE_RPC, `user_sess` what np_get_user_sess gives.
pub record Input : Type 0 where
  pub ignored : Bool
  pub user_sess : Code
  pub confirmed : Bool
  pub confirm_timeout : Option CString
  pub persist : Option CString
  pub persist_id : Option CString

-- strtoul on digits, `none` if anything stands behind them; the number is put in a uint32_t.
unfoldable pub parse_digits : ℕ → CString → Option ℕ
parse_digits n [] = some (n % 4294967296)
parse_digits n (c ∷ s) =
    let rest = parse_digits (n * 10 + (c - b'0')) s in
    if ltb c b'0' || ltb b'9' c then none else rest

abbrev pub set_persist : Option CString → Ncc → Ncc
set_persist value s = record s { persist = value }

-- if (persist) ncc_set_persist(persist)
abbrev pub set_given : Option CString → Ncc → Ncc
set_given none s = s
set_given (some p) s = set_persist (some p) s

-- if (persist_id) ncc_set_persist(NULL)
abbrev pub clear_given : Option CString → Ncc → Ncc
clear_given none s = s
clear_given (some p) s = set_persist none s

-- sr_copy_config of candidate to running
abbrev pub copy_config : World → Ncc → Ncc × Code
copy_config w s =
    if is_ok w.copy_config then (record s { running = s.candidate }, sr_ok) else (s, w.copy_config)

-- From the backup on; a failed backup or timer ends the callback with the code that rc holds.
unfoldable pub start_commit : World → ℕ → Option CString → Ncc → Ncc × Code
unfolding set_running_backup create_meta_file commit_timeout_schedule
start_commit w timeout persist s =
    let saved = set_running_backup w s in
    let noted = create_meta_file w timeout saved.0 in
    let scheduled = commit_timeout_schedule w timeout (set_given persist noted) in
    if not (is_ok saved.1)
    then (saved.0, sr_ok)
    else if not (is_ok scheduled.1)
    then (scheduled.0, sr_ok)
    else copy_config w scheduled.0

unfoldable pub confirmed_commit_cb : World → Input → Ncc → Ncc × Code
unfolding parse_digits start_commit
confirmed_commit_cb w i s =
    if not (is_ok i.user_sess) then (s, i.user_sess) else elim i.confirm_timeout [
      | none ↦ (s, assertion)
      | some value ↦ elim (parse_digits 0 value) [
        | none ↦ (s, sr_err_inval_arg)
        | some timeout ↦ elim i.persist_id [
          | some _ ↦ (s, sr_err_inval_arg)
          | none ↦
              if is_ok w.switch_ds then start_commit w timeout i.persist s else (s, w.switch_ds)
        ]
      ]
    ]

-- (persist && !persist_id) || (!persist && persist_id) || (both && strcmp(persist, persist_id))
abbrev pub mismatch : Option CString → Option CString → Bool
mismatch none none = false
mismatch none (some id) = true
mismatch (some p) none = true
mismatch (some p) (some id) = not (str_eq p id)

-- A commit that confirms: persist is cleared if it was given, and the pending commit is confirmed.
unfoldable pub confirm : World → Option CString → Ncc → Ncc
unfolding commit_confirmed
confirm w id s =
    let cleared = clear_given id s in
    if cleared.timer == 0 then cleared else commit_confirmed w cleared

unfoldable pub rpc_commit_cb : World → Input → Ncc → Ncc × Code
unfolding confirmed_commit_cb confirm
rpc_commit_cb w i s =
    if i.ignored
    then (s, sr_ok)
    else if not (is_ok i.user_sess)
    then (s, i.user_sess)
    else if i.confirmed
    then confirmed_commit_cb w i s
    else if mismatch s.persist i.persist_id
    then (s, sr_err_inval_arg)
    else copy_config w (confirm w i.persist_id s)

unfoldable pub rpc_cancel_commit_cb : World → Input → Ncc → Ncc × Code
unfolding commit_cancel
rpc_cancel_commit_cb w i s =
    if i.ignored
    then (s, sr_ok)
    else if mismatch s.persist i.persist_id
    then (s, sr_err_inval_arg)
    else (commit_cancel w s, sr_ok)
