-- ===== src/Tests/Commit.antt =====
-- Confirmed commits.
use netopeer.Common.{
  List, arith, ℕ, ◌+◌, ◌≡◌, ◌≢◌, refl, inl, true, false, [], ◌∷◌, none, some, CString, lit, strcmp,
  str_eq, strstr, starts_with,
}
use netopeer.Sysrepo.{sr_ok, sr_err_inval_arg}
use netopeer.Commit.Types.{Ncc, Module, World}
use netopeer.Commit.Directory.{check_dir}
use netopeer.Commit.Directory.Checked.{IsChecked, check_dir-IsChecked}
use netopeer.Commit.Files.{find_file, module_name_of, clean_backup_directory, rename_failed_file}
use netopeer.Commit.Backup.{set_running_backup, create_meta_file}
use netopeer.Commit.Timer.{restart, commit_timeout_schedule}
use netopeer.Commit.Timer.Restarted.{restart_in_time}
use netopeer.Commit.Rollback.{changes_rollback}
use netopeer.Commit.Rollback.Restored.{rollback_restores}
use netopeer.Commit.Rpc.{
  Input, parse_digits, confirmed_commit_cb, rpc_commit_cb, rpc_cancel_commit_cb,
}
use netopeer.Commit.Rpc.Confirms.{IsConfirmed, rpc_commit_cb_confirms, rpc_refuses}
use netopeer.Commit.Rpc.Pending.{Ends, confirmed_commit_starts}

program : Unit {0}
unfolding lit strcmp str_eq strstr starts_with check_dir find_file module_name_of
    clean_backup_directory rename_failed_file set_running_backup create_meta_file restart
    commit_timeout_schedule changes_rollback parse_digits confirmed_commit_cb rpc_commit_cb
    rpc_cancel_commit_cb
program = tt

-- A module of the name "m".
abbrev m : CString
m = b'm' ∷ []

abbrev id : CString
id = b'4' ∷ b'2' ∷ []

abbrev old : List CString
old = (b'1' ∷ []) ∷ (b'3' ∷ []) ∷ []

abbrev new : List CString
new = (b'2' ∷ []) ∷ []

abbrev a_module : Module
a_module = record {
  name = m;
  implemented = true;
  has_config = true;
  access = sr_ok;
  read = true;
  write = true;
  get_data = sr_ok;
  prints = true;
}

abbrev world : World
world = record {
  now = 1000;
  now_text = lit "1000";
  euid = 5;
  egid = 6;
  can_mkdir = λ p. true;
  can_chown = λ p. true;
  can_chmod = λ p. true;
  session_start = sr_ok;
  opendir = true;
  modules = a_module ∷ [];
  parses = λ d. true;
  replace_config = λ n. sr_ok;
  can_unlink = λ n. true;
  can_rename = λ n. true;
  opens_meta = true;
  timer_create = some 9;
  timer_settime = true;
  switch_ds = sr_ok;
  copy_config = sr_ok;
}

abbrev state : Ncc
state = record {
  persist = none;
  timer = 0;
  armed = [];
  dirs = record { server = some (record { uid = 0; gid = 0; mode = 511 }); ncc = none };
  files = [];
  running = λ n. old;
  candidate = λ n. new;
}

abbrev plain_commit : Input
plain_commit = record {
  ignored = false;
  user_sess = sr_ok;
  confirmed = false;
  confirm_timeout = none;
  persist = none;
  persist_id = none;
}

abbrev confirmed_commit : Input
confirmed_commit = record plain_commit {
  confirmed = true;
  confirm_timeout = some (lit "600");
  persist = some id;
}

-- A confirmed commit with a persist-id has been made.
abbrev pending : Ncc
pending = (rpc_commit_cb world confirmed_commit state).0

pending_armed : pending.armed ≡ record { id = 9; seconds = 600 } ∷ []
unfolding program
pending_armed = refl

pending_running : pending.running m ≡ new
unfolding program
pending_running = refl

check_dir-IsChecked_example : IsChecked world (check_dir world state.dirs).0
unfolding program
check_dir-IsChecked_example = check_dir-IsChecked world state.dirs refl

restart_in_time_example :
    (seconds : ℕ) × ((restart (record world { now = 1100 }) pending).armed
      ≡ record { id = 9; seconds = seconds } ∷ [])
    × (1100 + seconds ≡ 1000 + 600)
unfolding program
restart_in_time_example =
    restart_in_time (record world { now = 1100 }) pending 1000 600 9 refl refl refl refl
      (omega arith) (omega arith) (omega arith) (omega arith)

rollback_restores_example : (changes_rollback world pending).running m ≡ (b'1' ∷ []) ∷ []
unfolding program
rollback_restores_example =
    rollback_restores world world state pending 600 m refl (refl, tt)
      (inl (refl, (refl, refl, refl, refl))) tt refl refl
      (refl, refl, refl, λ y. refl, refl, refl, refl)

rpc_commit_cb_confirms_example :
    let t = (rpc_commit_cb world (record plain_commit { persist_id = some id }) pending).0 in
    (t.running ≡ pending.candidate) × IsConfirmed pending t
unfolding program
rpc_commit_cb_confirms_example =
    rpc_commit_cb_confirms world (record plain_commit { persist_id = some id }) pending refl refl
      refl

rpc_refuses_example :
    (rpc_commit_cb world plain_commit pending ≡ (pending, sr_err_inval_arg))
    × (rpc_cancel_commit_cb world plain_commit pending ≡ (pending, sr_err_inval_arg))
unfolding program
rpc_refuses_example = rpc_refuses world plain_commit pending refl refl refl other
  where
    other : pending.persist ≢ none
    other e = cc

confirmed_commit_starts_example :
    Ends world confirmed_commit state (confirmed_commit_cb world confirmed_commit state)
confirmed_commit_starts_example = confirmed_commit_starts world confirmed_commit state

abbrev unprinted : World
unprinted = record world { modules = record a_module { prints = false } ∷ [] }
