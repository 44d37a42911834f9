-- ===== src/Commit/Directory.antt =====
-- ncc_check_dir of src/netconf_confirmed_commit.c: the two directories, their owner and permissions.
pub mod Checked
use netopeer.Common.{
  ℕ, ◌==◌, ◌&&◌, ◌≡◌, refl, Bool, true, false, Option, none, some, if◌then◌else◌, arith,
  Option-cases,
}
use netopeer.Sysrepo.{Code, sr_ok, sr_err_sys}
use netopeer.Commit.Types.{Place, server_dir, ncc_dir, Node, Dirs, World}

abbrev pub get : Place → Dirs → Option Node
get server_dir d = d.server
get ncc_dir d = d.ncc

abbrev pub put : Place → Node → Dirs → Dirs
put server_dir n d = record d { server = some n }
put ncc_dir n d = record d { ncc = some n }

-- S_IRWXU
abbrev pub rwxu : ℕ
rwxu = 448

-- mkdir(2): an error other than EEXIST is SR_ERR_SYS.
unfoldable pub check_dir_exists : World → Place → Dirs → Dirs × Code
check_dir_exists w p d = elim (get p d) [
  | some n ↦ (d, sr_ok)
  | none ↦
      if w.can_mkdir p
      then (put p (record { uid = w.euid; gid = w.egid; mode = rwxu }) d, sr_ok)
      else (d, sr_err_sys)
]

-- chown(np2srv.server_dir, euid, egid)
abbrev chown_server : World → Dirs → Dirs × Code
chown_server w d = elim d.server [
  | none ↦ (d, sr_err_sys)
  | some n ↦
      if w.can_chown server_dir
      then (record d { server = some (record n { uid = w.euid; gid = w.egid }) }, sr_ok)
      else (d, sr_err_sys)
]

unfoldable pub check_dir_owner : World → Place → Dirs → Dirs × Code
check_dir_owner w p d = elim (get p d) [
  | none ↦ (d, sr_err_sys)
  | some n ↦ if n.uid == w.euid && n.gid == w.egid then (d, sr_ok) else chown_server w d
]

unfoldable pub check_dir_permissions : World → Place → Dirs → Dirs × Code
check_dir_permissions w p d = elim (get p d) [
  | none ↦ (d, sr_err_sys)
  | some n ↦ if w.can_chmod p then (put p (record n { mode = rwxu }) d, sr_ok) else (d, sr_err_sys)
]

-- if ((rc = ...)) goto cleanup;
abbrev pub and_then : Dirs × Code → (Dirs → Dirs × Code) → Dirs × Code
and_then (d, sr_ok) next = next d
and_then (d, c) next = (d, c)

-- Create folders if they do not exist
unfoldable pub create_dirs : World → Dirs → Dirs × Code
unfolding check_dir_exists
create_dirs w d = and_then (check_dir_exists w server_dir d) (λ d1. check_dir_exists w ncc_dir d1)

-- Check ownership, change if not current user
unfoldable pub own_dirs : World → Dirs → Dirs × Code
unfolding check_dir_owner
own_dirs w d = and_then (check_dir_owner w server_dir d) (λ d1. check_dir_owner w ncc_dir d1)

-- Check permissions, change if not 700
unfoldable pub close_dirs : World → Dirs → Dirs × Code
unfolding check_dir_permissions
close_dirs w d =
    and_then (check_dir_permissions w server_dir d) (λ d1. check_dir_permissions w ncc_dir d1)

unfoldable pub check_dir : World → Dirs → Dirs × Code
unfolding create_dirs own_dirs close_dirs
check_dir w d = and_then (create_dirs w d) (λ d1. and_then (own_dirs w d1) (λ d2. close_dirs w d2))
