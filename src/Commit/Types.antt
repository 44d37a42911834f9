-- ===== src/Commit/Types.antt =====
-- The state of src/netconf_confirmed_commit.c: commit_ctx, its timers, the backup directory, and the
-- datastores; and what the calls of the system, libyang and sysrepo give.
use netopeer.Common.{ℕ, Bool, List, Option, CString}
use netopeer.Sysrepo.{Code}

-- A file of NCC_DIR: the meta file with its two numbers, a printed configuration, or other text. A
-- configuration is the list of its top-level trees, each as it is printed.
pub data File : Type 0 where
  meta : (time : ℕ) → (timeout : ℕ) → File
  printed : List CString → File
  text : File

pub record Entry : Type 0 where
  pub name : CString
  pub file : File

-- A timer that is armed: its ID and the seconds it was given.
pub record Timer : Type 0 where
  pub id : ℕ
  pub seconds : ℕ

-- The two directories, np2srv.server_dir and NCC_DIR in it.
pub data Place : Type 0 where
  server_dir ncc_dir : Place

-- What stat(2) and chmod(2) work on.
pub record Node : Type 0 where
  pub uid : ℕ
  pub gid : ℕ
  pub mode : ℕ

pub record Dirs : Type 0 where
  pub server : Option Node
  pub ncc : Option Node

-- A configuration datastore: the top-level trees of each module, in their order.
abbrev pub Datastore : Type 0
Datastore = CString → List CString

-- `timer` is 0 if there is none. Several timers can be armed.
pub record Ncc : Type 0 where
  pub persist : Option CString
  pub timer : ℕ
  pub armed : List Timer
  pub dirs : Dirs
  pub files : List Entry
  pub running : Datastore
  pub candidate : Datastore

-- A module of the context, and what the calls for it give: whether it has configuration
-- (np_ly_mod_has_data), sr_check_module_ds_access, sr_get_data and lyd_print_path.
pub record Module : Type 0 where
  pub name : CString
  pub implemented : Bool
  pub has_config : Bool
  pub access : Code
  pub read : Bool
  pub write : Bool
  pub get_data : Code
  pub prints : Bool

-- What the calls give while one function runs. A call on a file or a module may depend on it.
pub record World : Type 0 where
  pub now : ℕ
  pub now_text : CString
  pub euid : ℕ
  pub egid : ℕ
  pub can_mkdir : Place → Bool
  pub can_chown : Place → Bool
  pub can_chmod : Place → Bool
  pub session_start : Code
  pub opendir : Bool
  pub modules : List Module
  pub parses : List CString → Bool
  pub replace_config : CString → Code
  pub can_unlink : CString → Bool
  pub can_rename : CString → Bool
  pub opens_meta : Bool
  pub timer_create : Option ℕ
  pub timer_settime : Bool
  pub switch_ds : Code
  pub copy_config : Code
