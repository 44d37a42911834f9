-- ===== src/Commit/Backup.antt =====
-- The backup of running and the meta file: set_running_backup, create_meta_file and read_meta_file of
-- src/netconf_confirmed_commit.c.
pub mod Plain
pub mod Saved
pub mod Noted
use netopeer.Common.{
  ℕ, ◌%◌, Bool, true, false, not, ◌||◌, List, [], ◌∷◌, Option, none, some, CString, if◌then◌else◌,
}
use netopeer.Sysrepo.{Code, sr_ok, sr_err_sys, sr_err_ly, is_ok}
use netopeer.Commit.Types.{File, meta, printed, text, Entry, Dirs, Ncc, Module, World}
use netopeer.Commit.Directory.{check_dir}
use netopeer.Commit.Files.{find_file, write_file, meta_file, backup_file}

-- lyd_print_path without LYD_PRINT_WITHSIBLINGS prints the first tree, an empty configuration if there
-- is none.
abbrev pub first_tree : List CString → List CString
first_tree [] = []
first_tree (t ∷ ts) = t ∷ []

unfoldable pub backup_module : Module → Ncc → Ncc × Code
unfolding write_file
backup_module m s =
    if is_ok m.get_data
    then if m.prints
      then (
        record s {
          files = write_file (backup_file m.name) (printed (first_tree (s.running m.name))) s.files;
        },
        sr_ok,
      )
      else (s, sr_err_ly)
    else (s, m.get_data)

-- Whether the loop passes over a module without an error.
abbrev pub is_passed_over : Module → Bool
is_passed_over m = not m.implemented || not m.has_config

unfoldable pub backup_modules : List Module → Ncc → Ncc × Code
unfolding backup_module
backup_modules [] s = (s, sr_ok)
backup_modules (m ∷ ms) s =
    let done = backup_module m s in
    let rest = backup_modules ms s in
    let next = backup_modules ms done.0 in
    if is_passed_over m
    then rest
    else if not (is_ok m.access)
    then (s, m.access)
    else if not m.read || not m.write
    then rest
    else if is_ok done.1
    then next
    else done

unfoldable pub set_running_backup : World → Ncc → Ncc × Code
unfolding check_dir backup_modules
set_running_backup w s =
    let checked = check_dir w s.dirs in
    let ready = record s { dirs = checked.0 } in
    if not (is_ok w.session_start)
    then (s, w.session_start)
    else if not (is_ok checked.1)
    then (ready, checked.1)
    else backup_modules w.modules ready

unfoldable pub create_meta_file : World → ℕ → Ncc → Ncc
unfolding write_file
create_meta_file w timeout s =
    if w.opens_meta
    then record s { files = write_file meta_file (meta w.now timeout) s.files }
    else s

-- The two numbers; 0 and 0 with SR_ERR_OK if there is no file.
unfoldable pub read_meta_file : World → Ncc → (ℕ × ℕ) × Code
unfolding find_file
read_meta_file w s = elim (find_file meta_file s.files) [
  | none ↦ ((0, 0), sr_ok)
  | some file ↦
      if w.opens_meta
      then elim file [
        | meta time timeout ↦ ((time, timeout), sr_ok)
        | printed _ ↦ ((0, 0), sr_err_sys)
        | text ↦ ((0, 0), sr_err_sys)
      ]
      else ((0, 0), sr_err_sys)
]
