-- ===== src/Commit/Rollback.antt =====
-- changes_rollback, ncc_commit_confirmed and ncc_commit_cancel of src/netconf_confirmed_commit.c.
pub mod Kept
pub mod Restored
use netopeer.Common.{
  Bool, true, false, not, ◌||◌, ◌&&◌, List, [], ◌∷◌, Option, none, some, CString, lit, str_eq,
  if◌then◌else◌,
}
use netopeer.Sysrepo.{Code, sr_err_sys, Step, go, stop, is_ok, state_of}
use netopeer.Commit.Types.{File, meta, printed, text, Entry, Dirs, Datastore, Ncc, Module, World}
use netopeer.Commit.Directory.{check_dir}
use netopeer.Commit.Files.{
  find_file, unlink, meta_file, module_name_of, rename_failed_file, names_of,
  clean_backup_directory,
}
use netopeer.Commit.Timer.{disarm}

-- ly_ctx_get_module_implemented
unfoldable pub is_implemented : CString → List Module → Bool
is_implemented name [] = false
is_implemented name (m ∷ ms) =
    let rest = is_implemented name ms in if str_eq m.name name && m.implemented then true else rest

-- get_running_backup: the data of the file, if it is parsed.
abbrev pub get_running_backup : World → File → Option (List CString)
get_running_backup w (printed d) = if w.parses d then some d else none
get_running_backup w (meta time timeout) = none
get_running_backup w text = none

-- sr_replace_config for one module
abbrev pub replace_module : CString → List CString → Datastore → Datastore
replace_module name d running = λ m. if str_eq m name then d else running m

-- One file of the module is restored and removed; a failure renames it.
unfoldable pub restore_module : World → CString → CString → Ncc → Step Ncc
unfolding rename_failed_file is_implemented find_file unlink
restore_module w name module_name s =
    let failed = go (record s { files = rename_failed_file w module_name name s.files }) in
    if not (is_implemented module_name w.modules) then failed else elim (find_file name s.files) [
      | none ↦ failed
      | some file ↦ elim (get_running_backup w file) [
        | none ↦ failed
        | some d ↦
            let restored = record s { running = replace_module module_name d s.running } in
            if not (is_ok (w.replace_config module_name))
            then failed
            else if w.can_unlink name
            then go (record restored { files = unlink name s.files })
            else stop restored sr_err_sys
      ]
    ]

-- One name of the directory; another file than a backup is skipped.
unfoldable pub restore_file : World → Ncc → CString → Step Ncc
unfolding restore_module module_name_of
restore_file w s name =
    if str_eq name (lit ".") || str_eq name (lit "..") || str_eq name meta_file
    then go s
    else elim (module_name_of name) [
      | none ↦ go s
      | some module_name ↦ restore_module w name module_name s
    ]

-- The loop over the names read; then the meta file is removed.
unfoldable pub restore_files : World → List CString → Ncc → Ncc
unfolding restore_file unlink
restore_files w [] s =
    if w.can_unlink meta_file then record s { files = unlink meta_file s.files } else s
restore_files w (name ∷ names) s = elim (restore_file w s name) [
  | go t ↦ restore_files w names t
  | stop t code ↦ t
]

unfoldable pub changes_rollback : World → Ncc → Ncc
unfolding check_dir restore_files
changes_rollback w s =
    let checked = check_dir w s.dirs in
    let ready = record s { dirs = checked.0 } in
    if not (is_ok w.session_start)
    then s
    else if not (is_ok checked.1)
    then ready
    else if w.opendir
    then restore_files w (names_of s.files) ready
    else ready

unfoldable pub commit_confirmed : World → Ncc → Ncc
unfolding disarm clean_backup_directory
commit_confirmed w s = record s {
  timer = 0;
  armed = disarm s.timer s.armed;
  files = clean_backup_directory w s.files;
}

unfoldable pub commit_cancel : World → Ncc → Ncc
unfolding changes_rollback commit_confirmed
commit_cancel w s = commit_confirmed w (changes_rollback w s)
