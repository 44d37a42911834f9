-- ===== src/Commit/Files.antt =====
-- The files of NCC_DIR in src/netconf_confirmed_commit.c: their names, and what opening, unlinking
-- and renaming does to the directory.
pub mod Cleaned
pub mod Lookup
use netopeer.Common.{
  Bool, true, false, not, ◌&&◌, ◌||◌, List, [], ◌∷◌, ◌++◌, Option, none, some, CString, lit, str_eq,
  strstr, starts_with, if◌then◌else◌,
}
use netopeer.Commit.Types.{File, Entry, World}

unfoldable pub find_file : CString → List Entry → Option File
find_file name [] = none
find_file name (e ∷ es) =
    let rest = find_file name es in if str_eq e.name name then some e.file else rest

unfoldable pub unlink : CString → List Entry → List Entry
unlink name [] = []
unlink name (e ∷ es) = let rest = unlink name es in if str_eq e.name name then rest else e ∷ rest

-- fopen(name, "w")
unfoldable pub write_file : CString → File → List Entry → List Entry
unfolding unlink
write_file name file es = record { name = name; file = file } ∷ unlink name es

unfoldable pub rename : CString → CString → List Entry → List Entry
unfolding find_file unlink write_file
rename old new es = elim (find_file old es) [
  | none ↦ es
  | some file ↦ write_file new file (unlink old es)
]

-- META_FILE
abbrev pub meta_file : CString
meta_file = lit "meta"

-- "%s.json"
abbrev pub backup_file : CString → CString
backup_file module_name = module_name ++ lit ".json"

-- What stands before the first ".json"; NULL is `none`.
unfoldable pub module_name_of : CString → Option CString
module_name_of [] = none
module_name_of (c ∷ s) =
    let rest = module_name_of s in
    if starts_with (c ∷ s) (lit ".json")
    then some []
    else elim rest [ none ↦ none | some m ↦ some (c ∷ m) ]

-- rename_failed_file: to "%s-%ld.failed"
unfoldable pub rename_failed_file : World → CString → CString → List Entry → List Entry
unfolding rename
rename_failed_file w module_name file_name es =
    if w.can_rename file_name
    then rename file_name (module_name ++ b'-' ∷ (w.now_text ++ lit ".failed")) es
    else es

-- Whether clean_backup_directory skips the file.
unfoldable pub is_skipped : CString → Bool
unfolding strstr str_eq
is_skipped name =
    str_eq name (lit ".")
    || str_eq name (lit "..")
    || not (strstr (lit ".json") name)
    || not (str_eq meta_file name)

-- The loop over the names read from the directory; it ends at a file that cannot be unlinked.
unfoldable pub clean_files : World → List CString → List Entry → List Entry
unfolding is_skipped unlink
clean_files w [] es = es
clean_files w (name ∷ names) es =
    let next = clean_files w names (unlink name es) in
    let skipped = clean_files w names es in
    if is_skipped name then skipped else if w.can_unlink name then next else es

abbrev pub names_of : List Entry → List CString
names_of [] = []
names_of (e ∷ es) = e.name ∷ names_of es

unfoldable pub clean_backup_directory : World → List Entry → List Entry
unfolding clean_files
clean_backup_directory w es = if w.opendir then clean_files w (names_of es) es else es
