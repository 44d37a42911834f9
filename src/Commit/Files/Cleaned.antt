-- ===== src/Commit/Files/Cleaned.antt =====
-- What clean_backup_directory of src/netconf_confirmed_commit.c removes.
use netopeer.Common.{
  inl, inr, ◌≡◌, refl, true, List, [], ◌∷◌, CString, arith, lit, str_eq, Bool-cases, subst,
}
use netopeer.Common.StringLaws.{str_eq_iff}
use netopeer.Commit.Types.{Entry, World}
use netopeer.Commit.Files.{is_skipped, clean_files, names_of, clean_backup_directory, meta_file}

meta_skipped : is_skipped meta_file ≡ true
unfolding is_skipped lit
meta_skipped = refl

-- The meta file is skipped, since its name is no part of ".json", and all others are by their names.
skips_all : (name : CString) → is_skipped name ≡ true
unfolding is_skipped str_eq
skips_all name = elim (Bool-cases (str_eq meta_file name)) [
  | inr e ↦ ground (arith, e)
  | inl e ↦ subst (λ n. is_skipped n ≡ true) ((str_eq_iff meta_file name).0 e) meta_skipped
]

clean_files-eq : (w : World) (names : List CString) (es : List Entry) → clean_files w names es ≡ es
unfolding clean_files
clean_files-eq w [] es = refl
clean_files-eq w (name ∷ names) es = ground (arith, skips_all name, clean_files-eq w names es)

-- clean_backup_directory removes no file at all, whatever the directory holds.
pub clean_backup_directory-eq : (w : World) (es : List Entry) → clean_backup_directory w es ≡ es
unfolding clean_backup_directory
clean_backup_directory-eq w es = ground (arith, clean_files-eq w (names_of es) es)
