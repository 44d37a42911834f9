-- ===== src/Commit/Backup/Noted.antt =====
-- What create_meta_file of src/netconf_confirmed_commit.c leaves as it is.
use netopeer.Common.{
  ℕ, ◌≡◌, ◌≢◌, refl, inl, inr, none, some, CString, arith, Bool-cases, sym, ap, ◌∙◌, lit,
  starts_with,
}
use netopeer.Commit.Types.{meta, Ncc, World}
use netopeer.Commit.Files.{write_file, backup_file, module_name_of, meta_file}
use netopeer.Commit.Files.Lookup.{find_file-write_other}
use netopeer.Commit.Backup.{create_meta_file}
use netopeer.Commit.Backup.Plain.{IsPlain, IsPlainDir, unlink-All}
use netopeer.Commit.Backup.Saved.{HasBackup}

meta_file-unnamed : module_name_of meta_file ≡ none
unfolding module_name_of lit starts_with
meta_file-unnamed = refl

pub create_meta_file-running :
    (w : World) (timeout : ℕ) (s : Ncc) (a : CString)
    → (create_meta_file w timeout s).running a ≡ s.running a
unfolding create_meta_file
create_meta_file-running w timeout s a = ground arith

pub create_meta_file-Saved :
    (w : World) (timeout : ℕ) (s : Ncc) (a : CString)
    → module_name_of (backup_file a) ≡ some a
    → HasBackup a s
    → IsPlainDir s.files
    → HasBackup a (create_meta_file w timeout s) × IsPlainDir (create_meta_file w timeout s).files
unfolding create_meta_file write_file
create_meta_file-Saved w timeout s a k h p = elim (Bool-cases w.opens_meta) [
  | inr o ↦ rw (o, create_meta_file) (h, p)
  | inl o ↦
      rw (o, create_meta_file)
        (
          find_file-write_other (backup_file a) meta_file (meta w.now timeout) s.files differ ∙ h,
          (
            λ x e. absurd (never (sym meta_file-unnamed ∙ e)),
            unlink-All IsPlain meta_file s.files p,
          ),
        )
]
  where
    never : {x : CString} → none ≡ some x → ⊥
    never q = cc

    differ : meta_file ≢ backup_file a
    differ e = never (sym meta_file-unnamed ∙ ap module_name_of e ∙ k)
