-- ===== src/Commit/Backup/Plain.antt =====
-- The names in the directory of backups, for src/netconf_confirmed_commit.c.
use netopeer.Common.{
  ◌≡◌, inl, inr, List, [], ◌∷◌, some, CString, arith, All, str_eq, Bool-cases, sym, ap, ◌∙◌,
}
use netopeer.Commit.Types.{Entry, Ncc, Module}
use netopeer.Commit.Files.{unlink, write_file, backup_file, module_name_of}
use netopeer.Commit.Backup.{backup_module, backup_modules}

-- What stands before the first ".json" of the module's file is its name.
abbrev pub IsNamed : Module → Type 0
IsNamed m = module_name_of (backup_file m.name) ≡ some m.name

-- A file whose name has ".json" in it ends there.
abbrev pub IsPlain : CString → Type 0
IsPlain name = (m : CString) → module_name_of name ≡ some m → name ≡ backup_file m

pub some-injective : {a b : CString} → some a ≡ some b → a ≡ b
some-injective e = cc

-- The directory has plain names only.
abbrev pub IsPlainDir : List Entry → Type 0
IsPlainDir es = All (λ e. IsPlain e.name) es

module _ (P : CString → Type 0) where
  pub unlink-All :
      (name : CString) (es : List Entry)
      → All (λ e. P e.name) es
      → All (λ e. P e.name) (unlink name es)
  unfolding unlink
  unlink-All name [] h = tt
  unlink-All name (e ∷ es) h = elim (Bool-cases (str_eq e.name name)) [
    | inl q ↦ rw (q, unlink) (unlink-All name es h.1)
    | inr q ↦ rw (q, unlink) (h.0, unlink-All name es h.1)
  ]

  backup_module-All :
      (m : Module) (s : Ncc)
      → P (backup_file m.name)
      → All (λ e. P e.name) s.files
      → All (λ e. P e.name) (backup_module m s).0.files
  unfolding backup_module write_file
  backup_module-All m s p h = ground (arith, p, h, unlink-All (backup_file m.name) s.files h)

  pub backup_modules-All :
      (ms : List Module) (s : Ncc)
      → All (λ m. P (backup_file m.name)) ms
      → All (λ e. P e.name) s.files
      → All (λ e. P e.name) (backup_modules ms s).0.files
  unfolding backup_modules
  backup_modules-All [] s p h = h
  backup_modules-All (m ∷ ms) s p h =
      let done = backup_module-All m s p.0 h in
      ground (
        arith,
        h,
        done,
        backup_modules-All ms s p.1 h,
        backup_modules-All ms (backup_module m s).0 p.1 done,
      )

IsNamed-IsPlain : (m : Module) → IsNamed m → IsPlain (backup_file m.name)
IsNamed-IsPlain m n x e = ap backup_file (some-injective (sym n ∙ e))

pub All-IsPlain : (ms : List Module) → All IsNamed ms → All (λ m. IsPlain (backup_file m.name)) ms
All-IsPlain [] h = tt
All-IsPlain (m ∷ ms) h = (IsNamed-IsPlain m h.0, All-IsPlain ms h.1)
