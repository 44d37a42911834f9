-- ===== src/Commit/Backup/Saved.antt =====
-- What set_running_backup of src/netconf_confirmed_commit.c saves.
use netopeer.Common.{
  not, ◌||◌, ◌∙◌, ◌≡◌, ◌≢◌, refl, ◌⊎◌, inl, inr, true, false, List, [], ◌∷◌, some, CString, arith,
  All, Any, str_eq, Bool-cases, sym, ap, subst,
}
use netopeer.Common.StringLaws.{str_eq_iff}
use netopeer.Sysrepo.{sr_ok, is_ok}
use netopeer.Commit.Types.{printed, Entry, Datastore, Ncc, Module, World}
use netopeer.Commit.Directory.{check_dir}
use netopeer.Commit.Files.{find_file, write_file, backup_file, module_name_of}
use netopeer.Commit.Files.Lookup.{find_file-write_same, find_file-write_other}
use netopeer.Commit.Backup.Plain.{
  IsNamed, IsPlain, IsPlainDir, some-injective, backup_modules-All, All-IsPlain,
}
use netopeer.Commit.Backup.{
  first_tree, is_passed_over, backup_module, backup_modules, set_running_backup,
}

-- A module that set_running_backup saves.
abbrev pub IsSaved : Module → Type 0
IsSaved m = (m.implemented ≡ true) × (m.has_config ≡ true) × (m.read ≡ true) × (m.write ≡ true)

-- The backup of the modules changes the files alone.
pub backup_modules-files :
    (ms : List Module) (s : Ncc)
    → (backup_modules ms s).0 ≡ record s { files = (backup_modules ms s).0.files }
unfolding backup_modules backup_module
backup_modules-files [] s = refl
backup_modules-files (m ∷ ms) s =
    ground (arith, backup_modules-files ms s, backup_modules-files ms (backup_module m s).0)

pub set_running_backup-files :
    (w : World) (s : Ncc)
    → (set_running_backup w s).0 ≡ record s {
      files = (set_running_backup w s).0.files;
      dirs = (set_running_backup w s).0.dirs;
    }
unfolding set_running_backup
set_running_backup-files w s =
    ground (arith, backup_modules-files w.modules (record s { dirs = (check_dir w s.dirs).0 }))

-- The file of the module holds the first tree of its data in running.
abbrev pub HasBackup : CString → Ncc → Type 0
HasBackup a s = find_file (backup_file a) s.files ≡ some (printed (first_tree (s.running a)))

module _ (a : CString) (k : module_name_of (backup_file a) ≡ some a) where
  write_backup :
      (b : CString) (es : List Entry) (running : Datastore)
      → module_name_of (backup_file b) ≡ some b
      → find_file (backup_file a) es ≡ some (printed (first_tree (running a)))
      → find_file (backup_file a) (write_file (backup_file b) (printed (first_tree (running b))) es)
        ≡ some (printed (first_tree (running a)))
  write_backup b es running n h = elim (Bool-cases (str_eq b a)) [
    | inl e ↦
        subst
          (λ x.
            find_file (backup_file a)
              (write_file (backup_file x) (printed (first_tree (running x))) es)
            ≡ some (printed (first_tree (running a))))
          (sym ((str_eq_iff b a).0 e))
          (find_file-write_same (backup_file a) (printed (first_tree (running a))) es)
    | inr e ↦
        find_file-write_other (backup_file a) (backup_file b) (printed (first_tree (running b))) es
          (λ q. differ e (some-injective (sym n ∙ ap module_name_of q ∙ k)))
        ∙ h
  ]
    where
      differ : str_eq b a ≡ false → b ≢ a
      differ e q = ground (arith, e, (str_eq_iff b a).1 q)

  backup_module-HasBackup :
      (m : Module) (s : Ncc) → IsNamed m → HasBackup a s → HasBackup a (backup_module m s).0
  unfolding backup_module
  backup_module-HasBackup m s n h = elim (Bool-cases (is_ok m.get_data)) [
    | inr g ↦ rw (g, backup_module) h
    | inl g ↦ elim (Bool-cases m.prints) [
      | inr p ↦ rw (g, p, backup_module) h
      | inl p ↦ rw (g, p, backup_module) (write_backup m.name s.files s.running n h)
    ]
  ]

  backup_modules-HasBackup :
      (ms : List Module) (s : Ncc)
      → All IsNamed ms
      → HasBackup a s
      → HasBackup a (backup_modules ms s).0
  unfolding backup_modules
  backup_modules-HasBackup [] s n h = h
  backup_modules-HasBackup (m ∷ ms) s n h =
      let done = backup_module-HasBackup m s n.0 h in
      ground (
        arith,
        done,
        backup_modules-HasBackup ms s n.1 h,
        backup_modules-HasBackup ms (backup_module m s).0 n.1 done,
      )

  backup_module-Saves :
      (m : Module) (s : Ncc)
      → m.name ≡ a
      → is_ok (backup_module m s).1 ≡ true
      → HasBackup a (backup_module m s).0
  unfolding backup_module
  backup_module-Saves m s e h = elim (Bool-cases (is_ok m.get_data)) [
    | inr g ↦ cc (rw (g, backup_module, g) at h)
    | inl g ↦ elim (Bool-cases m.prints) [
      | inr p ↦ cc (rw (g, p, backup_module) at h)
      | inl p ↦
          rw (g, p, backup_module)
            (subst
              (λ x.
                find_file (backup_file a)
                  (write_file (backup_file x) (printed (first_tree (s.running x))) s.files)
                ≡ some (printed (first_tree (s.running a))))
              (sym e)
              (find_file-write_same (backup_file a) (printed (first_tree (s.running a))) s.files))
    ]
  ]

  -- A module that is saved has its backup when the loop ends without an error.
  backup_modules-Saves :
      (ms : List Module) (s : Ncc)
      → All IsNamed ms
      → Any (λ m. (m.name ≡ a) × IsSaved m) ms
      → (backup_modules ms s).1 ≡ sr_ok
      → HasBackup a (backup_modules ms s).0
  unfolding backup_modules
  backup_modules-Saves [] s n x h = absurd x
  backup_modules-Saves (m ∷ ms) s n x h = elim (Bool-cases (is_passed_over m)) [
    | inl p ↦
        rw (p, backup_modules)
          (backup_modules-Saves ms s n.1 (later x (λ v. ground (arith, p, v)))
            (rw (p, backup_modules) at h))
    | inr p ↦ elim (Bool-cases (is_ok m.access)) [
      | inr o ↦ let e : m.access ≡ sr_ok = rw (p, o, backup_modules) at h in cc (rw e at o)
      | inl o ↦ elim (Bool-cases (not m.read || not m.write)) [
        | inl r ↦
            rw (p, o, r, backup_modules)
              (backup_modules-Saves ms s n.1 (later x (λ v. ground (arith, r, v)))
                (rw (p, o, r, backup_modules) at h))
        | inr r ↦ elim (Bool-cases (is_ok (backup_module m s).1)) [
          | inr d ↦
              let e : (backup_module m s).1 ≡ sr_ok = rw (p, o, r, d, backup_modules) at h in
              cc (rw e at d)
          | inl d ↦
              let done = (backup_module m s).0 in
              rw (p, o, r, d, backup_modules)
                (elim x [
                  | inl v ↦ backup_modules-HasBackup ms done n.1 (backup_module-Saves m s v.0 d)
                  | inr y ↦
                      backup_modules-Saves ms done n.1 y (rw (p, o, r, d, backup_modules) at h)
                ])
        ]
      ]
    ]
  ]
    where
      later :
          ((m.name ≡ a) × IsSaved m) ⊎ Any (λ k. (k.name ≡ a) × IsSaved k) ms
          → ¬ (IsSaved m)
          → Any (λ k. (k.name ≡ a) × IsSaved k) ms
      later (inl v) r = absurd (r v.1)
      later (inr y) r = y

-- After a backup without an error, each module that is saved has its file, and the names of the
-- directory are plain if they were.
pub set_running_backup-Saves :
    (w : World) (s : Ncc) (a : CString)
    → module_name_of (backup_file a) ≡ some a
    → All IsNamed w.modules
    → Any (λ m. (m.name ≡ a) × IsSaved m) w.modules
    → IsPlainDir s.files
    → (set_running_backup w s).1 ≡ sr_ok
    → HasBackup a (set_running_backup w s).0 × IsPlainDir (set_running_backup w s).0.files
unfolding set_running_backup
set_running_backup-Saves w s a k n x p h =
    let ready = record s { dirs = (check_dir w s.dirs).0 } in
    elim (Bool-cases (is_ok w.session_start)) [
      | inr o ↦ let e : w.session_start ≡ sr_ok = rw (o, set_running_backup) at h in cc (rw e at o)
      | inl o ↦ elim (Bool-cases (is_ok (check_dir w s.dirs).1)) [
        | inr c ↦
            let e : (check_dir w s.dirs).1 ≡ sr_ok = rw (o, c, set_running_backup) at h in
            cc (rw e at c)
        | inl c ↦
            rw (o, c, set_running_backup)
              (
                backup_modules-Saves a k w.modules ready n x (rw (o, c, set_running_backup) at h),
                backup_modules-All IsPlain w.modules ready (All-IsPlain w.modules n) p,
              )
      ]
    ]
