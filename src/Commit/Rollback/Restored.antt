-- ===== src/Commit/Rollback/Restored.antt =====
-- A backup and a rollback of src/netconf_confirmed_commit.c: what comes back.
use netopeer.Common.{
  ℕ, ◌≡◌, ◌≢◌, refl, ◌⊎◌, inl, inr, true, false, ◌||◌, List, [], ◌∷◌, none, some, CString, arith,
  All, Any, str_eq, Bool-cases, Option-cases, sym, ap, subst, ◌∙◌, lit,
}
use netopeer.Common.StringLaws.{str_eq_iff}
use netopeer.Sysrepo.{sr_ok, is_ok, go}
use netopeer.Commit.Types.{printed, Ncc, World}
use netopeer.Commit.Directory.{check_dir}
use netopeer.Commit.Files.{
  find_file, unlink, rename_failed_file, backup_file, module_name_of, names_of, meta_file,
}
use netopeer.Commit.Files.Lookup.{
  find_file-unlink, find_file-unlink_same, skipped_none, rename_failed_file-other,
  rename_failed_file-missing, find_file-Any, names_of-All,
}
use netopeer.Commit.Backup.{first_tree, set_running_backup, create_meta_file}
use netopeer.Commit.Backup.Plain.{IsNamed, IsPlain, IsPlainDir, some-injective}
use netopeer.Commit.Backup.Saved.{IsSaved, set_running_backup-Saves, set_running_backup-files}
use netopeer.Commit.Backup.Noted.{create_meta_file-running, create_meta_file-Saved}
use netopeer.Commit.Rollback.{
  is_implemented, get_running_backup, replace_module, restore_module, restore_file, restore_files,
  changes_rollback,
}

module _ (w : World) (a : CString) (d : List CString)
    (k : module_name_of (backup_file a) ≡ some a) where
  -- The backup is still to be restored, or the data is restored.
  abbrev Held : List CString → Ncc → Type 0
  Held names s =
      ((find_file (backup_file a) s.files ≡ some (printed d))
        × (Any (λ x. x ≡ backup_file a) names ⊎ (s.running a ≡ d)))
      ⊎ ((find_file (backup_file a) s.files ≡ none) × (s.running a ≡ d))

  -- The module's own file.
  restore_module-Held :
      (names : List CString) (s : Ncc)
      → ((x : CString) → w.can_unlink x ≡ true)
      → is_implemented a w.modules ≡ true
      → w.parses d ≡ true
      → w.replace_config a ≡ sr_ok
      → Held (backup_file a ∷ names) s
      → (t : Ncc) × (restore_module w (backup_file a) a s ≡ go t) × Held names t
  unfolding restore_module rename_failed_file
  restore_module-Held names s u i p r (inl (f, _)) = (
    record s { running = replace_module a d s.running; files = unlink (backup_file a) s.files },
    rw (i, f, p, r, u (backup_file a), restore_module),
    inr (find_file-unlink_same (backup_file a) s.files, rw ((str_eq_iff a a).1 refl)),
  )
  restore_module-Held names s u i p r (inr (f, e)) = (
    s,
    rw (i, f, restore_module, rename_failed_file-missing w a (backup_file a) s.files f),
    inr (f, e),
  )

  -- Another module's file.
  restore_other :
      (x m : CString) (s : Ncc)
      → ((y : CString) → w.can_unlink y ≡ true)
      → x ≢ backup_file a
      → str_eq a m ≡ false
      → (t : Ncc) × (restore_module w x m s ≡ go t)
        × (find_file (backup_file a) t.files ≡ find_file (backup_file a) s.files)
        × (t.running a ≡ s.running a)
  unfolding restore_module
  restore_other x m s u n e = elim (Bool-cases (is_implemented m w.modules)) [
    | inr i ↦ (failed, rw (i, restore_module), kept, refl)
    | inl i ↦ elim (Option-cases (find_file x s.files)) [
      | inl f ↦ (failed, rw (i, f, restore_module), kept, refl)
      | inr (file, f) ↦ elim (Option-cases (get_running_backup w file)) [
        | inl g ↦ (failed, rw (i, f, g, restore_module), kept, refl)
        | inr (c, g) ↦ elim (Bool-cases (is_ok (w.replace_config m))) [
          | inr r ↦ (failed, rw (i, f, g, r, restore_module), kept, refl)
          | inl r ↦ (
            record s { running = replace_module m c s.running; files = unlink x s.files },
            rw (i, f, g, r, u x, restore_module),
            find_file-unlink (backup_file a) x s.files n,
            rw e,
          )
        ]
      ]
    ]
  ]
    where
      failed : Ncc
      failed = record s { files = rename_failed_file w m x s.files }

      kept :
          find_file (backup_file a) (rename_failed_file w m x s.files)
          ≡ find_file (backup_file a) s.files
      kept = rename_failed_file-other w m x a s.files n

  -- Another name than the module's.
  pass_by :
      (x : CString) (names : List CString) (s t : Ncc)
      → x ≢ backup_file a
      → find_file (backup_file a) t.files ≡ find_file (backup_file a) s.files
      → t.running a ≡ s.running a
      → Held (x ∷ names) s
      → Held names t
  pass_by x names s t n f r (inl (g, inl (inl e))) = absurd (n e)
  pass_by x names s t n f r (inl (g, inl (inr y))) = inl (f ∙ g, inl y)
  pass_by x names s t n f r (inl (g, inr e)) = inl (f ∙ g, inr (r ∙ e))
  pass_by x names s t n f r (inr (g, e)) = inr (f ∙ g, r ∙ e)

  restore_file-eq :
      (x m : CString) (s : Ncc)
      → module_name_of x ≡ some m
      → restore_file w s x ≡ restore_module w x m s
  unfolding restore_file
  restore_file-eq x m s f =
      elim (Bool-cases (str_eq x (lit ".") || str_eq x (lit "..") || str_eq x meta_file)) [
        | inl e ↦ absurd (differ (sym (skipped_none x e) ∙ f))
        | inr e ↦ rw (e, f, restore_file)
      ]
    where
      differ : none ≡ some m → ⊥
      differ q = cc

  -- One file of the directory.
  restore_file-Held :
      (x : CString) (names : List CString) (s : Ncc)
      → ((y : CString) → w.can_unlink y ≡ true)
      → is_implemented a w.modules ≡ true
      → w.parses d ≡ true
      → w.replace_config a ≡ sr_ok
      → IsPlain x
      → Held (x ∷ names) s
      → (t : Ncc) × (restore_file w s x ≡ go t) × Held names t
  unfolding restore_file
  restore_file-Held x names s u i p r q h = elim (Option-cases (module_name_of x)) [
    | inl f ↦ (s, ground (arith, f), pass_by x names s s (unnamed f) refl refl h)
    | inr (m, f) ↦ elim (Bool-cases (str_eq a m)) [
      | inl e ↦
          let same : x ≡ backup_file a = q m f ∙ ap backup_file (sym ((str_eq_iff a m).0 e)) in
          let own = restore_module-Held names s u i p r (subst (λ y. Held (y ∷ names) s) same h) in
          (own.0, ap (restore_file w s) same ∙ restore_file-eq (backup_file a) a s k ∙ own.1, own.2)
      | inr e ↦
          let n : x ≢ backup_file a =
            λ y. differ e (some-injective (sym k ∙ ap module_name_of (sym y) ∙ f)) in
          let other = restore_other x m s u n e in
          (
            other.0,
            restore_file-eq x m s f ∙ other.1,
            pass_by x names s other.0 n other.2 other.3 h,
          )
    ]
  ]
    where
      unnamed : module_name_of x ≡ none → x ≢ backup_file a
      unnamed f y = cc (sym f ∙ ap module_name_of y ∙ k)

      differ : {m : CString} → str_eq a m ≡ false → a ≢ m
      differ {m} e y = ground (arith, e, (str_eq_iff a m).1 y)

  restore_files-running :
      (names : List CString) (s : Ncc)
      → ((y : CString) → w.can_unlink y ≡ true)
      → is_implemented a w.modules ≡ true
      → w.parses d ≡ true
      → w.replace_config a ≡ sr_ok
      → All IsPlain names
      → Held names s
      → (restore_files w names s).running a ≡ d
  unfolding restore_files
  restore_files-running [] s u i p r q h = ground (arith, h)
  restore_files-running (x ∷ names) s u i p r q h =
      let (t, e, held) = restore_file-Held x names s u i p r q.0 h in
      rw (e, restore_files) (restore_files-running names t u i p r q.1 held)

-- What a rollback needs of the world to restore the module with the data.
abbrev pub CanRestore : World → CString → List CString → Ncc → Type 0
CanRestore w a d s =
    (w.session_start ≡ sr_ok)
    × ((check_dir w s.dirs).1 ≡ sr_ok)
    × (w.opendir ≡ true)
    × ((y : CString) → w.can_unlink y ≡ true)
    × (is_implemented a w.modules ≡ true)
    × (w.parses d ≡ true)
    × (w.replace_config a ≡ sr_ok)

-- A rollback brings back the first top-level tree of the data that a module had in running when the
-- backup was made, and no other: where the backup ended without an error, the directory held no odd
-- names, the files are those of the backup and the meta file, and the calls of the rollback succeed,
-- a module that is saved has that tree alone, whatever running has become in between.
pub rollback_restores :
    (v w : World) (s t : Ncc) (timeout : ℕ) (a : CString)
    → module_name_of (backup_file a) ≡ some a
    → All IsNamed v.modules
    → Any (λ m. (m.name ≡ a) × IsSaved m) v.modules
    → IsPlainDir s.files
    → (set_running_backup v s).1 ≡ sr_ok
    → t.files ≡ (create_meta_file v timeout (set_running_backup v s).0).files
    → CanRestore w a (first_tree (s.running a)) t
    → (changes_rollback w t).running a ≡ first_tree (s.running a)
unfolding changes_rollback
rollback_restores v w s t timeout a k n x p h f (o, c, y, u, i, q, r) =
    let saved = set_running_backup-Saves v s a k n x p h in
    let noted = create_meta_file-Saved v timeout (set_running_backup v s).0 a k saved.0 saved.1 in
    let g =
      ap (find_file (backup_file a)) f
      ∙ noted.0
      ∙ ap (λ d. some (printed d))
          (ap first_tree (create_meta_file-running v timeout (set_running_backup v s).0 a)
            ∙ ap (λ (z : Ncc). first_tree (z.running a)) (set_running_backup-files v s)) in
    rw (o, c, y, changes_rollback)
      (restore_files-running w a (first_tree (s.running a)) k (names_of t.files)
        (record t { dirs = (check_dir w t.dirs).0 }) u i q r
        (names_of-All IsPlain t.files (subst IsPlainDir (sym f) noted.1))
        (inl
          (g, inl (find_file-Any (backup_file a) t.files (printed (first_tree (s.running a))) g))))
