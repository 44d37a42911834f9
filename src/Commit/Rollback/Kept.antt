-- ===== src/Commit/Rollback/Kept.antt =====
-- What changes_rollback of src/netconf_confirmed_commit.c leaves as it is.
use netopeer.Common.{◌∙◌, ◌≡◌, List, [], ◌∷◌, CString, arith}
use netopeer.Sysrepo.{Step, go, stop, state_of}
use netopeer.Commit.Types.{Ncc, World}
use netopeer.Commit.Directory.{check_dir}
use netopeer.Commit.Files.{names_of}
use netopeer.Commit.Rollback.{
  restore_module, restore_file, restore_files, changes_rollback, commit_confirmed, commit_cancel,
}

restore_file-persist :
    (w : World) (s : Ncc) (name : CString) → (state_of (restore_file w s name)).persist ≡ s.persist
unfolding restore_file restore_module
restore_file-persist w s name = ground arith

restore_files-persist :
    (w : World) (names : List CString) (s : Ncc) → (restore_files w names s).persist ≡ s.persist
unfolding restore_files
restore_files-persist w [] s = ground arith
restore_files-persist w (name ∷ names) s =
    by_step (restore_file w s name) (restore_file-persist w s name)
      (λ t. restore_files-persist w names t)
  where
    by_step :
        (r : Step Ncc)
        → (state_of r).persist ≡ s.persist
        → ((t : Ncc) → (restore_files w names t).persist ≡ t.persist)
        → (elim r as (λ _. Ncc) [ go t ↦ restore_files w names t | stop t code ↦ t ]).persist
          ≡ s.persist
    by_step (go t) e rest = rest t ∙ e
    by_step (stop t code) e rest = e

-- A cancel-commit leaves the persist-id as it is.
pub commit_cancel-persist : (w : World) (s : Ncc) → (commit_cancel w s).persist ≡ s.persist
unfolding commit_cancel commit_confirmed changes_rollback
commit_cancel-persist w s =
    ground (
      arith,
      restore_files-persist w (names_of s.files) (record s { dirs = (check_dir w s.dirs).0 }),
    )
