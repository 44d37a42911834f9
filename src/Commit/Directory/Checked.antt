-- ===== src/Commit/Directory/Checked.antt =====
-- What ncc_check_dir of src/netconf_confirmed_commit.c leaves.
use netopeer.Common.{
  subst, sym, ◌∙◌, ◌==◌, ◌&&◌, inl, inr, ◌≡◌, refl, some, arith, Option-cases, Bool-cases,
}
use netopeer.Sysrepo.{
  Code, sr_ok, sr_err_internal, sr_err_not_found, sr_err_sys, sr_err_ly, sr_err_inval_arg,
  assertion, sr_err_other,
}
use netopeer.Commit.Types.{server_dir, ncc_dir, Node, Dirs, World}
use netopeer.Commit.Directory.{
  create_dirs, own_dirs, close_dirs, and_then, rwxu, check_dir_owner, check_dir_permissions,
  check_dir,
}

-- Both directories are there for their owner only, and the server directory is the process's.
abbrev pub IsChecked : World → Dirs → Type 0
IsChecked w d =
    (n : Node) × (m : Node) × (d.server ≡ some n)
    × (d.ncc ≡ some m)
    × (n.mode ≡ rwxu)
    × (m.mode ≡ rwxu)
    × (n.uid ≡ w.euid)
    × (n.gid ≡ w.egid)

and_then_ok :
    (x : Dirs × Code) (next : Dirs → Dirs × Code)
    → (and_then x next).1 ≡ sr_ok
    → (x.1 ≡ sr_ok) × (and_then x next ≡ next x.0)
and_then_ok (d, sr_ok) next h = (refl, refl)
and_then_ok (d, sr_err_internal) next h = cc
and_then_ok (d, sr_err_not_found) next h = cc
and_then_ok (d, sr_err_sys) next h = cc
and_then_ok (d, sr_err_ly) next h = cc
and_then_ok (d, sr_err_inval_arg) next h = cc
and_then_ok (d, assertion) next h = cc
and_then_ok (d, sr_err_other n) next h = cc

module _ (w : World) where
  -- The server directory is the process's.
  abbrev IsOwned : Dirs → Type 0
  IsOwned d = (n : Node) × (d.server ≡ some n) × (n.uid ≡ w.euid) × (n.gid ≡ w.egid)

  -- And it is for its owner only.
  abbrev IsClosed : Dirs → Type 0
  IsClosed d =
      (n : Node) × (d.server ≡ some n) × (n.mode ≡ rwxu) × (n.uid ≡ w.euid) × (n.gid ≡ w.egid)

  owner_server :
      (d : Dirs)
      → (check_dir_owner w server_dir d).1 ≡ sr_ok
      → IsOwned (check_dir_owner w server_dir d).0
  unfolding check_dir_owner
  owner_server d h = elim (Option-cases d.server) [
    | inl e ↦ cc (rw (e, check_dir_owner) at h)
    | inr (n, e) ↦ elim (Bool-cases (n.uid == w.euid && n.gid == w.egid)) [
      | inl b ↦ rw (e, b, check_dir_owner) (n, e, ground (arith, b), ground (arith, b))
      | inr b ↦ elim (Bool-cases (w.can_chown server_dir)) [
        | inl c ↦
            rw (e, b, e, c, check_dir_owner)
              (record n { uid = w.euid; gid = w.egid }, refl, refl, refl)
        | inr c ↦ cc (rw (e, b, e, c, check_dir_owner) at h)
      ]
    ]
  ]

  owner_ncc :
      (d : Dirs)
      → IsOwned d
      → (check_dir_owner w ncc_dir d).1 ≡ sr_ok
      → IsOwned (check_dir_owner w ncc_dir d).0
  unfolding check_dir_owner
  owner_ncc d (n, e, u, g) h = elim (Option-cases d.ncc) [
    | inl f ↦ cc (rw (f, check_dir_owner) at h)
    | inr (m, f) ↦ elim (Bool-cases (m.uid == w.euid && m.gid == w.egid)) [
      | inl b ↦ rw (f, b, check_dir_owner) (n, e, u, g)
      | inr b ↦ elim (Bool-cases (w.can_chown server_dir)) [
        | inl c ↦
            rw (f, b, e, c, check_dir_owner)
              (record n { uid = w.euid; gid = w.egid }, refl, refl, refl)
        | inr c ↦ cc (rw (f, b, e, c, check_dir_owner) at h)
      ]
    ]
  ]

  permissions_server :
      (d : Dirs)
      → IsOwned d
      → (check_dir_permissions w server_dir d).1 ≡ sr_ok
      → IsClosed (check_dir_permissions w server_dir d).0
  unfolding check_dir_permissions
  permissions_server d (n, e, u, g) h = elim (Bool-cases (w.can_chmod server_dir)) [
    | inl c ↦ rw (e, c, check_dir_permissions) (record n { mode = rwxu }, refl, refl, u, g)
    | inr c ↦ cc (rw (e, c, check_dir_permissions) at h)
  ]

  permissions_ncc :
      (d : Dirs)
      → IsClosed d
      → (check_dir_permissions w ncc_dir d).1 ≡ sr_ok
      → IsChecked w (check_dir_permissions w ncc_dir d).0
  unfolding check_dir_permissions
  permissions_ncc d (n, e, k, u, g) h = elim (Option-cases d.ncc) [
    | inl f ↦ cc (rw (f, check_dir_permissions) at h)
    | inr (m, f) ↦ elim (Bool-cases (w.can_chmod ncc_dir)) [
      | inl c ↦
          rw (f, c, check_dir_permissions) (n, record m { mode = rwxu }, e, refl, k, refl, u, g)
      | inr c ↦ cc (rw (f, c, check_dir_permissions) at h)
    ]
  ]

  own_dirs-IsOwned : (d : Dirs) → (own_dirs w d).1 ≡ sr_ok → IsOwned (own_dirs w d).0
  unfolding own_dirs
  own_dirs-IsOwned d h =
      let first =
        and_then_ok (check_dir_owner w server_dir d) (λ d1. check_dir_owner w ncc_dir d1) h in
      subst (λ (r : Dirs × Code). IsOwned r.0) (sym first.1)
        (owner_ncc (check_dir_owner w server_dir d).0 (owner_server d first.0)
          (subst (λ (r : Dirs × Code). r.1 ≡ sr_ok) first.1 h))

  close_dirs-IsChecked :
      (d : Dirs) → IsOwned d → (close_dirs w d).1 ≡ sr_ok → IsChecked w (close_dirs w d).0
  unfolding close_dirs
  close_dirs-IsChecked d o h =
      let first =
        and_then_ok (check_dir_permissions w server_dir d)
          (λ d1. check_dir_permissions w ncc_dir d1) h in
      subst (λ (r : Dirs × Code). IsChecked w r.0) (sym first.1)
        (permissions_ncc (check_dir_permissions w server_dir d).0 (permissions_server d o first.0)
          (subst (λ (r : Dirs × Code). r.1 ≡ sr_ok) first.1 h))

-- When ncc_check_dir succeeds, both directories are there with the mode 700, and the server
-- directory is owned by the process's user and group.
pub check_dir-IsChecked :
    (w : World) (d : Dirs) → (check_dir w d).1 ≡ sr_ok → IsChecked w (check_dir w d).0
unfolding check_dir
check_dir-IsChecked w d h =
    let created =
      and_then_ok (create_dirs w d) (λ d1. and_then (own_dirs w d1) (λ d2. close_dirs w d2)) h in
    let rest = subst (λ (r : Dirs × Code). r.1 ≡ sr_ok) created.1 h in
    let owned = and_then_ok (own_dirs w (create_dirs w d).0) (λ d2. close_dirs w d2) rest in
    let closed = subst (λ (r : Dirs × Code). r.1 ≡ sr_ok) owned.1 rest in
    subst (λ (r : Dirs × Code). IsChecked w r.0) (sym (created.1 ∙ owned.1))
      (close_dirs-IsChecked w (own_dirs w (create_dirs w d).0).0
        (own_dirs-IsOwned w (create_dirs w d).0 owned.0) closed)
