-- ===== src/Nacm/Groups.antt =====
-- ncac_group_cb of src/netconf_acm.c: the groups and their users. Allocation is taken to succeed.
pub mod Members
pub mod Effects
use netopeer.Common.{List, [], ◌∷◌, ◌++◌, Option, none, some, CString, str_eq, if◌then◌else◌}
use netopeer.Nacm.Types.{Nacm, Group}
use netopeer.Sysrepo.{
  ChangeOp, created, modified, deleted, moved, is_deleted, Code, sr_err_internal, assertion,
  Changes, Step, go, stop, callback,
}

-- A changed node below the groups: a group, a user-name of a group, or another node of a group.
pub data GroupChange : Type 0 where
  on_group : ChangeOp → (name : CString) → GroupChange
  on_user : ChangeOp → (group_name : CString) → (user_name : CString) → GroupChange
  on_other : ChangeOp → (group_name : CString) → GroupChange

module _ {A : Type 0} where
  abbrev last_of : A → List A → A
  last_of x [] = x
  last_of x (y ∷ ys) = last_of y ys

  abbrev but_last : A → List A → List A
  but_last x [] = []
  but_last x (y ∷ ys) = x ∷ but_last y ys

  -- What stands behind a deleted item, its last item moved into the gap.
  abbrev pub fill_gap : List A → List A
  fill_gap [] = []
  fill_gap (x ∷ xs) = last_of x xs ∷ but_last x xs

-- find it, delete it; `none` is the failed assertion.
unfoldable pub remove_group : CString → List Group → Option (List Group)
remove_group name [] = none
remove_group name (g ∷ gs) =
    let rest = remove_group name gs in
    if str_eq g.name name
    then some (fill_gap gs)
    else elim rest [ none ↦ none | some hs ↦ some (g ∷ hs) ]

unfoldable pub remove_user : CString → List CString → Option (List CString)
remove_user user [] = none
remove_user user (u ∷ us) =
    let rest = remove_user user us in
    if str_eq u user
    then some (fill_gap us)
    else elim rest [ none ↦ none | some vs ↦ some (u ∷ vs) ]

-- The first group of the name is changed; `none` if there is no such group.
pub change_group : CString → (Group → Group) → List Group → Option (List Group)
change_group name f [] = none
change_group name f (g ∷ gs) =
    let rest = change_group name f gs in
    if str_eq g.name name
    then some (f g ∷ gs)
    else elim rest [ none ↦ none | some hs ↦ some (g ∷ hs) ]

abbrev pub find_group : CString → List Group → Option Group
find_group name [] = none
find_group name (g ∷ gs) = if str_eq g.name name then some g else find_group name gs

-- Goes on with new groups; `none` is a failed assertion.
abbrev pub with_groups : Nacm → Option (List Group) → Step Nacm
with_groups nacm none = stop nacm assertion
with_groups nacm (some gs) = go (record nacm { groups = gs })

-- A user-name of a group that is there.
unfoldable pub user_step : Nacm → ChangeOp → CString → CString → Group → Step Nacm
unfolding remove_user change_group
user_step nacm created group_name user g =
    with_groups nacm
      (change_group group_name (λ h. record h { users = h.users ++ user ∷ [] }) nacm.groups)
user_step nacm deleted group_name user g = elim (remove_user user g.users) [
  | none ↦ stop nacm assertion
  | some us ↦ with_groups nacm (change_group group_name (λ h. record h { users = us }) nacm.groups)
]
user_step nacm modified group_name user g = stop nacm assertion
user_step nacm moved group_name user g = stop nacm assertion

unfoldable pub group_step : Nacm → GroupChange → Step Nacm
unfolding remove_group user_step
group_step nacm (on_group created name) =
    go (record nacm { groups = nacm.groups ++ record { name = name; users = [] } ∷ [] })
group_step nacm (on_group deleted name) = with_groups nacm (remove_group name nacm.groups)
group_step nacm (on_group modified name) = stop nacm sr_err_internal
group_step nacm (on_group moved name) = stop nacm sr_err_internal
group_step nacm (on_user op group_name user) = elim (find_group group_name nacm.groups) [
  | none ↦ if is_deleted op then go nacm else stop nacm assertion
  | some g ↦ user_step nacm op group_name user g
]
group_step nacm (on_other op group_name) = go nacm

unfoldable pub group_cb : Nacm → Changes GroupChange → Nacm × Code
unfolding group_step callback
group_cb nacm cs = callback group_step nacm cs
