-- ===== src/Nacm/Groups/Effects.antt =====
-- The effect of each change of the groups on the groups of a user.
use mathlib.Core.List.{Perm, append-nil, append_assoc, perm_append_comm}
use mathlib.Core.List.Perm
use mathlib.Core.Path.{subst₂}
use netopeer.Common.{
  ◌≡◌, subst, sym, ap, ◌∙◌, ◌⊎◌, inl, inr, List, [], ◌∷◌, ◌++◌, none, some, CString, str_eq, arith,
  if◌then◌else◌, Bool-cases, Option-cases,
}
use netopeer.Common.StringLaws.{str_eq_iff}
use netopeer.Nacm.Types.{Nacm, Group}
use netopeer.Nacm.Users.Collected.{names_of, memberships}
use netopeer.Sysrepo.{ChangeOp, created, modified, deleted, moved, assertion, go, stop, is_deleted}
use netopeer.Nacm.Groups.{
  GroupChange, on_group, on_user, on_other, remove_group, remove_user, change_group, find_group,
  user_step, group_step,
}
use netopeer.Nacm.Groups.Members.{
  one_if, texts, texts-append, names_of-texts, memberships-texts, texts-remove_user,
  texts-remove_group, texts-change_group,
}

-- The groups of the user `v` before and behind a change that the callback has taken.
abbrev pub Effect : CString → List Group → GroupChange → List CString → List CString → Type 0
Effect v groups (on_group created name) before after = after ≡ before
Effect v groups (on_group deleted name) before after =
    (g : Group) × (find_group name groups ≡ some g) × Perm before (names_of v name g.users ++ after)
Effect v groups (on_group _ name) before after = ⊥
Effect v groups (on_user created name user) before after =
    Perm after (one_if (str_eq user v) name ++ before)
Effect v groups (on_user deleted name user) before after =
    ((find_group name groups ≡ none) × (after ≡ before))
    ⊎ Perm before (one_if (str_eq user v) name ++ after)
Effect v groups (on_user _ name user) before after = ⊥
Effect v groups (on_other op name) before after = after ≡ before

abbrev names_in : CString → Group → List CString
names_in v g = names_of v g.name g.users

find_group-name :
    (name : CString) (gs : List Group) (g : Group) → find_group name gs ≡ some g → g.name ≡ name
find_group-name name [] g e = cc
find_group-name name (x ∷ xs) g e = elim (Bool-cases (str_eq x.name name)) [
  | inl same ↦
      let here : x ≡ g = ground (arith, same) in
      subst (λ (y : Group). y.name ≡ name) here ((str_eq_iff x.name name).0 same)
  | inr other ↦ find_group-name name xs g (ground (arith, other))
]

-- A user more at the end is a membership more.
names_of-append :
    (v name user : CString) (us : List CString)
    → Perm (names_of v name (us ++ user ∷ [])) (one_if (str_eq user v) name ++ names_of v name us)
names_of-append v name user us =
    let h = λ (u : CString). one_if (str_eq u v) name in
    subst₂ Perm
      (sym (
        names_of-texts v name (us ++ user ∷ [])
        ∙ texts-append h us (user ∷ [])
        ∙ ap (λ l. texts h us ++ l) (append-nil (h user))))
      (ap (λ l. h user ++ l) (sym (names_of-texts v name us)))
      (perm_append_comm (texts h us) (h user))

module _ (v : CString) (nacm m : Nacm) where
  created-Effect :
      (name user : CString) (g : Group)
      → find_group name nacm.groups ≡ some g
      → user_step nacm created name user g ≡ go m
      → Effect v nacm.groups
          (on_user created name user)
          (memberships v nacm.groups)
          (memberships v m.groups)
  unfolding user_step
  created-Effect name user g e c =
      let f = λ (k : Group). record k { users = k.users ++ user ∷ [] } in
      elim (Option-cases (change_group name f nacm.groups)) [
        | inl r ↦ cc (rw (r, user_step) at c)
        | inr (hs, r) ↦
            let made : hs ≡ m.groups = ground (arith, r) in
            let (rest, p, q) = texts-change_group (names_in v) name f nacm.groups hs g e r in
            let more : Perm (names_in v (f g)) (one_if (str_eq user v) name ++ names_in v g) =
              subst
                (λ n.
                  Perm (names_of v g.name (g.users ++ user ∷ []))
                    (one_if (str_eq user v) n ++ names_in v g))
                (find_group-name name nacm.groups g e) (names_of-append v g.name user g.users) in
            subst
              (λ l.
                Perm (memberships v l) (one_if (str_eq user v) name ++ memberships v nacm.groups))
              made
              (subst₂ Perm (sym (memberships-texts v hs))
                (ap (λ l. one_if (str_eq user v) name ++ l) (sym (memberships-texts v nacm.groups)))
                (Perm.trans q (
                  Perm.trans (Perm.append_right rest more) (
                    subst
                      (λ l. Perm l (one_if (str_eq user v) name ++ texts (names_in v) nacm.groups))
                      (sym (append_assoc (one_if (str_eq user v) name) (names_in v g) rest))
                      (Perm.append_left (one_if (str_eq user v) name) (Perm.symm p))))))
      ]

  deleted-Effect :
      (name user : CString) (g : Group)
      → find_group name nacm.groups ≡ some g
      → user_step nacm deleted name user g ≡ go m
      → Effect v nacm.groups
          (on_user deleted name user)
          (memberships v nacm.groups)
          (memberships v m.groups)
  unfolding user_step
  deleted-Effect name user g e c = elim (Option-cases (remove_user user g.users)) [
    | inl r ↦ cc (rw (r, user_step) at c)
    | inr (us, r) ↦
        let f = λ (k : Group). record k { users = us } in
        elim (Option-cases (change_group name f nacm.groups)) [
          | inl s ↦ cc (rw (r, s, user_step) at c)
          | inr (hs, s) ↦
              let made : hs ≡ m.groups = ground (arith, r, s) in
              let (rest, p, q) = texts-change_group (names_in v) name f nacm.groups hs g e s in
              let one = one_if (str_eq user v) name in
              let less : Perm (names_in v g) (one ++ names_in v (f g)) =
                subst
                  (λ n.
                    Perm (names_of v g.name g.users)
                      (one_if (str_eq user v) n ++ names_of v g.name us))
                  (find_group-name name nacm.groups g e)
                  (subst₂ (λ xs ys. Perm xs (one_if (str_eq user v) g.name ++ ys))
                    (sym (names_of-texts v g.name g.users)) (sym (names_of-texts v g.name us))
                    (texts-remove_user (λ u. one_if (str_eq u v) g.name) user g.users us r)) in
              inr (
                subst (λ l. Perm (memberships v nacm.groups) (one ++ memberships v l)) made
                  (subst₂ Perm (sym (memberships-texts v nacm.groups))
                    (ap (λ l. one ++ l) (sym (memberships-texts v hs)))
                    (Perm.trans p (
                      Perm.trans (Perm.append_right rest less) (
                        subst (λ l. Perm l (one ++ texts (names_in v) hs))
                          (sym (append_assoc one (names_in v (f g)) rest))
                          (Perm.append_left one (Perm.symm q)))))))
        ]
  ]

  -- A change that ncac_group_cb takes does to the groups of each user what it says: a user-name
  -- created or deleted is one membership more or less for that user and none for another, a group
  -- deleted takes its memberships along, and a group created or another node changed does nothing.
  -- (A user-name deleted from a group that is gone already does nothing either.)
  pub group_step-Effect :
      (c : GroupChange)
      → group_step nacm c ≡ go m
      → Effect v nacm.groups c (memberships v nacm.groups) (memberships v m.groups)
  unfolding group_step
  group_step-Effect (on_group created name) h =
      let made : nacm.groups ++ record { name = name; users = [] } ∷ [] ≡ m.groups = ground arith in
      subst (λ l. memberships v l ≡ memberships v nacm.groups) made
        (memberships-texts v (nacm.groups ++ record { name = name; users = [] } ∷ [])
          ∙ texts-append (names_in v) nacm.groups (record { name = name; users = [] } ∷ [])
          ∙ append-nil (texts (names_in v) nacm.groups)
          ∙ sym (memberships-texts v nacm.groups))
  group_step-Effect (on_group deleted name) h =
      elim (Option-cases (remove_group name nacm.groups)) [
        | inl r ↦ cc (rw (r, group_step) at h)
        | inr (hs, r) ↦
            let made : hs ≡ m.groups = ground (arith, r) in
            let (g, there, p) = texts-remove_group (names_in v) name nacm.groups hs r in
            let named = find_group-name name nacm.groups g there in
            (
              g,
              there,
              subst₂
                  (λ n l.
                    Perm (memberships v nacm.groups) (names_of v n g.users ++ memberships v l))
                  named made
                  (subst₂ (λ xs ys. Perm xs (names_in v g ++ ys))
                    (sym (memberships-texts v nacm.groups)) (sym (memberships-texts v hs)) p),
            )
      ]
  group_step-Effect (on_group modified name) h = cc
  group_step-Effect (on_group moved name) h = cc
  group_step-Effect (on_other op name) h =
      let same : nacm ≡ m = ground arith in ap (λ (k : Nacm). memberships v k.groups) (sym same)
  group_step-Effect (on_user op name user) h = elim (Option-cases (find_group name nacm.groups)) [
    | inr (g, e) ↦ by_op op g e (rw (e, group_step) at h)
    | inl e ↦ missing e op (rw (e, group_step) at h)
  ]
    where
      by_op :
          (o : ChangeOp) (g : Group)
          → find_group name nacm.groups ≡ some g
          → user_step nacm o name user g ≡ go m
          → Effect v nacm.groups
              (on_user o name user)
              (memberships v nacm.groups)
              (memberships v m.groups)
      by_op created g e k = created-Effect name user g e k
      by_op deleted g e k = deleted-Effect name user g e k
      by_op modified g e k = cc
      by_op moved g e k = cc

      missing :
          find_group name nacm.groups ≡ none
          → (o : ChangeOp) → (if is_deleted o then go nacm else stop nacm assertion) ≡ go m
          → Effect v nacm.groups
              (on_user o name user)
              (memberships v nacm.groups)
              (memberships v m.groups)
      missing e deleted k =
          let same : nacm ≡ m = ground arith in
          inl (e, ap (λ (n : Nacm). memberships v n.groups) (sym same))
      missing e created k = cc
      missing e modified k = cc
      missing e moved k = cc
