-- ===== src/Nacm/Users/Collected.antt =====
-- The groups that ncac_collect_groups collects: those that the configuration and the system name.
use mathlib.Core.Logic.Or
use mathlib.Core.List.{
  Mem-prop, mem-append, perm_middle, mem-append_left, mem-append_right, append-nil,
}
use netopeer.Common.{
  ℕ, subst, inl, inr, true, false, List, [], ◌∷◌, ◌++◌, Option, none, some, CString, str_eq,
  if◌then◌else◌, Bool-cases, Option-cases,
}
use netopeer.Nacm.Types.{Group, Nacm, Passwd, pw_entry, pw_missing, pw_error, System}
use netopeer.Nacm.StrArr.{sort_add}
use netopeer.Nacm.StrArr.Order.{IsSorted}
use netopeer.Nacm.StrArr.Insert.{Adds, sort_add-Adds}
use netopeer.Nacm.Users.{join_group, collect_nacm, add_gids, collect_system, collect_groups}
use netopeer.Nacm.Users.Members.{
  SameMembers, SameMembers-refl, SameMembers-trans, SameMembers-perm, SameMembers-append,
  Adds-members,
}

-- The name of a group, once for each time that the user is among its users.
abbrev pub names_of : CString → CString → List CString → List CString
names_of user name [] = []
names_of user name (u ∷ us) =
    if str_eq u user then name ∷ names_of user name us else names_of user name us

-- The NACM groups of a user.
abbrev pub memberships : CString → List Group → List CString
memberships user [] = []
memberships user (g ∷ gs) = names_of user g.name g.users ++ memberships user gs

abbrev gid_names : System → List ℕ → Option (List CString)
gid_names sys [] = some []
gid_names sys (gid ∷ gids) = elim (sys.getgrgid gid) [
  | none ↦ none
  | some name ↦ elim (gid_names sys gids) [ none ↦ none | some names ↦ some (name ∷ names) ]
]

-- The system groups of a user that count, `none` if the system fails to tell.
abbrev pub external : System → Nacm → CString → Option (List CString)
external sys nacm user =
    if nacm.enable_external_groups
    then (elim (sys.getpwnam user) [
      | pw_missing ↦ some []
      | pw_error ↦ none
      | pw_entry uid gid ↦ elim (sys.getgrouplist user gid) [
        | none ↦ none
        | some gids ↦ gid_names sys gids
      ]
    ])
    else some []

-- A sorted array of the names given and of those that were there, or a failure.
abbrev pub Collects : Option (List CString) → List CString → Option (List CString) → Type 0
Collects none old none = Unit
Collects none old (some groups) = ⊥
Collects (some names) old none = ⊥
Collects (some names) old (some groups) = IsSorted groups × SameMembers groups (names ++ old)

-- Moving one name from the names given to those that are there.
shift :
    (name : CString) (names old new groups : List CString)
    → SameMembers new (name ∷ old)
    → SameMembers groups (names ++ new)
    → SameMembers groups (name ∷ (names ++ old))
shift name names old new groups h k =
    SameMembers-trans groups (names ++ new) (name ∷ (names ++ old)) k (
      SameMembers-trans (names ++ new) (names ++ name ∷ old) (name ∷ (names ++ old))
        (SameMembers-append names new (name ∷ old) h)
        (SameMembers-perm (names ++ name ∷ old) (name ∷ (names ++ old)) (perm_middle names old)))

join_group-Collects :
    (user name : CString) (us old : List CString)
    → IsSorted old
    → Collects (some (names_of user name us)) old (some (join_group user name us old))
unfolding join_group
join_group-Collects user name [] old s = (s, SameMembers-refl old)
join_group-Collects user name (u ∷ us) old s = elim (Bool-cases (str_eq u user)) [
  | inr e ↦ rw (e, join_group) (join_group-Collects user name us old s)
  | inl e ↦
      let new = sort_add false name old in
      let a : Adds false name old new = sort_add-Adds false name old s in
      let r = join_group-Collects user name us new a.0 in
      rw (e, join_group)
        (
          r.0,
          shift name (names_of user name us) old new (join_group user name us new)
              (Adds-members false name old new a) r.1,
        )
]

swap_front : (ms ns old : List CString) → SameMembers (ms ++ (ns ++ old)) ((ns ++ ms) ++ old)
swap_front ms ns old x = (
  λ m.
      Or.elim Mem-prop (mem-append.0 m) (λ k. mem-append_left old (mem-append_right ns k))
        (λ k.
          Or.elim Mem-prop (mem-append.0 k) (λ l. mem-append_left old (mem-append_left ms l))
            (λ l. mem-append_right (ns ++ ms) l)),
  λ m.
      Or.elim Mem-prop (mem-append.0 m)
        (λ k.
          Or.elim Mem-prop (mem-append.0 k) (λ l. mem-append_right ms (mem-append_left old l))
            (λ l. mem-append_left (ns ++ old) l))
        (λ k. mem-append_right ms (mem-append_right ns k)),
)

collect_nacm-Collects :
    (user : CString) (gs : List Group) (old : List CString)
    → IsSorted old
    → Collects (some (memberships user gs)) old (some (collect_nacm user gs old))
unfolding collect_nacm
collect_nacm-Collects user [] old s = (s, SameMembers-refl old)
collect_nacm-Collects user (g ∷ gs) old s =
    let new = join_group user g.name g.users old in
    let ns = names_of user g.name g.users in
    let ms = memberships user gs in
    let j = join_group-Collects user g.name g.users old s in
    let r = collect_nacm-Collects user gs new j.0 in
    (
      r.0,
      SameMembers-trans (collect_nacm user gs new) (ms ++ new) ((ns ++ ms) ++ old) r.1 (
          SameMembers-trans (ms ++ new) (ms ++ (ns ++ old)) ((ns ++ ms) ++ old)
            (SameMembers-append ms new (ns ++ old) j.1) (swap_front ms ns old)),
    )

add_gids-Collects :
    (sys : System) (gids : List ℕ) (old : List CString)
    → IsSorted old
    → Collects (gid_names sys gids) old (add_gids sys gids old)
unfolding add_gids
add_gids-Collects sys [] old s = (s, SameMembers-refl old)
add_gids-Collects sys (gid ∷ gids) old s = elim (Option-cases (sys.getgrgid gid)) [
  | inl e ↦ rw (e, add_gids, gid_names) tt
  | inr (name, e) ↦
      let new = sort_add true name old in
      let a : Adds true name old new = sort_add-Adds true name old s in
      rw (e, add_gids, gid_names)
        (one_more name new (Adds-members true name old new a) (gid_names sys gids)
          (add_gids sys gids new) (add_gids-Collects sys gids new a.0))
]
  where
    one_more :
        (name : CString) (new : List CString)
        → SameMembers new (name ∷ old)
        → (names groups : Option (List CString)) → Collects names new groups
        → Collects (elim names [ none ↦ none | some ns ↦ some (name ∷ ns) ]) old groups
    one_more name new h none none c = tt
    one_more name new h none (some gs) c = c
    one_more name new h (some ns) none c = c
    one_more name new h (some ns) (some gs) c = (c.0, shift name ns old new gs h c.1)

collect_system-Collects :
    (sys : System) (nacm : Nacm) (user : CString) (old : List CString)
    → IsSorted old
    → Collects (external sys nacm user) old (collect_system sys nacm user old)
unfolding collect_system
collect_system-Collects sys nacm user old s = elim (Bool-cases nacm.enable_external_groups) [
  | inr e ↦ rw (e, collect_system) (s, SameMembers-refl old)
  | inl e ↦ rw (e, collect_system) (entry (sys.getpwnam user))
]
  where
    gids_of :
        (o : Option (List ℕ))
        → Collects
            (elim o [ none ↦ none | some gids ↦ gid_names sys gids ])
            old
            (elim o [ none ↦ none | some gids ↦ add_gids sys gids old ])
    gids_of none = tt
    gids_of (some gids) = add_gids-Collects sys gids old s

    entry :
        (p : Passwd)
        → Collects
            (elim p [
              | pw_missing ↦ some []
              | pw_error ↦ none
              | pw_entry uid gid ↦ elim (sys.getgrouplist user gid) [
                | none ↦ none
                | some gids ↦ gid_names sys gids
              ]
            ])
            old
            (elim p [
              | pw_missing ↦ some old
              | pw_error ↦ none
              | pw_entry uid gid ↦ elim (sys.getgrouplist user gid) [
                | none ↦ none
                | some gids ↦ add_gids sys gids old
              ]
            ])
    entry pw_missing = (s, SameMembers-refl old)
    entry pw_error = tt
    entry (pw_entry uid gid) = gids_of (sys.getgrouplist user gid)

-- The groups collected are sorted, and are those that the configuration gives the user and those
-- that the system does, where it is asked; it fails exactly when the system fails to tell them.
pub collect_groups-Collects :
    (sys : System) (nacm : Nacm) (user : CString)
    → Collects
        (external sys nacm user)
        (memberships user nacm.groups)
        (collect_groups sys nacm user)
unfolding collect_groups
collect_groups-Collects sys nacm user =
    finish (external sys nacm user) (collect_system sys nacm user old)
      (collect_system-Collects sys nacm user old c.0)
  where
    old : List CString
    old = collect_nacm user nacm.groups []

    ms : List CString
    ms = memberships user nacm.groups

    c : IsSorted old × SameMembers old (ms ++ [])
    c = collect_nacm-Collects user nacm.groups [] tt

    finish :
        (names groups : Option (List CString))
        → Collects names old groups
        → Collects names ms groups
    finish none none k = tt
    finish none (some gs) k = k
    finish (some ns) none k = k
    finish (some ns) (some gs) k = (
      k.0,
      SameMembers-trans gs (ns ++ old) (ns ++ ms) k.1
          (SameMembers-append ns old ms (subst (SameMembers old) (append-nil ms) c.1)),
    )
