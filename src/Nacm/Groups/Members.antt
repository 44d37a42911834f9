-- ===== src/Nacm/Groups/Members.antt =====
-- What a change of the groups does to the groups of a user, as ncac_collect_groups reads them.
use mathlib.Core.List.{Perm, append_assoc, perm_append_comm}
use mathlib.Core.List.Perm
use netopeer.Common.{
  ◌≡◌, refl, subst, sym, ap, inl, inr, Bool, true, false, List, [], ◌∷◌, ◌++◌, some, CString,
  str_eq, arith, Bool-cases, Option-cases,
}
use netopeer.Common.StringLaws.{str_eq_iff}
use netopeer.Nacm.Types.{Group}
use netopeer.Nacm.Users.Collected.{names_of, memberships}
use netopeer.Nacm.Groups.{
  last_of, but_last, fill_gap, remove_group, remove_user, change_group, find_group,
}

-- One name, or none.
abbrev pub one_if : Bool → CString → List CString
one_if true name = name ∷ []
one_if false name = []

pub swap_heads : (xs ys zs : List CString) → Perm (xs ++ (ys ++ zs)) (ys ++ (xs ++ zs))
swap_heads xs ys zs =
    subst (λ l. Perm l (ys ++ (xs ++ zs))) (append_assoc xs ys zs)
      (subst (λ l. Perm ((xs ++ ys) ++ zs) l) (append_assoc ys xs zs)
        (Perm.append_right zs (perm_append_comm xs ys)))

names_of-cons :
    (v name u : CString) (us : List CString)
    → names_of v name (u ∷ us) ≡ one_if (str_eq u v) name ++ names_of v name us
names_of-cons v name u us = ground arith

module _ {A : Type 0} (h : A → List CString) where
  -- The texts of a list of items, one behind the other.
  abbrev pub texts : List A → List CString
  texts [] = []
  texts (x ∷ xs) = h x ++ texts xs

  texts-last_of :
      (x : A) (xs : List A) → Perm (h (last_of x xs) ++ texts (but_last x xs)) (h x ++ texts xs)
  texts-last_of x [] = Perm.rfl
  texts-last_of x (y ∷ ys) =
      Perm.trans (swap_heads (h (last_of y ys)) (h x) (texts (but_last y ys)))
        (Perm.append_left (h x) (texts-last_of y ys))

  texts-fill_gap : (xs : List A) → Perm (texts (fill_gap xs)) (texts xs)
  texts-fill_gap [] = Perm.rfl
  texts-fill_gap (x ∷ xs) = texts-last_of x xs

  pub texts-append : (xs ys : List A) → texts (xs ++ ys) ≡ texts xs ++ texts ys
  texts-append [] ys = refl
  texts-append (x ∷ xs) ys =
      rw (texts-append xs ys) (sym (append_assoc (h x) (texts xs) (texts ys)))

pub names_of-texts :
    (v name : CString) (us : List CString)
    → names_of v name us ≡ texts (λ u. one_if (str_eq u v) name) us
names_of-texts v name [] = refl
names_of-texts v name (u ∷ us) = ground (arith, names_of-texts v name us)

pub memberships-texts :
    (v : CString) (gs : List Group)
    → memberships v gs ≡ texts (λ (g : Group). names_of v g.name g.users) gs
memberships-texts v [] = refl
memberships-texts v (g ∷ gs) = ap (λ l. names_of v g.name g.users ++ l) (memberships-texts v gs)

module _ (h : CString → List CString) where
  pub texts-remove_user :
      (user : CString) (us vs : List CString)
      → remove_user user us ≡ some vs
      → Perm (texts h us) (h user ++ texts h vs)
  unfolding remove_user
  texts-remove_user user [] vs e = cc
  texts-remove_user user (u ∷ us) vs e = elim (Bool-cases (str_eq u user)) [
    | inl same ↦
        let gap : fill_gap us ≡ vs = ground (arith, same) in
        subst (λ (x : CString). Perm (h u ++ texts h us) (h x ++ texts h vs))
          ((str_eq_iff u user).0 same)
          (Perm.append_left (h u)
            (Perm.symm (subst (λ l. Perm (texts h l) (texts h us)) gap (texts-fill_gap h us))))
    | inr other ↦ elim (Option-cases (remove_user user us)) [
      | inl r ↦ cc (rw (other, r, remove_user) at e)
      | inr (ws, r) ↦
          let tail : u ∷ ws ≡ vs = ground (arith, other, r) in
          subst (λ l. Perm (h u ++ texts h us) (h user ++ texts h l)) tail
            (Perm.trans (Perm.append_left (h u) (texts-remove_user user us ws r))
              (swap_heads (h u) (h user) (texts h ws)))
    ]
  ]

module _ (h : Group → List CString) where
  pub texts-remove_group :
      (name : CString) (gs hs : List Group)
      → remove_group name gs ≡ some hs
      → (g : Group) × (find_group name gs ≡ some g) × Perm (texts h gs) (h g ++ texts h hs)
  unfolding remove_group
  texts-remove_group name [] hs e = cc
  texts-remove_group name (g ∷ gs) hs e = elim (Bool-cases (str_eq g.name name)) [
    | inl same ↦
        let gap : fill_gap gs ≡ hs = ground (arith, same) in
        (
          g,
          rw same,
          Perm.append_left (h g)
              (Perm.symm (subst (λ l. Perm (texts h l) (texts h gs)) gap (texts-fill_gap h gs))),
        )
    | inr other ↦ elim (Option-cases (remove_group name gs)) [
      | inl r ↦ cc (rw (other, r, remove_group) at e)
      | inr (ks, r) ↦
          let tail : g ∷ ks ≡ hs = ground (arith, other, r) in
          let (k, named, p) = texts-remove_group name gs ks r in
          (
            k,
            rw other named,
            subst (λ l. Perm (h g ++ texts h gs) (h k ++ texts h l)) tail
                (Perm.trans (Perm.append_left (h g) p) (swap_heads (h g) (h k) (texts h ks))),
          )
    ]
  ]

  -- A changed group leaves the others as they are.
  pub texts-change_group :
      (name : CString) (f : Group → Group) (gs hs : List Group) (g : Group)
      → find_group name gs ≡ some g
      → change_group name f gs ≡ some hs
      → (rest : List CString) × Perm (texts h gs) (h g ++ rest)
        × Perm (texts h hs) (h (f g) ++ rest)
  unfolding change_group
  texts-change_group name f [] hs g e c = cc
  texts-change_group name f (x ∷ xs) hs g e c = elim (Bool-cases (str_eq x.name name)) [
    | inl same ↦
        let here : x ≡ g = ground (arith, same) in
        let made : f x ∷ xs ≡ hs = ground (arith, same) in
        (
          texts h xs,
          subst (λ y. Perm (h x ++ texts h xs) (h y ++ texts h xs)) here Perm.rfl,
          subst (λ l. Perm (texts h l) (h (f g) ++ texts h xs)) made
              (subst (λ y. Perm (h (f x) ++ texts h xs) (h (f y) ++ texts h xs)) here Perm.rfl),
        )
    | inr other ↦ elim (Option-cases (change_group name f xs)) [
      | inl r ↦ cc (rw (other, r, change_group) at c)
      | inr (ks, r) ↦
          let made : x ∷ ks ≡ hs = ground (arith, other, r) in
          let there : find_group name xs ≡ some g = ground (arith, other) in
          let (rest, p, q) = texts-change_group name f xs ks g there r in
          (
            h x ++ rest,
            Perm.trans (Perm.append_left (h x) p) (swap_heads (h x) (h g) rest),
            subst (λ l. Perm (texts h l) (h (f g) ++ (h x ++ rest))) made
                (Perm.trans (Perm.append_left (h x) q) (swap_heads (h x) (h (f g)) rest)),
          )
    ]
  ]
