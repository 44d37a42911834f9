-- ===== src/Nacm/GroupMatch.antt =====
-- ncac_rule_group_match of src/netconf_acm.c.
use Prim.Native.Nat.{Ordering}
use netopeer.Common.{
  ◌≡◌, sym, subst, ◌⊎◌, inl, inr, Bool, true, false, List, [], ◌∷◌, arith, Any, All, CString,
  strcmp, str_eq, Bool-cases,
}
use netopeer.Common.StringLaws.{StrLe, StrLe-refl, str_eq_iff, eq_of_strcmp, strcmp_swap_lt}
use netopeer.Nacm.StrArr.Find.{Ordering-cases}
use netopeer.Nacm.StrArr.Order.{IsSorted}

-- The name of all groups.
abbrev pub star : CString
star = b'*' ∷ []

-- The rule list's groups against the user's, both sorted.
unfoldable pub rule_group_match : List CString → List CString → Bool
rule_group_match [] gs = false
rule_group_match (r ∷ rs) [] = false
rule_group_match (r ∷ rs) (g ∷ gs) = elim (str_eq r star) [
  | true ↦ true
  | false ↦ elim (strcmp r g) [
    | Ordering.gt ↦ rule_group_match (r ∷ rs) gs
    | Ordering.lt ↦ rule_group_match rs (g ∷ gs)
    | Ordering.eq ↦ true
  ]
]

abbrev pub Has : CString → List CString → Type 0
Has x xs = Any (λ y. y ≡ x) xs

-- A group of the first list is in the second one.
abbrev pub Shares : List CString → List CString → Type 0
Shares rs gs = Any (λ r. Has r gs) rs

Shares-cons : (g : CString) (rs gs : List CString) → Shares rs gs → Shares rs (g ∷ gs)
Shares-cons g [] gs h = h
Shares-cons g (r ∷ rs) gs (inl h) = inl (inr h)
Shares-cons g (r ∷ rs) gs (inr h) = inr (Shares-cons g rs gs h)

Shares-nil : (rs : List CString) → ¬ (Shares rs [])
Shares-nil [] h = h
Shares-nil (r ∷ rs) (inl h) = h
Shares-nil (r ∷ rs) (inr h) = Shares-nil rs h

-- A match is never made up: some group is shared, or the rule list is for all groups.
pub rule_group_match_sound :
    (rs gs : List CString) → rule_group_match rs gs ≡ true → Has star rs ⊎ Shares rs gs
unfolding rule_group_match
rule_group_match_sound [] gs h = cc
rule_group_match_sound (r ∷ rs) [] h = cc
rule_group_match_sound (r ∷ rs) (g ∷ gs) h = elim (Bool-cases (str_eq r star)) [
  | inl e ↦ inl (inl ((str_eq_iff r star).0 e))
  | inr e ↦ elim (Ordering-cases (strcmp r g)) [
    | inl c ↦ later (rule_group_match_sound rs (g ∷ gs) (rw (e, c, rule_group_match) at h))
    | inr (inl c) ↦ inr (inl (inl (sym (eq_of_strcmp r g c))))
    | inr (inr c) ↦ wider (rule_group_match_sound (r ∷ rs) gs (rw (e, c, rule_group_match) at h))
  ]
]
  where
    later : Has star rs ⊎ Shares rs (g ∷ gs) → Has star (r ∷ rs) ⊎ Shares (r ∷ rs) (g ∷ gs)
    later (inl x) = inl (inr x)
    later (inr x) = inr (inr x)

    wider : Has star (r ∷ rs) ⊎ Shares (r ∷ rs) gs → Has star (r ∷ rs) ⊎ Shares (r ∷ rs) (g ∷ gs)
    wider (inl x) = inl x
    wider (inr x) = inr (Shares-cons g (r ∷ rs) gs x)

-- Nothing in a sorted list is below its head, so what is below the head is not there.
Has-le : (x y : CString) (xs : List CString) → All (StrLe x) xs → Has y xs → StrLe x y
Has-le x y [] s h = absurd h
Has-le x y (z ∷ xs) s (inl e) = subst (StrLe x) e s.0
Has-le x y (z ∷ xs) s (inr h) = Has-le x y xs s.1 h

not-StrLe : (x y : CString) → strcmp x y ≡ Ordering.gt → ¬ (StrLe x y)
not-StrLe x y c h = ground arith

-- A rule list's group that is above the user's first one is not that one.
skip_user :
    (r g : CString) (rs gs : List CString)
    → All (StrLe r) rs
    → strcmp r g ≡ Ordering.gt
    → Shares (r ∷ rs) (g ∷ gs)
    → Shares (r ∷ rs) gs
skip_user r g rs gs s c h = go (r ∷ rs) (StrLe-refl r, s) h
  where
    go : (ts : List CString) → All (StrLe r) ts → Shares ts (g ∷ gs) → Shares ts gs
    go [] a h = h
    go (t ∷ ts) a (inl (inl e)) = absurd (not-StrLe r g c (subst (StrLe r) (sym e) a.0))
    go (t ∷ ts) a (inl (inr h)) = inl h
    go (t ∷ ts) a (inr h) = inr (go ts a.1 h)

-- A rule list's group that is below all of the user's is shared with none.
skip_rule :
    (r g : CString) (rs gs : List CString)
    → All (StrLe g) gs
    → strcmp r g ≡ Ordering.lt
    → Shares (r ∷ rs) (g ∷ gs)
    → Shares rs (g ∷ gs)
skip_rule r g rs gs s c (inr h) = h
skip_rule r g rs gs s c (inl h) =
    absurd (not-StrLe g r (strcmp_swap_lt r g c) (Has-le g r (g ∷ gs) (StrLe-refl g, s) h))

-- On sorted arrays no shared group is missed.
pub rule_group_match_complete :
    (rs gs : List CString)
    → IsSorted rs
    → IsSorted gs
    → Shares rs gs
    → rule_group_match rs gs ≡ true
unfolding rule_group_match
rule_group_match_complete [] gs s t h = absurd h
rule_group_match_complete (r ∷ rs) [] s t h = absurd (Shares-nil (r ∷ rs) h)
rule_group_match_complete (r ∷ rs) (g ∷ gs) s t h = elim (Bool-cases (str_eq r star)) [
  | inl e ↦ rw (e, rule_group_match)
  | inr e ↦ elim (Ordering-cases (strcmp r g)) [
    | inl c ↦
        rw (e, c, rule_group_match)
          (rule_group_match_complete rs (g ∷ gs) s.1 t (skip_rule r g rs gs t.0 c h))
    | inr (inl c) ↦ rw (e, c, rule_group_match)
    | inr (inr c) ↦
        rw (e, c, rule_group_match)
          (rule_group_match_complete (r ∷ rs) gs s t.1 (skip_user r g rs gs s.0 c h))
  ]
]
