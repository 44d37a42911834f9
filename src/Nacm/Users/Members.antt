-- ===== src/Nacm/Users/Members.antt =====
-- Arrays of group names that hold the same names, for ncac_collect_groups.
use mathlib.Core.Logic.Or
use mathlib.Core.List.{Mem, Mem-prop, Perm, mem-cons, mem-append, mem-cons_of_mem, mem-cons_self}
use mathlib.Core.List.Perm
use netopeer.Common.{
  ℕ, zero, suc, ◌<◌, subst, sym, ◌↔◌, inl, inr, Bool, List, [], ◌∷◌, ◌++◌, arith, CString, length,
}
use netopeer.Nacm.StrArr.{item_at}
use netopeer.Nacm.StrArr.Insert.{Adds}

-- The lists hold the same strings.
abbrev pub SameMembers : List CString → List CString → Type 0
SameMembers xs ys = (x : CString) → Mem x xs ↔ Mem x ys

pub SameMembers-refl : (xs : List CString) → SameMembers xs xs
SameMembers-refl xs x = (λ h. h, λ h. h)

pub SameMembers-trans :
    (xs ys zs : List CString) → SameMembers xs ys → SameMembers ys zs → SameMembers xs zs
SameMembers-trans xs ys zs h k x = (λ m. (k x).0 ((h x).0 m), λ m. (h x).1 ((k x).1 m))

pub SameMembers-perm : (xs ys : List CString) → Perm xs ys → SameMembers xs ys
SameMembers-perm xs ys p x = Perm.mem_iff p

pub SameMembers-append :
    (xs ys zs : List CString) → SameMembers ys zs → SameMembers (xs ++ ys) (xs ++ zs)
SameMembers-append xs ys zs h x = (
  λ m. mem-append.1 (Or.imp (λ l. l) (h x).0 (mem-append.0 m)),
  λ m. mem-append.1 (Or.imp (λ l. l) (h x).1 (mem-append.0 m)),
)

item_at-mem : (xs : List CString) (i : ℕ) → i < length xs → Mem (item_at xs i) xs
item_at-mem [] i h = absurd (omega arith)
item_at-mem (x ∷ xs) zero h = mem-cons_self
item_at-mem (x ∷ xs) (suc i) h = mem-cons_of_mem x (item_at-mem xs i (omega arith))

pub Adds-members :
    (dup : Bool) (item : CString) (old new : List CString)
    → Adds dup item old new
    → SameMembers new (item ∷ old)
Adds-members dup item old new (s, inr h) = SameMembers-perm new (item ∷ old) h.0
Adds-members dup item old new (s, inl h) = λ x. (
  λ m. mem-cons_of_mem item (subst (Mem x) h.1 m),
  λ m.
      Or.elim Mem-prop (mem-cons.0 m)
        (λ e. subst (Mem x) (sym h.1) (subst (λ y. Mem y old) (sym e) there))
        (λ k. subst (Mem x) (sym h.1) k),
)
  where
    there : Mem item old
    there = subst (λ y. Mem y old) h.2.2 (item_at-mem old h.2.0 h.2.1)
