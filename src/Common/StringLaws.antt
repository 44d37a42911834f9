-- ===== src/Common/StringLaws.antt =====
-- strcmp is a total order on strings whose equality is equality.
use netopeer.Common.{
  ◌≡◌, refl, ◌↔◌, true, false, [], ◌∷◌, arith, CString, strcmp, str_eq, str_lt, str_gt,
}
use Prim.Native.Nat.{Ordering}

pub strcmp_refl : (a : CString) → strcmp a a ≡ Ordering.eq
unfolding strcmp
strcmp_refl [] = refl
strcmp_refl (a ∷ r) = ground (arith, strcmp_refl r)

pub eq_of_strcmp : (a b : CString) → strcmp a b ≡ Ordering.eq → a ≡ b
unfolding strcmp
eq_of_strcmp [] [] h = refl
eq_of_strcmp [] (b ∷ s) h = cc
eq_of_strcmp (a ∷ r) [] h = cc
eq_of_strcmp (a ∷ r) (b ∷ s) h = ground (arith, eq_of_strcmp r s)

pub str_eq_iff : (a b : CString) → (str_eq a b ≡ true) ↔ (a ≡ b)
unfolding str_eq
str_eq_iff a b = (λ h. ground (arith, eq_of_strcmp a b), λ h. rw (h, str_eq, strcmp_refl b))

pub str_eq_refl : (a : CString) → str_eq a a ≡ true
str_eq_refl a = (str_eq_iff a a).1 refl

-- Swapping the arguments swaps the answer.
pub strcmp_swap : (a b : CString) → (strcmp a b ≡ Ordering.gt) → strcmp b a ≡ Ordering.lt
unfolding strcmp
strcmp_swap [] [] h = cc
strcmp_swap [] (b ∷ s) h = cc
strcmp_swap (a ∷ r) [] h = refl
strcmp_swap (a ∷ r) (b ∷ s) h = ground (arith, strcmp_swap r s)

pub strcmp_swap_lt : (a b : CString) → (strcmp a b ≡ Ordering.lt) → strcmp b a ≡ Ordering.gt
unfolding strcmp
strcmp_swap_lt [] [] h = cc
strcmp_swap_lt [] (b ∷ s) h = refl
strcmp_swap_lt (a ∷ r) [] h = cc
strcmp_swap_lt (a ∷ r) (b ∷ s) h = ground (arith, strcmp_swap_lt r s)

pub strcmp_trans :
    (a b c : CString)
    → strcmp a b ≡ Ordering.lt
    → strcmp b c ≡ Ordering.lt
    → strcmp a c ≡ Ordering.lt
unfolding strcmp
strcmp_trans [] [] c h k = cc
strcmp_trans [] (b ∷ s) [] h k = cc
strcmp_trans [] (b ∷ s) (c ∷ t) h k = refl
strcmp_trans (a ∷ r) [] c h k = cc
strcmp_trans (a ∷ r) (b ∷ s) [] h k = cc
strcmp_trans (a ∷ r) (b ∷ s) (c ∷ t) h k = ground (arith, strcmp_trans r s t)

-- a comes before b or equals it
abbrev pub StrLe : CString → CString → Type 0
StrLe a b = str_gt a b ≡ false

abbrev pub StrLt : CString → CString → Type 0
StrLt a b = str_lt a b ≡ true

pub StrLe-refl : (a : CString) → StrLe a a
StrLe-refl a = ground (arith, strcmp_refl a)

pub StrLe-trans : (a b c : CString) → StrLe a b → StrLe b c → StrLe a c
StrLe-trans a b c h k =
    ground (arith, strcmp_trans a b c, eq_of_strcmp a b, eq_of_strcmp b c, strcmp_refl a)

pub StrLe-of_lt : (a b : CString) → strcmp a b ≡ Ordering.lt → StrLe a b
StrLe-of_lt a b h = ground arith

pub StrLe-of_gt : (a b : CString) → strcmp a b ≡ Ordering.gt → StrLe b a
StrLe-of_gt a b h = ground (arith, strcmp_swap a b)

-- What is not below comes after.
pub StrLe-of_not_lt : (a b : CString) → str_lt a b ≡ false → StrLe b a
StrLe-of_not_lt a b h = ground (arith, strcmp_swap_lt b a, strcmp_swap b a)
