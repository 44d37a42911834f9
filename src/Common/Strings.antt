-- ===== src/Common/Strings.antt =====
-- C strings as lists of bytes (without the closing NUL), and the functions of string.h on them.
-- A libyang dictionary holds one copy of each string, so equal pointers there are equal strings.
use Prim.Native.Nat.{ℕ, zero, suc, compare, Ordering}
use Prim.Native.Char.{code}
use Prim.Native.String.{String}
use mathlib.Core.Bool.{Bool, true, false, ◌||◌, ◌&&◌}
use mathlib.Core.List.{List, [], ◌∷◌}
use netopeer.Common.Tests.{◌==◌}

abbrev pub CString : Type 0
CString = List ℕ

unfoldable pub lit : String → CString
lit String.[] = []
lit (String.◌∷◌ c s) = code c ∷ lit s

unfoldable pub strcmp : CString → CString → Ordering
strcmp [] [] = Ordering.eq
strcmp [] (b ∷ s) = Ordering.lt
strcmp (a ∷ r) [] = Ordering.gt
strcmp (a ∷ r) (b ∷ s) = elim (compare a b) [
  | Ordering.lt ↦ Ordering.lt
  | Ordering.eq ↦ strcmp r s
  | Ordering.gt ↦ Ordering.gt
]

-- !strcmp(a, b)
unfoldable pub str_eq : CString → CString → Bool
unfolding strcmp
str_eq a b = elim (strcmp a b) [ Ordering.eq ↦ true | _ ↦ false ]

-- strcmp(a, b) < 0 and strcmp(a, b) > 0
abbrev pub str_lt : CString → CString → Bool
str_lt a b = elim (strcmp a b) [ Ordering.lt ↦ true | _ ↦ false ]

abbrev pub str_gt : CString → CString → Bool
str_gt a b = elim (strcmp a b) [ Ordering.gt ↦ true | _ ↦ false ]

-- !strncmp(a, b, n) for strings, a byte past the end being the closing NUL
unfoldable pub strn_eq : CString → CString → ℕ → Bool
strn_eq a b zero = true
strn_eq [] [] (suc n) = true
strn_eq [] (b ∷ s) (suc n) = false
strn_eq (a ∷ r) [] (suc n) = false
strn_eq (a ∷ r) (b ∷ s) (suc n) = a == b && strn_eq r s n

-- a starts with b
unfoldable pub starts_with : CString → CString → Bool
starts_with a [] = true
starts_with [] (b ∷ s) = false
starts_with (a ∷ r) (b ∷ s) = a == b && starts_with r s

-- strstr(a, b) != NULL
unfoldable pub strstr : CString → CString → Bool
unfolding starts_with
strstr [] b = starts_with [] b
strstr (a ∷ r) b = starts_with (a ∷ r) b || strstr r b
