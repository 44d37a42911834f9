-- ===== src/Nacm/StrArr.antt =====
-- The sorted string arrays of src/netconf_acm.c (ncac_strarr_sort_find, _add and _del).
-- Allocation is taken to succeed.
pub mod Order
pub mod Insert
pub mod Find
use Prim.Native.Nat.{Ordering}
use netopeer.Common.{
  ℕ, zero, suc, ◌+◌, ◌-◌, ◌*◌, ◌/◌, Bool, true, false, List, [], ◌∷◌, ◌++◌, Option, none, some, ltb,
  if◌then◌else◌, ◌||◌, length, take, drop, CString, strcmp, str_gt, str_lt,
}

-- items[i]; an index past the end is never read
abbrev pub item_at : List CString → ℕ → CString
item_at [] i = []
item_at (x ∷ xs) zero = x
item_at (x ∷ xs) (suc i) = item_at xs i

-- The loop of bsearch(3) of the C library over items[l .. u); the result is the index of the item that it
-- points to, or `none` for NULL.
bsearch : ℕ → CString → List CString → ℕ → ℕ → Option ℕ
bsearch zero key items l u = none
bsearch (suc fuel) key items l u = elim (ltb l u) [
  | false ↦ none
  | true ↦ elim (strcmp key (item_at items ((l + u) / 2))) [
    | Ordering.lt ↦ bsearch fuel key items l ((l + u) / 2)
    | Ordering.eq ↦ some ((l + u) / 2)
    | Ordering.gt ↦ bsearch fuel key items (suc ((l + u) / 2)) u
  ]
]

-- The index of an item; `none` is -1. An array without items is NULL or empty, and neither has one.
unfoldable pub sort_find : CString → List CString → Option ℕ
unfolding bsearch
sort_find item [] = none
sort_find item (x ∷ xs) = elim (bsearch (length (x ∷ xs)) item (x ∷ xs) 0 (length (x ∷ xs))) [
  | none ↦ none
  | some m ↦ some m
]

-- The first byte, the closing NUL of an empty string included.
abbrev first_byte : CString → ℕ
first_byte [] = 0
first_byte (c ∷ _) = c

-- "assume normal distribution and names starting with lowercase letters"; `char` is signed, so a
-- byte from 128 on is below 'a'. The quotient by 26.0 is exact here.
start_index : CString → ℕ → ℕ
start_index item count =
    let c = first_byte item in
    if ltb c b'a' || ltb 127 c then 0 else if ltb b'z' c then count - 1 else (c - b'a') * count / 26

-- while (i && items[i - 1] > item) --i
scan_down : CString → List CString → ℕ → ℕ
scan_down item items zero = zero
scan_down item items (suc i) =
    let rest = scan_down item items i in if str_gt (item_at items i) item then rest else suc i

-- while (i < count && items[i] < item) ++i, with `room` = count - i
scan_up : CString → List CString → ℕ → ℕ → ℕ
scan_up item items zero i = i
scan_up item items (suc room) i =
    let rest = scan_up item items room (suc i) in if str_lt (item_at items i) item then rest else i

-- find the index to add it on
insert_index : CString → List CString → ℕ → ℕ
unfolding scan_down scan_up
insert_index item [] i = i
insert_index item (x ∷ xs) i = elim (strcmp (item_at (x ∷ xs) i) item) [
  | Ordering.gt ↦ scan_down item (x ∷ xs) i
  | Ordering.lt ↦ scan_up item (x ∷ xs) (length (x ∷ xs) - i) i
  | Ordering.eq ↦ i
]

-- move all following items, insert the new one
insert_from : CString → List CString → ℕ → List CString
unfolding insert_index
insert_from item items start =
    let i = insert_index item items start in take i items ++ item ∷ drop i items

abbrev is_some {ℓ} : {A : Type ℓ} → Option A → Bool
is_some none = false
is_some (some _) = true

unfoldable pub sort_add : Bool → CString → List CString → List CString
unfolding sort_find start_index insert_from
sort_add true item items =
    if is_some (sort_find item items)
    then items
    else insert_from item items (start_index item (length items))
sort_add false item items = insert_from item items (start_index item (length items))

abbrev delete_at : List CString → ℕ → List CString
delete_at items i = take i items ++ drop (suc i) items

-- `none` is a failed assertion.
unfoldable pub sort_del : CString → List CString → Option (List CString)
unfolding sort_find
sort_del item items = elim (sort_find item items) [
  | none ↦ none
  | some i ↦ some (delete_at items i)
]
