-- ===== src/Nacm/StrArr/Insert.antt =====
-- ncac_strarr_sort_add keeps an array sorted, from whatever index its search starts.
use mathlib.Core.List.{Perm, perm_middle}
use mathlib.Core.List.Perm
use mathlib.Core.Path.{subst₂}
use netopeer.Common.{
  ap, ◌≢◌, Option, none, some, Option-cases, ℕ, zero, suc, ◌+◌, ◌-◌, ◌*◌, ◌<◌, ◌≤◌, ◌≡◌, refl, ◌⊎◌,
  inl, inr, Bool, true, false, List, [], ◌∷◌, ◌++◌, arith, length, take, drop, All, CString,
  Bool-cases, strcmp, str_gt, str_lt, take-append-drop, subst,
}
use netopeer.Common.StringLaws.{
  StrLe, StrLe-refl, StrLe-trans, StrLe-of_lt, StrLe-of_gt, StrLe-of_not_lt, eq_of_strcmp,
}
use netopeer.Nacm.StrArr.Order.{
  IsSorted, take-below, drop-above, insert_at-IsSorted, delete_at-IsSorted,
}
use netopeer.Nacm.StrArr.Find.{Ordering-cases, item_at_mono, Finds, sort_find-Finds}
use netopeer.Nacm.StrArr.{
  item_at, scan_down, scan_up, insert_index, insert_from, start_index, first_byte, sort_add,
  sort_find, sort_del, delete_at,
}

-- An index at which the item can be put.
abbrev Fits : CString → List CString → ℕ → Type 0
Fits item xs j = All (λ x. StrLe x item) (take j xs) × All (StrLe item) (drop j xs)

module _ (item : CString) (xs : List CString) (s : IsSorted xs) where
  scan_down-Fits :
      (i : ℕ) → i < length xs → StrLe item (item_at xs i) → Fits item xs (scan_down item xs i)
  unfolding scan_down
  scan_down-Fits zero l h = (tt, drop-above item xs zero s (inr h))
  scan_down-Fits (suc i) l h = elim (Bool-cases (str_gt (item_at xs i) item)) [
    | inl e ↦
        rw (e, scan_down)
          (scan_down-Fits i (omega arith) (StrLe-of_gt (item_at xs i) item (ground arith)))
    | inr e ↦
        rw (e, scan_down)
          (take-below item xs i s (omega arith) e, drop-above item xs (suc i) s (inr h))
  ]

  scan_up-Fits :
      (room i : ℕ)
      → i + room ≡ length xs
      → All (λ x. StrLe x item) (take i xs)
      → Fits item xs (scan_up item xs room i)
  unfolding scan_up
  scan_up-Fits zero i e h = (h, drop-above item xs i s (inl (omega arith)))
  scan_up-Fits (suc room) i e h = elim (Bool-cases (str_lt (item_at xs i) item)) [
    | inl below ↦
        rw (below, scan_up)
          (scan_up-Fits room (suc i) (omega arith)
            (take-below item xs i s (omega arith) (StrLe-of_lt (item_at xs i) item (ground arith))))
    | inr above ↦
        rw (above, scan_up)
          (h, drop-above item xs i s (inr (StrLe-of_not_lt (item_at xs i) item above)))
  ]

-- What lies before an index is below what lies at it.
take-below_item :
    (xs : List CString) (i : ℕ)
    → IsSorted xs
    → i < length xs
    → All (λ x. StrLe x (item_at xs i)) (take i xs)
take-below_item xs zero s l = tt
take-below_item xs (suc i) s l =
    take-below (item_at xs (suc i)) xs i s (omega arith)
      (item_at_mono xs i (suc i) s (omega arith) l)

All-below_trans :
    (a b : CString) (xs : List CString)
    → StrLe a b
    → All (λ x. StrLe x a) xs
    → All (λ x. StrLe x b) xs
All-below_trans a b [] h k = tt
All-below_trans a b (x ∷ xs) h k = (StrLe-trans x a b k.0 h, All-below_trans a b xs h k.1)

insert_index-Fits :
    (item : CString) (xs : List CString)
    → IsSorted xs
    → (start : ℕ) → start ≤ length xs - 1
    → Fits item xs (insert_index item xs start)
unfolding insert_index
insert_index-Fits item [] s zero h = (tt, tt)
insert_index-Fits item [] s (suc i) h = absurd (omega arith)
insert_index-Fits item (x ∷ xs) s i h =
    let below = take-below_item (x ∷ xs) i s (omega arith) in
    elim (Ordering-cases (strcmp (item_at (x ∷ xs) i) item)) [
      | inl c ↦
          rw (c, insert_index)
            (scan_up-Fits item (x ∷ xs) s (length (x ∷ xs) - i) i (omega arith) (
              All-below_trans (item_at (x ∷ xs) i) item (take i (x ∷ xs))
                (StrLe-of_lt (item_at (x ∷ xs) i) item c) below))
      | inr (inl c) ↦
          let e = eq_of_strcmp (item_at (x ∷ xs) i) item c in
          rw (c, insert_index)
            (rw e at below, drop-above item (x ∷ xs) i s (inr (rw e (StrLe-refl item))))
      | inr (inr c) ↦
          rw (c, insert_index)
            (scan_down-Fits item (x ∷ xs) s i (omega arith)
              (StrLe-of_gt (item_at (x ∷ xs) i) item c))
    ]

-- Wherever the search starts, the array stays sorted.
insert_from-IsSorted :
    (item : CString) (xs : List CString) (start : ℕ)
    → IsSorted xs
    → start ≤ length xs - 1
    → IsSorted (insert_from item xs start)
unfolding insert_from
insert_from-IsSorted item xs start s h =
    let i = insert_index item xs start in
    let f : Fits item xs i = insert_index-Fits item xs s start h in
    insert_at-IsSorted item xs i s f.0 f.1

insert_from-perm :
    (item : CString) (xs : List CString) (start : ℕ) → Perm (insert_from item xs start) (item ∷ xs)
unfolding insert_from
insert_from-perm item xs start =
    let i = insert_index item xs start in
    subst (λ ys. Perm (insert_from item xs start) (item ∷ ys)) (take-append-drop i xs)
      (perm_middle (take i xs) (drop i xs))

scaled : (d count : ℕ) → d ≤ 25 → d * count ≤ 25 * count
scaled d count h = grind arith

start_index-le : (item : CString) (count : ℕ) → start_index item count ≤ count - 1
unfolding start_index
start_index-le item count = ground (arith, scaled (first_byte item - b'a') count)

-- What an addition leaves: one item more, or the array as it was if the item is there already.
abbrev pub Adds : Bool → CString → List CString → List CString → Type 0
Adds dup item old new =
    IsSorted new
    × (((dup ≡ true) × (new ≡ old) × ((i : ℕ) × (i < length old) × (item_at old i ≡ item)))
        ⊎ (Perm new (item ∷ old)
            × ((dup ≡ false) ⊎ ((k : ℕ) → k < length old → item_at old k ≢ item))))

-- ncac_strarr_sort_add keeps a sorted array sorted and adds the item once, unless duplicates are
-- checked and it is there; then, and only then, nothing changes.
pub sort_add-Adds :
    (dup : Bool) (item : CString) (items : List CString)
    → IsSorted items
    → Adds dup item items (sort_add dup item items)
unfolding sort_add
sort_add-Adds false item items s =
    let start = start_index item (length items) in
    (
      insert_from-IsSorted item items start s (start_index-le item (length items)),
      inr (insert_from-perm item items start, inl refl),
    )
sort_add-Adds true item items s = elim (Option-cases (sort_find item items)) [
  | inl e ↦
      let none_there : Finds item items none =
        subst (Finds item items) e (sort_find-Finds item items s) in
      let start = start_index item (length items) in
      rw (e, sort_add)
        (
          insert_from-IsSorted item items start s (start_index-le item (length items)),
          inr (insert_from-perm item items start, inr (λ k l. none_there k (omega arith) l)),
        )
  | inr (i, e) ↦
      let there : Finds item items (some i) =
        subst (Finds item items) e (sort_find-Finds item items s) in
      rw (e, sort_add) (s, inl (refl, refl, (i, there.0, there.1)))
]

split_at :
    (xs : List CString) (i : ℕ) → i < length xs → take i xs ++ item_at xs i ∷ drop (suc i) xs ≡ xs
split_at [] i l = absurd (omega arith)
split_at (x ∷ xs) zero l = refl
split_at (x ∷ xs) (suc i) l = ap (λ t. x ∷ t) (split_at xs i (omega arith))

-- What a removal leaves: one copy of the item less, or a failed assertion if it is not there.
abbrev pub Deletes : CString → List CString → Option (List CString) → Type 0
Deletes item old none = (k : ℕ) → k < length old → item_at old k ≢ item
Deletes item old (some new) = IsSorted new × Perm (item ∷ new) old

-- ncac_strarr_sort_del removes one copy of the item from a sorted array and keeps the order; its
-- assertion fails exactly when the item is not there.
pub sort_del-Deletes :
    (item : CString) (items : List CString)
    → IsSorted items
    → Deletes item items (sort_del item items)
unfolding sort_del
sort_del-Deletes item items s = elim (Option-cases (sort_find item items)) [
  | inl e ↦
      let none_there : Finds item items none =
        subst (Finds item items) e (sort_find-Finds item items s) in
      rw (e, sort_del) (λ k l. none_there k (omega arith) l)
  | inr (i, e) ↦
      let there : Finds item items (some i) =
        subst (Finds item items) e (sort_find-Finds item items s) in
      rw (e, sort_del)
        (
          delete_at-IsSorted items i s,
          Perm.symm (
              subst₂ (λ x ys. Perm ys (x ∷ delete_at items i)) there.1 (split_at items i there.0)
                (perm_middle (take i items) (drop (suc i) items))),
        )
]
