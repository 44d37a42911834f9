-- ===== src/Nacm/StrArr/Order.antt =====
-- Sorted lists of strings: what an index tells about the items on its two sides.
use netopeer.Common.{
  ℕ, zero, suc, ◌<◌, ◌≤◌, ◌⊎◌, inl, inr, List, [], ◌∷◌, ◌++◌, arith, length, take, drop, All,
  CString,
}
use netopeer.Common.StringLaws.{StrLe, StrLe-trans}
use netopeer.Nacm.StrArr.{item_at}

abbrev pub IsSorted : List CString → Type 0
IsSorted [] = Unit
IsSorted (x ∷ xs) = All (StrLe x) xs × IsSorted xs

pub All-le_trans :
    (a b : CString) (xs : List CString) → StrLe a b → All (StrLe b) xs → All (StrLe a) xs
All-le_trans a b [] h k = tt
All-le_trans a b (x ∷ xs) h k = (StrLe-trans a b x h k.0, All-le_trans a b xs h k.1)

-- Everything from an index on is above what the item there is above.
pub drop-above :
    (item : CString) (xs : List CString) (i : ℕ)
    → IsSorted xs
    → (length xs ≤ i) ⊎ StrLe item (item_at xs i)
    → All (StrLe item) (drop i xs)
drop-above item [] zero s h = tt
drop-above item [] (suc i) s h = tt
drop-above item (x ∷ xs) zero s (inl h) = absurd (omega arith)
drop-above item (x ∷ xs) zero s (inr h) = (h, All-le_trans item x xs h s.0)
drop-above item (x ∷ xs) (suc i) s (inl h) = drop-above item xs i s.1 (inl (omega arith))
drop-above item (x ∷ xs) (suc i) s (inr h) = drop-above item xs i s.1 (inr h)

-- The head of a sorted list is below the item at any index.
pub head-le_item :
    (x : CString) (xs : List CString) (i : ℕ)
    → All (StrLe x) xs
    → i < length xs
    → StrLe x (item_at xs i)
head-le_item x [] i h l = absurd (omega arith)
head-le_item x (y ∷ ys) zero h l = h.0
head-le_item x (y ∷ ys) (suc i) h l = head-le_item x ys i h.1 (omega arith)

-- Everything up to an index is below what the item there is below.
pub take-below :
    (item : CString) (xs : List CString) (i : ℕ)
    → IsSorted xs
    → i < length xs
    → StrLe (item_at xs i) item
    → All (λ x. StrLe x item) (take (suc i) xs)
take-below item [] i s l h = tt
take-below item (x ∷ xs) zero s l h = (h, tt)
take-below item (x ∷ xs) (suc i) s l h = (
  StrLe-trans x (item_at xs i) item (head-le_item x xs i s.0 (omega arith)) h,
  take-below item xs i s.1 (omega arith) h,
)

take-All : (P : CString → Type 0) (xs : List CString) (i : ℕ) → All P xs → All P (take i xs)
take-All P xs zero h = tt
take-All P [] (suc i) h = tt
take-All P (x ∷ xs) (suc i) h = (h.0, take-All P xs i h.1)

drop-All : (P : CString → Type 0) (xs : List CString) (i : ℕ) → All P xs → All P (drop i xs)
drop-All P xs zero h = h
drop-All P [] (suc i) h = tt
drop-All P (x ∷ xs) (suc i) h = drop-All P xs i h.1

All-join : (P : CString → Type 0) (xs ys : List CString) → All P xs → All P ys → All P (xs ++ ys)
All-join P [] ys h k = k
All-join P (x ∷ xs) ys h k = (h.0, All-join P xs ys h.1 k)

-- An item between its two sides leaves the list sorted.
pub insert_at-IsSorted :
    (item : CString) (xs : List CString) (i : ℕ)
    → IsSorted xs
    → All (λ x. StrLe x item) (take i xs)
    → All (StrLe item) (drop i xs)
    → IsSorted (take i xs ++ item ∷ drop i xs)
insert_at-IsSorted item xs zero s h k = (k, s)
insert_at-IsSorted item [] (suc i) s h k = (tt, tt)
insert_at-IsSorted item (x ∷ xs) (suc i) s h k = (
  All-join (StrLe x) (take i xs) (item ∷ drop i xs) (take-All (StrLe x) xs i s.0)
      (h.0, drop-All (StrLe x) xs i s.0),
  insert_at-IsSorted item xs i s.1 h.1 k,
)

pub delete_at-IsSorted :
    (xs : List CString) (i : ℕ) → IsSorted xs → IsSorted (take i xs ++ drop (suc i) xs)
delete_at-IsSorted [] zero s = tt
delete_at-IsSorted [] (suc i) s = tt
delete_at-IsSorted (x ∷ xs) zero s = s.1
delete_at-IsSorted (x ∷ xs) (suc i) s = (
  All-join (StrLe x) (take i xs) (drop (suc i) xs) (take-All (StrLe x) xs i s.0)
      (drop-All (StrLe x) xs (suc i) s.0),
  delete_at-IsSorted xs i s.1,
)
