-- ===== src/Nacm/StrArr/Find.antt =====
-- ncac_strarr_sort_find decides membership in a sorted array.
use Prim.Native.Nat.{Ordering}
use netopeer.Common.{
  ℕ, zero, suc, ◌+◌, ◌/◌, ◌<◌, ◌≤◌, ◌≡◌, refl, sym, ◌≢◌, ◌⊎◌, inl, inr, List, [], ◌∷◌, arith,
  length, Option, none, some, CString, Bool-cases, strcmp, ltb,
}
use netopeer.Common.StringLaws.{StrLe, StrLe-refl, eq_of_strcmp, strcmp_swap_lt}
use netopeer.Nacm.StrArr.Order.{IsSorted, head-le_item}
use netopeer.Nacm.StrArr.{item_at, bsearch, sort_find}

pub item_at_mono :
    (xs : List CString) (i j : ℕ)
    → IsSorted xs
    → i ≤ j
    → j < length xs
    → StrLe (item_at xs i) (item_at xs j)
item_at_mono [] i j s h l = absurd (omega arith)
item_at_mono (x ∷ xs) zero zero s h l = StrLe-refl x
item_at_mono (x ∷ xs) zero (suc j) s h l = head-le_item x xs j s.0 (omega arith)
item_at_mono (x ∷ xs) (suc i) zero s h l = absurd (omega arith)
item_at_mono (x ∷ xs) (suc i) (suc j) s h l = item_at_mono xs i j s.1 (omega arith) (omega arith)

pub Ordering-cases : (o : Ordering) → (o ≡ Ordering.lt) ⊎ (o ≡ Ordering.eq) ⊎ (o ≡ Ordering.gt)
Ordering-cases Ordering.lt = inl refl
Ordering-cases Ordering.eq = inr (inl refl)
Ordering-cases Ordering.gt = inr (inr refl)

-- An answer of a search in items[l .. u).
abbrev pub FindsIn : CString → List CString → ℕ → ℕ → Option ℕ → Type 0
FindsIn key xs l u (some i) = (i < u) × (item_at xs i ≡ key)
FindsIn key xs l u none = (k : ℕ) → l ≤ k → k < u → item_at xs k ≢ key

abbrev pub Finds : CString → List CString → Option ℕ → Type 0
Finds key xs r = FindsIn key xs 0 (length xs) r

module _ (key : CString) (xs : List CString) (s : IsSorted xs) where
  -- Past an item above the key there is no key, and so before an item below it.
  no_key_from :
      (m k : ℕ)
      → strcmp key (item_at xs m) ≡ Ordering.lt
      → m ≤ k
      → k < length xs
      → item_at xs k ≢ key
  no_key_from m k c h l e =
      let le : StrLe (item_at xs m) (item_at xs k) = item_at_mono xs m k s h l in
      ground (arith, strcmp_swap_lt key (item_at xs m))

  no_key_upto :
      (m k : ℕ)
      → strcmp key (item_at xs m) ≡ Ordering.gt
      → k ≤ m
      → m < length xs
      → item_at xs k ≢ key
  no_key_upto m k c h l e =
      let le : StrLe (item_at xs k) (item_at xs m) = item_at_mono xs k m s h l in ground arith

  widen_lower :
      (l m u : ℕ) (r : Option ℕ)
      → m < u
      → u ≤ length xs
      → strcmp key (item_at xs m) ≡ Ordering.lt
      → FindsIn key xs l m r
      → FindsIn key xs l u r
  widen_lower l m u (some i) h b c f = (omega arith, f.1)
  widen_lower l m u none h b c f = λ k a z. elim (Bool-cases (ltb k m)) [
    | inl e ↦ f k a (ground arith)
    | inr e ↦ no_key_from m k c (ground arith) (omega arith)
  ]

  widen_upper :
      (l m u : ℕ) (r : Option ℕ)
      → m < u
      → u ≤ length xs
      → strcmp key (item_at xs m) ≡ Ordering.gt
      → FindsIn key xs (suc m) u r
      → FindsIn key xs l u r
  widen_upper l m u (some i) h b c f = f
  widen_upper l m u none h b c f = λ k a z. elim (Bool-cases (ltb m k)) [
    | inl e ↦ f k (ground arith) z
    | inr e ↦ no_key_upto m k c (ground arith) (omega arith)
  ]

  bsearch-Finds :
      (fuel l u : ℕ) → u ≤ length xs → u ≤ l + fuel → FindsIn key xs l u (bsearch fuel key xs l u)
  unfolding bsearch
  bsearch-Finds zero l u b h = λ k a z. absurd (omega arith)
  bsearch-Finds (suc fuel) l u b h = elim (Bool-cases (ltb l u)) [
    | inr e ↦ rw (e, bsearch) (λ k a z. absurd (ground arith))
    | inl e ↦
        let m : ℕ = (l + u) / 2 in
        let lu : l < u = ground arith in
        elim (Ordering-cases (strcmp key (item_at xs ((l + u) / 2)))) [
          | inl c ↦
              rw (e, c, bsearch)
                (widen_lower l m u (bsearch fuel key xs l m) (omega arith) b c
                  (bsearch-Finds fuel l m (omega arith) (omega arith)))
          | inr (inl c) ↦ rw (e, c, bsearch) (omega arith, sym (eq_of_strcmp key (item_at xs m) c))
          | inr (inr c) ↦
              rw (e, c, bsearch)
                (widen_upper l m u (bsearch fuel key xs (suc m) u) (omega arith) b c
                  (bsearch-Finds fuel (suc m) u b (omega arith)))
        ]
  ]

-- On a sorted array the search gives an index of the item, or no item is the one looked for.
pub sort_find-Finds :
    (item : CString) (items : List CString)
    → IsSorted items
    → Finds item items (sort_find item items)
unfolding sort_find
sort_find-Finds item [] s = λ k a z. absurd (omega arith)
sort_find-Finds item (x ∷ xs) s =
    found (bsearch (length (x ∷ xs)) item (x ∷ xs) 0 (length (x ∷ xs))) (
      bsearch-Finds item (x ∷ xs) s (length (x ∷ xs)) 0 (length (x ∷ xs)) (omega arith)
        (omega arith))
  where
    found :
        (r : Option ℕ)
        → Finds item (x ∷ xs) r
        → Finds item (x ∷ xs) (elim r as (λ _. Option ℕ) [ none ↦ none | some m ↦ some m ])
    found none h = h
    found (some m) h = h
