-- ===== src/Nacm/Ordered/Moved.antt =====
-- Moving, placing and deleting keep all other items, in their order.
use netopeer.Common.{
  ℕ, ◌≡◌, refl, subst, sym, ap, inl, inr, List, [], ◌∷◌, ◌++◌, some, CString, str_eq, strn_eq,
  arith, All, All-append, Bool-cases, Option-cases,
}
use netopeer.Common.StringLaws.{str_eq_iff}
use netopeer.Nacm.Ordered.{
  find_item, unlink, insert_after, change_item, after_quote, quote_index, place, move_item,
  delete_item,
}

module _ {A : Type 0} where
  -- `items` is `others` with the item put in somewhere.
  abbrev pub PutIn : A → List A → List A → Type 0
  PutIn item others items =
      (before : List A) × (after : List A) × (others ≡ before ++ after)
      × (items ≡ before ++ item ∷ after)

  PutIn-cons :
      (x item : A) (others items : List A)
      → PutIn item others items
      → PutIn item (x ∷ others) (x ∷ items)
  PutIn-cons x item others items (before, after, e, f) =
      (x ∷ before, after, ap (λ l. x ∷ l) e, ap (λ l. x ∷ l) f)

module _ {A : Type 0} (name : A → CString) where
  unlink-PutIn :
      (key : CString) (items others : List A) (item : A)
      → unlink name key items ≡ some (item, others)
      → (name item ≡ key) × PutIn item others items
  unfolding unlink
  unlink-PutIn key [] others item h = cc
  unlink-PutIn key (x ∷ xs) others item h = elim (Bool-cases (str_eq (name x) key)) [
    | inl e ↦
        let here : x ≡ item = ground (arith, e) in
        let rest : xs ≡ others = ground (arith, e) in
        (
          subst (λ y. name y ≡ key) here ((str_eq_iff (name x) key).0 e),
          ([], xs, sym rest, ap (λ y. y ∷ xs) here),
        )
    | inr e ↦ elim (Option-cases (unlink name key xs)) [
      | inl r ↦ cc (rw (e, r, unlink) at h)
      | inr ((y, ys), r) ↦
          let same : y ≡ item = ground (arith, e, r) in
          let rest : x ∷ ys ≡ others = ground (arith, e, r) in
          let found = unlink-PutIn key xs ys y r in
          (
            subst (λ z. name z ≡ key) same found.0,
            subst (λ z. PutIn z others (x ∷ xs)) same
                (subst (λ l. PutIn y l (x ∷ xs)) rest (PutIn-cons x y ys xs found.1)),
          )
    ]
  ]

  insert_after-PutIn :
      (prev : CString) (len : ℕ) (item : A) (items new : List A)
      → insert_after name prev len item items ≡ some new
      → PutIn item items new
  unfolding insert_after
  insert_after-PutIn prev len item [] new h = cc
  insert_after-PutIn prev len item (x ∷ xs) new h = elim (Bool-cases (strn_eq (name x) prev len)) [
    | inl e ↦ let made : x ∷ item ∷ xs ≡ new = ground (arith, e) in (x ∷ [], xs, refl, sym made)
    | inr e ↦ elim (Option-cases (insert_after name prev len item xs)) [
      | inl r ↦ cc (rw (e, r, insert_after) at h)
      | inr (ys, r) ↦
          let made : x ∷ ys ≡ new = ground (arith, e, r) in
          subst (PutIn item (x ∷ xs)) made
            (PutIn-cons x item xs ys (insert_after-PutIn prev len item xs ys r))
    ]
  ]

  pub place-PutIn :
      (prev_list : CString) (item : A) (items new : List A)
      → place name prev_list item items ≡ some new
      → PutIn item items new
  unfolding place
  place-PutIn [] item items new h =
      let made : item ∷ items ≡ new = ground arith in ([], items, refl, sym made)
  place-PutIn (c ∷ s) item items new h = elim (Option-cases (after_quote (c ∷ s))) [
    | inl e ↦ cc (rw (e, place) at h)
    | inr (prev, e) ↦ elim (Option-cases (quote_index prev)) [
      | inl f ↦ cc (rw (e, f, place) at h)
      | inr (len, f) ↦ insert_after-PutIn prev len item items new (rw (e, f, place) at h)
    ]
  ]

  -- A moved item is the one of its name, and the others stay as and in the order they were.
  pub move_item-PutIn :
      (key prev_list : CString) (items new : List A)
      → move_item name key prev_list items ≡ some new
      → (item : A) × (others : List A) × (name item ≡ key)
        × PutIn item others items
        × PutIn item others new
  unfolding move_item
  move_item-PutIn key prev_list items new h = elim (Option-cases (unlink name key items)) [
    | inl e ↦ cc (rw (e, move_item) at h)
    | inr ((item, others), e) ↦
        let u = unlink-PutIn key items others item e in
        (item, others, u.0, u.1, place-PutIn prev_list item others new (rw (e, move_item) at h))
  ]

  -- A deleted item is the one of its name, and the others stay as and in the order they were.
  pub delete_item-PutIn :
      (key : CString) (items new : List A)
      → delete_item name key items ≡ some new
      → (item : A) × (name item ≡ key) × PutIn item new items
  unfolding delete_item
  delete_item-PutIn key items new h = elim (Option-cases (unlink name key items)) [
    | inl e ↦ cc (rw (e, delete_item) at h)
    | inr ((item, others), e) ↦
        let u = unlink-PutIn key items others item e in
        let same : others ≡ new = ground (arith, e) in
        (item, u.0, subst (λ l. PutIn item l items) same u.1)
  ]

-- What holds of all items still does.
module _ {A : Type 0} (name : A → CString) (P : A → Type 0) where
  All-split : (xs ys : List A) → All P (xs ++ ys) → All P xs × All P ys
  All-split [] ys h = (tt, h)
  All-split (x ∷ xs) ys h = let r = All-split xs ys h.1 in ((h.0, r.0), r.1)

  PutIn-All :
      (item : A) (others items : List A)
      → PutIn item others items
      → P item
      → All P others
      → All P items
  PutIn-All item others items (before, after, e, f) p h =
      let parts = All-split before after (subst (All P) e h) in
      subst (All P) (sym f) (All-append P before (item ∷ after) parts.0 (p, parts.1))

  All-PutIn :
      (item : A) (others items : List A)
      → PutIn item others items
      → All P items
      → P item × All P others
  All-PutIn item others items (before, after, e, f) h =
      let parts = All-split before (item ∷ after) (subst (All P) f h) in
      (parts.1.0, subst (All P) (sym e) (All-append P before after parts.0 parts.1.1))

  pub place-All :
      (prev_list : CString) (item : A) (items new : List A)
      → place name prev_list item items ≡ some new
      → P item
      → All P items
      → All P new
  place-All prev_list item items new h p a =
      PutIn-All item items new (place-PutIn name prev_list item items new h) p a

  pub move_item-All :
      (key prev_list : CString) (items new : List A)
      → move_item name key prev_list items ≡ some new
      → All P items
      → All P new
  move_item-All key prev_list items new h a =
      let (item, others, _, p, q) = move_item-PutIn name key prev_list items new h in
      let r = All-PutIn item others items p a in PutIn-All item others new q r.0 r.1

  pub delete_item-All :
      (key : CString) (items new : List A)
      → delete_item name key items ≡ some new
      → All P items
      → All P new
  delete_item-All key items new h a =
      let (item, _, p) = delete_item-PutIn name key items new h in (All-PutIn item new items p a).1

  pub change_item-All :
      (key : CString) (f : A → A) (items : List A)
      → ((x : A) → P x → P (f x))
      → All P items
      → All P (change_item name key f items)
  unfolding change_item
  change_item-All key f [] keep h = tt
  change_item-All key f (x ∷ xs) keep h = elim (Bool-cases (str_eq (name x) key)) [
    | inl e ↦ rw (e, change_item) (keep x h.0, h.1)
    | inr e ↦ rw (e, change_item) (h.0, change_item-All key f xs keep h.1)
  ]

  pub find_item-All :
      (key : CString) (items : List A) (item : A)
      → find_item name key items ≡ some item
      → All P items
      → P item
  find_item-All key [] item h a = cc
  find_item-All key (x ∷ xs) item h a = elim (Bool-cases (str_eq (name x) key)) [
    | inl e ↦ let here : x ≡ item = ground (arith, e) in subst P here a.0
    | inr e ↦ find_item-All key xs item (ground (arith, e)) a.1
  ]
