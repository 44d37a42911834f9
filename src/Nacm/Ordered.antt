-- ===== src/Nacm/Ordered.antt =====
-- The linked lists of src/netconf_acm.c that keep the user's order: rule lists, and rules of a list.
-- Both loops over changes find, unlink and insert in the same way; `name` is the item's name.
pub mod Placed
pub mod Moved
use netopeer.Common.{
  ℕ, zero, suc, ◌==◌, List, [], ◌∷◌, Option, none, some, CString, str_eq, strn_eq, length,
  if◌then◌else◌,
}

module _ {A : Type 0} (name : A → CString) where
  -- find it; NULL is `none`
  abbrev pub find_item : CString → List A → Option A
  find_item key [] = none
  find_item key (x ∷ xs) = if str_eq (name x) key then some x else find_item key xs

  -- find it, unlink it: the item and the other ones; `none` is the failed assertion
  unfoldable pub unlink : CString → List A → Option (A × List A)
  unlink key [] = none
  unlink key (x ∷ xs) =
      let rest = unlink key xs in
      if str_eq (name x) key
      then some (x, xs)
      else elim rest [ none ↦ none | some (y, ys) ↦ some (y, x ∷ ys) ]

  -- find previous item by !strncmp(name, prev, len), insert after it; `none` is the failed assertion
  unfoldable pub insert_after : CString → ℕ → A → List A → Option (List A)
  insert_after prev len item [] = none
  insert_after prev len item (x ∷ xs) =
      let rest = insert_after prev len item xs in
      if strn_eq (name x) prev len
      then some (x ∷ item ∷ xs)
      else elim rest [ none ↦ none | some ys ↦ some (x ∷ ys) ]

  -- The first item of the name is changed.
  unfoldable pub change_item : CString → (A → A) → List A → List A
  change_item key f [] = []
  change_item key f (x ∷ xs) =
      let rest = change_item key f xs in if str_eq (name x) key then f x ∷ xs else x ∷ rest

-- strchr(s, '\'') + 1; NULL is `none`
abbrev pub after_quote : CString → Option CString
after_quote [] = none
after_quote (c ∷ s) = if c == b'\'' then some s else after_quote s

-- strchr(s, '\'') - s
abbrev pub quote_index : CString → Option ℕ
quote_index [] = none
quote_index (c ∷ s) =
    let rest = quote_index s in
    if c == b'\'' then some 0 else elim rest [ none ↦ none | some n ↦ some (suc n) ]

module _ {A : Type 0} (name : A → CString) where
  -- insert behind the item that the predicate `prev_list` names, or in front if it is empty
  unfoldable pub place : CString → A → List A → Option (List A)
  unfolding insert_after
  place [] item items = some (item ∷ items)
  place (c ∷ s) item items = elim (after_quote (c ∷ s)) [
    | none ↦ none
    | some prev ↦ elim (quote_index prev) [
      | none ↦ none
      | some len ↦ insert_after name prev len item items
    ]
  ]

  -- SR_OP_MOVED: unlink it, and insert it at its new place
  unfoldable pub move_item : CString → CString → List A → Option (List A)
  unfolding unlink place
  move_item key prev_list items = elim (unlink name key items) [
    | none ↦ none
    | some (item, others) ↦ place prev_list item others
  ]

  -- SR_OP_DELETED
  unfoldable pub delete_item : CString → List A → Option (List A)
  unfolding unlink
  delete_item key items = elim (unlink name key items) [
    | none ↦ none
    | some (item, others) ↦ some others
  ]
