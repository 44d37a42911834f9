-- ===== src/Nacm/Operation/Checks.antt =====
-- What ncac_check_operation refuses and counts.
use netopeer.Common.{
  Bool, if◌then◌else◌, ◌≡◌, refl, ◌⊎◌, inl, inr, true, false, List, Option, none, some, CString,
  arith, Bool-cases, Option-cases,
}
use netopeer.Nacm.Types.{Nacm, NodeInfo, Forest, nil, node, System}
use netopeer.Nacm.Users.{allowed_tree, collect_groups}
use netopeer.Nacm.Operation.{
  Move, found, down, right, stop, move, Outcome, allowed, aborted, denied, Search, at_null, no_key,
  at_op, find_op, permitted, op_oper, parent_permitted, count_denied, check_found, check_operation,
}

-- The node stands among the siblings or below them, under the parent.
abbrev pub Occurs : Option NodeInfo → Forest → Option NodeInfo → NodeInfo → Type 0
Occurs above nil parent op = ⊥
Occurs above (node n child next) parent op =
    ((above ≡ parent) × (n ≡ op)) ⊎ Occurs (some n) child parent op ⊎ Occurs above next parent op

-- What the loop finds is an RPC, an action or a notification of the data, with its parent.
pub find_op_sound :
    (above : Option NodeInfo) (f : Forest) (parent : Option NodeInfo) (op : NodeInfo)
    → find_op above f ≡ at_op parent op
    → (move op.schema.nodetype ≡ found) × Occurs above f parent op
unfolding find_op
find_op_sound above nil parent op h = cc
find_op_sound above (node n child next) parent op h =
    by_move (move n.schema.nodetype) n.schema.is_key refl (find_op_sound (some n) child parent op)
      (find_op_sound above next parent op) h
  where
    by_move :
        (m : Move) (key : Bool)
        → move n.schema.nodetype ≡ m
        → (find_op (some n) child ≡ at_op parent op
            → (move op.schema.nodetype ≡ found) × Occurs (some n) child parent op)
        → (find_op above next ≡ at_op parent op
            → (move op.schema.nodetype ≡ found) × Occurs above next parent op)
        → ◌≡◌ {A = Search}
            (elim m [
              | found ↦ at_op above n
              | down ↦ find_op (some n) child
              | right ↦ if key then find_op above next else no_key
              | stop ↦ at_null
            ])
            (at_op parent op)
        → (move op.schema.nodetype ≡ found) × Occurs above (node n child next) parent op
    by_move found key e below after h = ground (arith, e)
    by_move down key e below after h = let r = below h in (r.0, inr (inl r.1))
    by_move right true e below after h = let r = after h in (r.0, inr (inr r.1))
    by_move right false e below after h = cc
    by_move stop key e below after h = cc

-- The loop finds the operation for a user whose groups are known, who has to be checked.
abbrev pub Checked :
    System → Nacm → CString → NodeInfo → Forest → Forest → List CString → Search → Type 0
Checked sys nacm user top child next groups found_at =
    (allowed_tree sys nacm top.schema user ≡ false)
    × (collect_groups sys nacm user ≡ some groups)
    × (find_op none (node top child next) ≡ found_at)

-- NULL: the user is not checked, or no operation is found, or the operation and its parent are permitted.
-- A refusal: one of them is not, and one counter goes up, by the kind of the node.
abbrev pub Answers : System → Nacm → CString → NodeInfo → Forest → Forest → Nacm × Outcome → Type 0
Answers sys nacm user top child next (after, allowed) =
    (after ≡ nacm)
    × ((allowed_tree sys nacm top.schema user ≡ true)
        ⊎ (collect_groups sys nacm user ≡ none)
        ⊎ (find_op none (node top child next) ≡ at_null)
        ⊎ ((groups : List CString) × (parent : Option NodeInfo) × (op : NodeInfo) × Checked sys nacm
              user top child next groups (at_op parent op)
            × Occurs none (node top child next) parent op
            × (permitted sys nacm (op_oper op.schema.nodetype) groups op ≡ true)
            × (parent_permitted sys nacm groups parent ≡ true)))
Answers sys nacm user top child next (after, aborted) =
    (after ≡ nacm) × (groups : List CString) × Checked sys nacm user top child next groups no_key
Answers sys nacm user top child next (after, denied op) =
    (after ≡ count_denied nacm op.schema.nodetype)
    × (groups : List CString) × (parent : Option NodeInfo) × Checked sys nacm user top child next
        groups (at_op parent op)
    × (move op.schema.nodetype ≡ found)
    × Occurs none (node top child next) parent op
    × ((permitted sys nacm (op_oper op.schema.nodetype) groups op ≡ false)
        ⊎ (parent_permitted sys nacm groups parent ≡ false))

module _ (sys : System) (nacm : Nacm) (user : CString) (top : NodeInfo) (child next : Forest) where
  check_found-Answers :
      (groups : List CString) (parent : Option NodeInfo) (op : NodeInfo)
      → Checked sys nacm user top child next groups (at_op parent op)
      → Answers sys nacm user top child next (check_found sys nacm groups parent op)
  unfolding check_found
  check_found-Answers groups parent op c =
      let s = find_op_sound none (node top child next) parent op c.2 in
      elim (Bool-cases (permitted sys nacm (op_oper op.schema.nodetype) groups op)) [
        | inr e ↦ rw e (refl, groups, parent, c, s.0, s.1, inl e)
        | inl e ↦ elim (Bool-cases (parent_permitted sys nacm groups parent)) [
          | inl p ↦ rw (e, p) (refl, inr (inr (inr (groups, parent, op, c, s.1, e, p))))
          | inr p ↦ rw (e, p) (refl, groups, parent, c, s.0, s.1, inr p)
        ]
      ]

  found_at-Answers :
      (groups : List CString) (r : Search)
      → Checked sys nacm user top child next groups r
      → Answers sys nacm user top child next (elim r as (λ _. Nacm × Outcome) [
        | at_null ↦ (nacm, allowed)
        | no_key ↦ (nacm, aborted)
        | at_op parent op ↦ check_found sys nacm groups parent op
      ])
  found_at-Answers groups at_null c = (refl, inr (inr (inl c.2)))
  found_at-Answers groups no_key c = (refl, groups, c)
  found_at-Answers groups (at_op parent op) c = check_found-Answers groups parent op c

  -- ncac_check_operation returns NULL exactly where the user is not checked, the groups are not
  -- collected, no operation is found, or the operation found and its parent are permitted for the groups;
  -- the state is then left as it is, as where the search fails its assertion. Otherwise it returns the
  -- operation found, an RPC, action or notification of the data that is not permitted or whose
  -- parent is not, and adds one to the counter of that kind of node and to nothing else.
  pub check_operation-Answers :
      Answers sys nacm user top child next (check_operation sys nacm user top child next)
  unfolding check_operation
  check_operation-Answers = elim (Bool-cases (allowed_tree sys nacm top.schema user)) [
    | inl a ↦ rw (a, check_operation) (refl, inl a)
    | inr a ↦ elim (Option-cases (collect_groups sys nacm user)) [
      | inl g ↦ rw (a, g, check_operation) (refl, inr (inl g))
      | inr (groups, g) ↦
          rw (a, g, check_operation)
            (found_at-Answers groups (find_op none (node top child next)) (a, g, refl))
    ]
  ]
