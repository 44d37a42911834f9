-- ===== src/Nacm/Diff.antt =====
-- ncac_check_diff of src/netconf_acm.c and its recursive part.
pub mod Denials
pub mod Complete
pub mod Forgotten
use netopeer.Common.{
  ℕ, ◌==◌, Bool, true, false, List, [], ◌∷◌, Option, none, some, CString, lit, str_eq, incr32,
  if◌then◌else◌,
}
use netopeer.Nacm.Types.{
  Oper, op_create, op_update, op_delete, Nacm, NodeInfo, Forest, nil, node, System,
}
use netopeer.Nacm.Operation.{permitted}
pub use netopeer.Nacm.Operation.{Outcome, allowed, aborted, denied}
use netopeer.Nacm.Users.{allowed_tree, collect_groups}

-- What the operation of a diff node asks for: nothing ("none"), an access, an unknown operation, or
-- a failed assertion.
pub data Required : Type 0 where
  nothing unknown broken : Required
  access : Oper → Required

-- The metadata of the node, or the operation of its parent.
abbrev pub effective : Option CString → Option CString → Option CString
effective (some op) parent_op = some op
effective none parent_op = parent_op

-- get required access operation, by the first letter
unfoldable pub required : Option CString → Required
required none = broken
required (some []) = unknown
required (some (c ∷ op)) =
    if c == b'n'
    then nothing
    else if c == b'r'
    then if str_eq (c ∷ op) (lit "replace") then access op_update else broken
    else if c == b'c'
    then access op_create
    else if c == b'd'
    then access op_delete
    else unknown

-- Whether the node itself may be changed.
abbrev pub node_allowed : (Oper → NodeInfo → Bool) → Required → NodeInfo → Bool
node_allowed permits (access oper) n = permits oper n
node_allowed permits _ n = true

-- What the loop does at a node: it goes on, it ends with the node, with NULL, or by the assertion.
pub data Turn : Type 0 where
  goes_on gives_node gives_null aborts : Turn

abbrev pub turn : (Oper → NodeInfo → Bool) → Required → NodeInfo → Turn
turn permits nothing n = goes_on
turn permits unknown n = gives_null
turn permits broken n = aborts
turn permits (access oper) n = if permits oper n then goes_on else gives_node

-- What the loop does behind a node whose children have given an outcome: their outcome is what the
-- variable `node` holds then.
abbrev pub go_on : Outcome → (Outcome → Outcome) → Outcome
go_on aborted rest = aborted
go_on allowed rest = rest allowed
go_on (denied n) rest = rest (denied n)

module _ (permits : Oper → NodeInfo → Bool) where
  -- The loop over the siblings, with the variable `node` of the source; a call begins with NULL.
  unfoldable pub check_siblings : Option CString → Forest → Outcome → Outcome
  check_siblings parent_op nil found = found
  check_siblings parent_op (node n nil next) found =
      elim (turn permits (required (effective n.operation parent_op)) n) [
        | goes_on ↦ check_siblings parent_op next found
        | gives_node ↦ denied n
        | gives_null ↦ allowed
        | aborts ↦ aborted
      ]
  check_siblings parent_op (node n (node c below after) next) found =
      let op = effective n.operation parent_op in
      elim (turn permits (required op) n) [
        | goes_on ↦
            go_on (check_siblings op (node c below after) allowed)
              (λ o. check_siblings parent_op next o)
        | gives_node ↦ denied n
        | gives_null ↦ allowed
        | aborts ↦ aborted
      ]

abbrev count_denied : Nacm → Outcome → Nacm × Outcome
count_denied nacm (denied n) =
    (record nacm { denied_data_writes = incr32 nacm.denied_data_writes }, denied n)
count_denied nacm o = (nacm, o)

-- The new state, and NULL or the denied node; the diff is its first node with children and siblings.
unfoldable pub check_diff : System → Nacm → CString → NodeInfo → Forest → Forest → Nacm × Outcome
unfolding check_siblings
check_diff sys nacm user n child next = elim (collect_groups sys nacm user) [
  | none ↦ (nacm, allowed)
  | some groups ↦
      if allowed_tree sys nacm n.schema user
      then (nacm, allowed)
      else count_denied nacm (
          check_siblings (λ oper m. permitted sys nacm oper groups m) none (node n child next)
            allowed)
]
