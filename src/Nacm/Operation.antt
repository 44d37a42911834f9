-- ===== src/Nacm/Operation.antt =====
-- ncac_check_operation of src/netconf_acm.c: the check of an RPC, an action or a notification.
pub mod Checks
use netopeer.Common.{
  ℕ, Bool, true, false, List, [], ◌∷◌, Option, none, some, CString, incr32, if◌then◌else◌,
}
use netopeer.Nacm.Types.{
  op_exec, op_read, Oper, Nacm, NodeType, container, list, leaf, leaf_list, anydata, rpc, action,
  notif, other, NodeInfo, Forest, nil, node, System, is_node_permit,
}
use netopeer.Nacm.Access.{allowed_node}
use netopeer.Nacm.Users.{allowed_tree, collect_groups}

-- LYS_RPC | LYS_ACTION
abbrev pub is_operation : NodeType → Bool
is_operation rpc = true
is_operation action = true
is_operation _ = false

-- What the loop does at a node.
pub data Move : Type 0 where
  found down right stop : Move

abbrev pub move : NodeType → Move
move rpc = found
move action = found
move notif = found
move container = down
move list = down
move leaf = right
move _ = stop

-- NULL or the denied node; `aborted` is a failed assertion.
pub data Outcome : Type 0 where
  allowed aborted : Outcome
  denied : NodeInfo → Outcome

-- Where the loop ends: at NULL, at a leaf that is no key, which fails an assertion, or at an operation
-- with its parent, where there is one.
pub data Search : Type 0 where
  at_null no_key : Search
  at_op : Option NodeInfo → NodeInfo → Search

-- The loop that looks for the operation, from a node with its following siblings. NULL is reached from
-- a container or list without children, and from a last key without a following node.
unfoldable pub find_op : Option NodeInfo → Forest → Search
find_op parent nil = at_null
find_op parent (node n child next) = elim (move n.schema.nodetype) [
  | found ↦ at_op parent n
  | down ↦ find_op (some n) child
  | right ↦ if n.schema.is_key then find_op parent next else no_key
  | stop ↦ at_null
]

-- Access to a node by its own schema and path.
abbrev pub permitted : System → Nacm → Oper → List CString → NodeInfo → Bool
permitted sys nacm oper groups n =
    is_node_permit (allowed_node sys nacm n.path n.schema oper groups)

-- check X access on the RPC/action, or R access on the notification
abbrev pub op_oper : NodeType → Oper
op_oper t = if is_operation t then op_exec else op_read

-- check R access on the parents, the last parent must be enough
pub parent_permitted : System → Nacm → List CString → Option NodeInfo → Bool
parent_permitted sys nacm groups none = true
parent_permitted sys nacm groups (some p) = permitted sys nacm op_read groups p

abbrev pub count_denied : Nacm → NodeType → Nacm
count_denied nacm t =
    if is_operation t
    then record nacm { denied_operations = incr32 nacm.denied_operations }
    else record nacm { denied_notifications = incr32 nacm.denied_notifications }

-- The checks from the operation found on, and the counters.
check_found : System → Nacm → List CString → Option NodeInfo → NodeInfo → Nacm × Outcome
unfolding parent_permitted
check_found sys nacm groups parent op =
    if permitted sys nacm (op_oper op.schema.nodetype) groups op
    then if parent_permitted sys nacm groups parent
      then (nacm, allowed)
      else (count_denied nacm op.schema.nodetype, denied op)
    else (count_denied nacm op.schema.nodetype, denied op)

-- The new state, and what is returned. `data` is the top-level node with its siblings.
unfoldable pub check_operation :
    System → Nacm → CString → NodeInfo → Forest → Forest → Nacm × Outcome
unfolding find_op check_found
check_operation sys nacm user top child next =
    if allowed_tree sys nacm top.schema user
    then (nacm, allowed)
    else elim (collect_groups sys nacm user) [
      | none ↦ (nacm, allowed)
      | some groups ↦ elim (find_op none (node top child next)) [
        | at_null ↦ (nacm, allowed)
        | no_key ↦ (nacm, aborted)
        | at_op parent op ↦ check_found sys nacm groups parent op
      ]
    ]
