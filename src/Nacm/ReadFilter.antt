-- ===== src/Nacm/ReadFilter.antt =====
-- ncac_check_data_read_filter of src/netconf_acm.c and its recursive part.
pub mod Filtered
pub mod Visible
use netopeer.Common.{Bool, true, false, List, [], Option, none, some, CString, if◌then◌else◌}
use netopeer.Nacm.Types.{
  op_read, Nacm, Access, deny, partial_deny, partial_permit, permit, NodeType, container, list, rpc,
  action, notif, NodeInfo, Forest, nil, node, System,
}
use netopeer.Nacm.Access.{allowed_node}
use netopeer.Nacm.Users.{allowed_tree, collect_groups}

-- LYD_NODE_INNER
abbrev pub is_inner : NodeType → Bool
is_inner container = true
is_inner list = true
is_inner rpc = true
is_inner action = true
is_inner notif = true
is_inner _ = false

-- Whether the node stays with permitted access, by its access and by the highest access among its
-- children.
abbrev pub node_stays : Access → NodeType → Bool → Bool
node_stays deny t below = false
node_stays partial_deny t below = if is_inner t then below else false
node_stays partial_permit t below = true
node_stays permit t below = true

-- The children after the check of the node: filtered by a partial access to an inner node.
abbrev pub children_left : Access → NodeType → Forest → Forest → Forest
children_left deny t child filtered = child
children_left partial_deny t child filtered = if is_inner t then filtered else child
children_left partial_permit t child filtered = if is_inner t then filtered else child
children_left permit t child filtered = child

module _ (access : NodeInfo → Access) where
  -- The siblings that are left, and whether any of them is permitted. Keys are never freed.
  unfoldable pub filter_siblings : Forest → Forest × Bool
  filter_siblings nil = (nil, false)
  filter_siblings (node n child next) =
      let (child', below) = filter_siblings child in
      let (next', later) = filter_siblings next in
      let kept = node n (children_left (access n) n.schema.nodetype child child') next' in
      if node_stays (access n) n.schema.nodetype below
      then (kept, true)
      else (if n.schema.is_key then kept else next', later)

-- The access of a user's groups to read a node.
abbrev pub read_access : System → Nacm → List CString → NodeInfo → Access
read_access sys nacm groups n = allowed_node sys nacm n.path n.schema op_read groups

-- *data && !ncac_allowed_tree((*data)->schema, user), and then the filter
unfoldable pub filter_tree : System → Nacm → CString → List CString → Forest → Forest
unfolding filter_siblings
filter_tree sys nacm user groups nil = nil
filter_tree sys nacm user groups (node n child next) =
    if allowed_tree sys nacm n.schema user
    then node n child next
    else (filter_siblings (read_access sys nacm groups) (node n child next)).0

unfoldable pub check_data_read_filter : System → Nacm → CString → Forest → Forest
unfolding filter_tree filter_siblings
check_data_read_filter sys nacm user top = elim (collect_groups sys nacm user) [
  | none ↦ top
  | some groups ↦ filter_tree sys nacm user groups top
]
