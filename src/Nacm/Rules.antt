-- ===== src/Nacm/Rules.antt =====
-- ncac_rule_cb of src/netconf_acm.c: the rules of the rule lists, their order and their leaves.
-- Allocation is taken to succeed.
use netopeer.Common.{
  List, Option, none, some, CString, lit, str_eq, strstr, not, ◌&&◌, if◌then◌else◌, Bool,
}
use netopeer.Nacm.Types.{
  TargetType, target_rpc, target_notif, target_data, target_any, Operations, no_operations,
  all_operations, Rule, RuleList, Nacm,
}
use netopeer.Nacm.Ordered.{find_item, change_item, place, move_item, delete_item}
use netopeer.Nacm.RuleLists.{list_name}
use netopeer.Sysrepo.{
  ChangeOp, created, modified, deleted, moved, is_deleted, Code, sr_err_internal, assertion,
  Changes, Step, go, stop, callback,
}

-- A changed rule with the predicate of the one before it, or a changed node below a rule with its
-- schema name and value.
pub data RuleChange : Type 0 where
  on_rule : ChangeOp → (list_key : CString) → (key : CString) → (prev_list : CString) → RuleChange
  on_leaf :
      ChangeOp
      → (list_key : CString) → (key : CString) → (leaf : CString) → (value : CString) → RuleChange

abbrev pub rule_name : Rule → CString
rule_name r = r.name

-- calloc, and target_type = NCAC_TARGET_ANY
abbrev pub new_rule : CString → Rule
new_rule name = record {
  name = name;
  module_name = none;
  target = none;
  target_type = target_any;
  operations = no_operations;
  action_deny = Bool.false;
  comment = none;
}

-- "*" is NULL
abbrev pub unless_star : CString → Option CString
unless_star value = if str_eq value (lit "*") then none else some value

-- access-operations
unfoldable pub parse_operations : CString → Operations
unfolding strstr
parse_operations value = if str_eq value (lit "*") then all_operations else record {
  create = strstr value (lit "create");
  read = strstr value (lit "read");
  update = strstr value (lit "update");
  delete = strstr value (lit "delete");
  exec = strstr value (lit "exec");
}

-- rpc-name, notification-name or path
unfoldable pub set_target : ChangeOp → TargetType → CString → Rule → Rule
set_target op type value r =
    if is_deleted op
    then record r { target = none; target_type = target_any }
    else record r { target = unless_star value; target_type = type }

-- A node below the rule.
unfoldable pub set_leaf : ChangeOp → CString → CString → Rule → Rule
unfolding parse_operations set_target
set_leaf op leaf value r =
    if str_eq leaf (lit "module-name")
    then record r { module_name = unless_star value }
    else if str_eq leaf (lit "rpc-name")
    then set_target op target_rpc value r
    else if str_eq leaf (lit "notification-name")
    then set_target op target_notif value r
    else if str_eq leaf (lit "path")
    then set_target op target_data value r
    else if str_eq leaf (lit "access-operations")
    then record r { operations = parse_operations value }
    else if str_eq leaf (lit "action")
    then record r { action_deny = not (str_eq value (lit "permit")) }
    else if str_eq leaf (lit "comment")
    then record r { comment = if is_deleted op then none else some value }
    else r

-- The rules of the list of the key are replaced; `none` is a failed assertion.
unfoldable pub with_rules : Nacm → CString → Option (List Rule) → Step Nacm
with_rules nacm list_key none = stop nacm assertion
with_rules nacm list_key (some rs) = go (record nacm {
  rule_lists = change_item list_name list_key (λ l. record l { rules = rs }) nacm.rule_lists;
})

-- A rule of a list that is there.
unfoldable pub ordered_step : Nacm → ChangeOp → CString → CString → CString → RuleList → Step Nacm
unfolding with_rules
ordered_step nacm moved list_key key prev_list l =
    with_rules nacm list_key (move_item rule_name key prev_list l.rules)
ordered_step nacm created list_key key prev_list l =
    with_rules nacm list_key (place rule_name prev_list (new_rule key) l.rules)
ordered_step nacm deleted list_key key prev_list l =
    with_rules nacm list_key (delete_item rule_name key l.rules)
ordered_step nacm modified list_key key prev_list l = stop nacm sr_err_internal

abbrev pub is_moved : ChangeOp → Bool
is_moved moved = Bool.true
is_moved _ = Bool.false

-- A node below a rule of a list that is there; a comment is not moved, by an assertion.
unfoldable pub leaf_step :
    Nacm → ChangeOp → CString → CString → CString → CString → RuleList → Step Nacm
unfolding set_leaf with_rules
leaf_step nacm op list_key key leaf value l = elim (find_item rule_name key l.rules) [
  | none ↦ if is_deleted op then go nacm else stop nacm assertion
  | some r ↦
      if str_eq leaf (lit "comment") && is_moved op
      then stop nacm assertion
      else with_rules nacm list_key
          (some (change_item rule_name key (set_leaf op leaf value) l.rules))
]

unfoldable pub rule_step : Nacm → RuleChange → Step Nacm
unfolding ordered_step leaf_step
rule_step nacm (on_rule op list_key key prev_list) =
    elim (find_item list_name list_key nacm.rule_lists) [
      | none ↦ if is_deleted op then go nacm else stop nacm assertion
      | some l ↦ ordered_step nacm op list_key key prev_list l
    ]
rule_step nacm (on_leaf op list_key key leaf value) =
    elim (find_item list_name list_key nacm.rule_lists) [
      | none ↦ if is_deleted op then go nacm else stop nacm assertion
      | some l ↦ leaf_step nacm op list_key key leaf value l
    ]

unfoldable pub rule_cb : Nacm → Changes RuleChange → Nacm × Code
unfolding rule_step callback
rule_cb nacm cs = callback rule_step nacm cs
