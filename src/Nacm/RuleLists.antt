-- ===== src/Nacm/RuleLists.antt =====
-- ncac_rule_list_cb of src/netconf_acm.c: the rule lists, their order and their groups.
-- Allocation is taken to succeed.
use netopeer.Common.{List, [], Option, none, some, CString, if◌then◌else◌, false}
use netopeer.Nacm.Types.{Nacm, RuleList}
use netopeer.Nacm.StrArr.{sort_add, sort_del}
use netopeer.Nacm.Ordered.{find_item, change_item, place, move_item, delete_item}
use netopeer.Sysrepo.{
  ChangeOp, created, modified, deleted, moved, is_deleted, Code, sr_err_internal, assertion,
  Changes, Step, go, stop, callback,
}

-- A changed rule-list with the predicate of the one before it, a changed group of a rule list, or
-- another node of a rule list.
pub data RuleListChange : Type 0 where
  on_list : ChangeOp → (name : CString) → (prev_list : CString) → RuleListChange
  on_group : ChangeOp → (list_name : CString) → (group_name : CString) → RuleListChange
  on_other : ChangeOp → (list_name : CString) → RuleListChange

abbrev pub list_name : RuleList → CString
list_name l = l.name

-- Goes on with new rule lists; `none` is a failed assertion.
abbrev pub with_lists : Nacm → Option (List RuleList) → Step Nacm
with_lists nacm none = stop nacm assertion
with_lists nacm (some ls) = go (record nacm { rule_lists = ls })

-- A group of a rule list that is there.
unfoldable pub list_group_step : Nacm → ChangeOp → CString → CString → RuleList → Step Nacm
list_group_step nacm created key group l = with_lists nacm (
    some (
      change_item list_name key (λ k. record k { groups = sort_add false group l.groups })
        nacm.rule_lists))
list_group_step nacm deleted key group l = elim (sort_del group l.groups) [
  | none ↦ stop nacm assertion
  | some groups ↦
      with_lists nacm
        (some (change_item list_name key (λ k. record k { groups = groups }) nacm.rule_lists))
]
list_group_step nacm modified key group l = stop nacm assertion
list_group_step nacm moved key group l = stop nacm assertion

unfoldable pub rule_list_step : Nacm → RuleListChange → Step Nacm
unfolding list_group_step
rule_list_step nacm (on_list moved key prev_list) =
    with_lists nacm (move_item list_name key prev_list nacm.rule_lists)
rule_list_step nacm (on_list created key prev_list) =
    with_lists nacm
      (place list_name prev_list (record { name = key; groups = []; rules = [] }) nacm.rule_lists)
rule_list_step nacm (on_list deleted key prev_list) =
    with_lists nacm (delete_item list_name key nacm.rule_lists)
rule_list_step nacm (on_list modified key prev_list) = stop nacm sr_err_internal
rule_list_step nacm (on_group op key group) = elim (find_item list_name key nacm.rule_lists) [
  | none ↦ if is_deleted op then go nacm else stop nacm assertion
  | some l ↦ list_group_step nacm op key group l
]
rule_list_step nacm (on_other op key) = go nacm

unfoldable pub rule_list_cb : Nacm → Changes RuleListChange → Nacm × Code
unfolding rule_list_step callback
rule_list_cb nacm cs = callback rule_list_step nacm cs
