-- ===== src/Tests/Config.antt =====
-- The callbacks that change the configuration.
use netopeer.Common.{
  ◌≢◌, ◌⊎◌, ◌≡◌, refl, false, List, [], ◌∷◌, CString, lit, strcmp, str_eq, strn_eq, starts_with,
}
use netopeer.Nacm.Types.{RuleList, Nacm}
use netopeer.Nacm.StrArr.{sort_add}
use netopeer.Nacm.GroupMatch.{rule_group_match}
use netopeer.Nacm.Users.{collect_groups}
use netopeer.Nacm.Users.Collected.{memberships}
use netopeer.Nacm.Params.{ParamChange, nacm_params_cb}
use netopeer.Nacm.Params.LastSet.{read_default, param_field, last_set, nacm_params_cb-last_set}
use netopeer.Nacm.Groups.{GroupChange, on_user, group_cb}
use netopeer.Nacm.Groups.Effects.{Effect, group_step-Effect}
use netopeer.Nacm.Ordered.{change_item, place, move_item, delete_item}
use netopeer.Nacm.RuleLists.{RuleListChange, rule_list_cb}
use netopeer.Nacm.Events.{Event, initial, run}
use netopeer.Nacm.Events.Invariant.{IsWellFormed}
use netopeer.Nacm.Events.Reachable.{reachable-IsWellFormed}
use netopeer.Sysrepo.{created, deleted, sr_ok, sr_err_not_found, Changes}
use netopeer.Tests.Data.{a, b, o, z, nacm}

program : Unit {0}
unfolding strcmp str_eq lit strn_eq starts_with sort_add rule_group_match collect_groups
    nacm_params_cb group_cb change_item place move_item delete_item rule_list_cb run
program = tt

abbrev deny_reads : List ParamChange
deny_reads =
    record { op = created; name = lit "read-default"; boolean = false; value = lit "deny" }
    ∷ record { op = deleted; name = lit "read-default"; boolean = false; value = lit "deny" }
    ∷ []

abbrev ends : Changes ParamChange
ends = record { started = sr_ok; changes = deny_reads; ended = sr_err_not_found }

nacm_params_cb-last_set_example :
    let r = nacm_params_cb initial ends in
    ((ends.started ≡ sr_ok)
      × (param_field read_default r.0 ≡ last_set read_default deny_reads false)
      × (ends.ended ≡ sr_err_not_found → r.1 ≡ sr_ok)
      × (ends.ended ≢ sr_err_not_found → r.1 ≡ ends.ended))
    ⊎ ((ends.started ≢ sr_ok) × (r.0 ≡ initial) × (r.1 ≡ ends.started))
nacm_params_cb-last_set_example = nacm_params_cb-last_set read_default initial ends

abbrev with_b : Nacm
with_b = record nacm { groups = record { name = o; users = a ∷ b ∷ [] } ∷ [] }

group_step-Effect_example :
    Effect b nacm.groups
      (on_user created o b)
      (memberships b nacm.groups)
      (memberships b with_b.groups)
unfolding program
group_step-Effect_example = group_step-Effect b nacm with_b (on_user created o b) refl

abbrev named : CString → RuleList
named name = record { name = name; groups = []; rules = [] }

abbrev opening : CString
opening = b'n' ∷ b'=' ∷ []

abbrev closing : CString
closing = b']' ∷ []

-- A rule list with two groups, and a group with a user, are created.
abbrev setup : List Event
setup =
    Event.groups (record {
      started = sr_ok;
      changes = GroupChange.on_group created o ∷ on_user created o a ∷ [];
      ended = sr_err_not_found;
    })
    ∷ Event.rule_lists (record {
      started = sr_ok;
      changes =
          RuleListChange.on_list created z []
          ∷ RuleListChange.on_group created z o
          ∷ RuleListChange.on_group created z b
          ∷ [];
      ended = sr_err_not_found;
    })
    ∷ []

setup_lists :
    (run initial setup).rule_lists ≡ record { name = z; groups = b ∷ o ∷ []; rules = [] } ∷ []
unfolding program
setup_lists = refl

reachable-IsWellFormed_example : IsWellFormed (run initial setup)
reachable-IsWellFormed_example = reachable-IsWellFormed setup
