-- ===== src/Nacm/Events.antt =====
-- The life of the NACM state of src/netconf_acm.c: the callbacks that change the configuration and
-- the checks that count denials, in any order. Each runs under the lock, so they do not overlap.
pub mod Invariant
pub mod Reachable
use netopeer.Common.{ℕ, Bool, false, List, [], ◌∷◌, Option, CString}
use netopeer.Nacm.Types.{Nacm, NodeInfo, Forest, System}
use netopeer.Nacm.Params.{ParamChange, nacm_params_cb}
use netopeer.Nacm.Groups.{GroupChange, group_cb}
use netopeer.Nacm.RuleLists.{RuleListChange, rule_list_cb}
use netopeer.Nacm.Rules.{RuleChange, rule_cb}
use netopeer.Nacm.Operation.{check_operation}
use netopeer.Nacm.Diff.{check_diff}
use netopeer.Sysrepo.{Changes}

-- static struct ncac nacm
abbrev pub initial : Nacm
initial = record {
  enabled = false;
  default_read_deny = false;
  default_write_deny = false;
  default_exec_deny = false;
  enable_external_groups = false;
  denied_operations = 0;
  denied_data_writes = 0;
  denied_notifications = 0;
  groups = [];
  rule_lists = [];
}

pub data Event : Type 0 where
  params : Changes ParamChange → Event
  groups : Changes GroupChange → Event
  rule_lists : Changes RuleListChange → Event
  rules : Changes RuleChange → Event
  operation : System → (user : CString) → (top : NodeInfo) → (child next : Forest) → Event
  diff : System → (user : CString) → (first : NodeInfo) → (child next : Forest) → Event

pub handle : Nacm → Event → Nacm
handle nacm (params cs) = (nacm_params_cb nacm cs).0
handle nacm (groups cs) = (group_cb nacm cs).0
handle nacm (rule_lists cs) = (rule_list_cb nacm cs).0
handle nacm (rules cs) = (rule_cb nacm cs).0
handle nacm (operation sys user top child next) = (check_operation sys nacm user top child next).0
handle nacm (diff sys user first child next) = (check_diff sys nacm user first child next).0

unfoldable pub run : Nacm → List Event → Nacm
unfolding handle
run nacm [] = nacm
run nacm (e ∷ es) = run (handle nacm e) es
