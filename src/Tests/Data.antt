-- ===== src/Tests/Data.antt =====
-- A small configuration: the group "o" of the user "a" may read below /i:p/q, and not below /i:p/q/s.
use netopeer.Common.{Bool, true, false, [], ◌∷◌, none, some, CString, str_eq, if◌then◌else◌}
use netopeer.Nacm.Types.{
  target_data, no_operations, Rule, RuleList, Nacm, NodeType, container, leaf, Schema, NodeInfo,
  pw_entry, System, no_match,
}
use netopeer.Nacm.Events.{initial}

abbrev pub a : CString
a = b'a' ∷ []

abbrev pub b : CString
b = b'b' ∷ []

abbrev pub o : CString
o = b'o' ∷ []

abbrev pub z : CString
z = b'z' ∷ []

-- The users have the UID 1000, but "z" has 0; the system has one group, "b".
abbrev pub sys : System
sys = record {
  getpwnam = λ user. pw_entry (if str_eq user (b'z' ∷ []) then 0 else 1000) 100;
  getgrouplist = λ user gid. some (gid ∷ []);
  getgrgid = λ gid. some (b'b' ∷ []);
  recovery_uid = 0;
  overrun = λ rule path. no_match;
}

-- The same system without names for its groups.
abbrev pub broken_sys : System
broken_sys = record sys { getgrgid = λ gid. none }

abbrev pub path_q : CString
path_q = b'/' ∷ b'q' ∷ []

abbrev pub path_qs : CString
path_qs = b'/' ∷ b'q' ∷ b'/' ∷ b's' ∷ []

abbrev pub read_rule : Bool → CString → Rule
read_rule refuse path = record {
  name = a;
  module_name = none;
  target = some path;
  target_type = target_data;
  operations = record no_operations { read = true };
  action_deny = refuse;
  comment = none;
}

abbrev pub write_rule : Rule
write_rule = record {
  name = b;
  module_name = none;
  target = some path_q;
  target_type = target_data;
  operations = record no_operations { update = true };
  action_deny = true;
  comment = none;
}

abbrev pub operators : RuleList
operators = record {
  name = o;
  groups = o ∷ [];
  rules = read_rule true path_qs ∷ read_rule false path_q ∷ write_rule ∷ [];
}

abbrev pub nacm : Nacm
nacm = record initial {
  enabled = true;
  default_read_deny = true;
  groups = record { name = o; users = a ∷ [] } ∷ [];
  rule_lists = operators ∷ [];
}

abbrev pub schema_of : NodeType → Schema
schema_of t = record {
  nodetype = t;
  name = b;
  module_name = b;
  has_parent = false;
  is_key = false;
  extensions = [];
}

abbrev pub node_at : NodeType → CString → NodeInfo
node_at t path = record { schema = schema_of t; path = path; operation = none }

abbrev pub q_node : NodeInfo
q_node = node_at container path_q

abbrev pub s_node : NodeInfo
s_node = node_at leaf path_qs
