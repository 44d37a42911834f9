-- ===== src/Nacm/Types.antt =====
-- The data of src/netconf_acm.h, and what the checks read of libyang's nodes and of the system.
use netopeer.Common.{ℕ, Bool, true, false, List, Option, CString}

-- NCAC_TARGET_TYPE
pub data TargetType : Type 0 where
  target_rpc target_notif target_data target_any : TargetType

-- One NCAC_OP_* bit.
pub data Oper : Type 0 where
  op_create op_read op_update op_delete op_exec : Oper

-- The bits of a rule's `operations`.
pub record Operations : Type 0 where
  pub create : Bool
  pub read : Bool
  pub update : Bool
  pub delete : Bool
  pub exec : Bool

-- operations & oper
abbrev pub has_oper : Operations → Oper → Bool
has_oper s op_create = s.create
has_oper s op_read = s.read
has_oper s op_update = s.update
has_oper s op_delete = s.delete
has_oper s op_exec = s.exec

abbrev pub no_operations : Operations
no_operations = record {
  create = false;
  read = false;
  update = false;
  delete = false;
  exec = false;
}

-- NCAC_OP_ALL
abbrev pub all_operations : Operations
all_operations = record { create = true; read = true; update = true; delete = true; exec = true }

-- struct ncac_group; its arrays are lists, so a count is a length.
pub record Group : Type 0 where
  pub name : CString
  pub users : List CString

-- struct ncac_rule; a NULL string is `none`.
pub record Rule : Type 0 where
  pub name : CString
  pub module_name : Option CString
  pub target : Option CString
  pub target_type : TargetType
  pub operations : Operations
  pub action_deny : Bool
  pub comment : Option CString

-- struct ncac_rule_list; the linked lists of rules and of rule lists are lists in their order.
pub record RuleList : Type 0 where
  pub name : CString
  pub groups : List CString
  pub rules : List Rule

-- struct ncac; the lock is left out, since each function holds it from its first access to its last.
pub record Nacm : Type 0 where
  pub enabled : Bool
  pub default_read_deny : Bool
  pub default_write_deny : Bool
  pub default_exec_deny : Bool
  pub enable_external_groups : Bool
  pub denied_operations : ℕ
  pub denied_data_writes : ℕ
  pub denied_notifications : ℕ
  pub groups : List Group
  pub rule_lists : List RuleList

-- enum ncac_access
pub data Access : Type 0 where
  deny partial_deny partial_permit permit : Access

-- NCAC_ACCESS_IS_NODE_PERMIT
abbrev pub is_node_permit : Access → Bool
is_node_permit deny = false
is_node_permit partial_deny = false
is_node_permit partial_permit = true
is_node_permit permit = true

-- The LYS_* node types that the checks tell apart.
pub data NodeType : Type 0 where
  container list leaf leaf_list anydata rpc action notif other : NodeType

-- An extension instance of a schema node: the module and name of its definition.
pub record Extension : Type 0 where
  pub module_name : CString
  pub name : CString

-- What is read of a struct lysc_node.
pub record Schema : Type 0 where
  pub nodetype : NodeType
  pub name : CString
  pub module_name : CString
  pub has_parent : Bool
  pub is_key : Bool
  pub extensions : List Extension

-- What is read of a struct lyd_node: `path` is what lyd_path gives, `operation` the value of its
-- metadata of that name, if there is one.
pub record NodeInfo : Type 0 where
  pub schema : Schema
  pub path : CString
  pub operation : Option CString

-- Data trees by the pointers of lyd_node: a node, its first child and its next sibling.
pub data Forest : Type 0 where
  nil : Forest
  node : NodeInfo → (child : Forest) → (next : Forest) → Forest

-- The results 0, 1 and 2 of ncac_allowed_path.
pub data Match : Type 0 where
  no_match full_match partial_match : Match

-- getpwnam_r: an entry with its UID and GID, no such user, or an error.
pub data Passwd : Type 0 where
  pw_entry : ℕ → ℕ → Passwd
  pw_missing pw_error : Passwd

-- What the checks take from outside: the system's user database (`none` is a failure), the configured
-- NP2SRV_NACM_RECOVERY_UID, and what a path comparison gives that reads past the end of a node path,
-- which C leaves undefined.
pub record System : Type 0 where
  pub getpwnam : CString → Passwd
  pub getgrouplist : CString → ℕ → Option (List ℕ)
  pub getgrgid : ℕ → Option CString
  pub recovery_uid : ℕ
  pub overrun : CString → CString → Match
