-- ===== src/Nacm/Access.antt =====
-- ncac_allowed_node of src/netconf_acm.c: the access of a user's groups to one node.
pub mod Decision
use netopeer.Common.{
  Bool, true, false, ◌&&◌, ◌||◌, not, List, [], ◌∷◌, Option, none, some, CString, lit, str_eq,
  if◌then◌else◌,
}
use netopeer.Nacm.Types.{
  TargetType, target_rpc, target_notif, target_data, target_any, Oper, op_create, op_read,
  op_update, op_delete, op_exec, has_oper, Rule, RuleList, Nacm, Access, deny, partial_deny,
  partial_permit, permit, NodeType, rpc, notif, Extension, Schema, System, Match, no_match,
  full_match, partial_match,
}
use netopeer.Nacm.Path.{allowed_path}
use netopeer.Nacm.GroupMatch.{rule_group_match}

-- What a rule does to the search: `continue`, `continue` after a partial match, or a match.
pub data Verdict : Type 0 where
  skip partial hit : Verdict

abbrev is_rpc : NodeType → Bool
is_rpc rpc = true
is_rpc _ = false

abbrev is_notif : NodeType → Bool
is_notif notif = true
is_notif _ = false

-- rule->target && (rule->target != node_schema->name), refused
name_verdict : Option CString → CString → Verdict
name_verdict none name = hit
name_verdict (some t) name = if str_eq t name then hit else skip

match_verdict : Match → Verdict
match_verdict no_match = skip
match_verdict full_match = hit
match_verdict partial_match = partial

-- A comparison that has read past the end of the node path gives what the environment says.
path_verdict : System → Option CString → CString → Verdict
unfolding match_verdict
path_verdict sys none path = hit
path_verdict sys (some t) path = elim (allowed_path t path) [
  | none ↦ match_verdict (sys.overrun t path)
  | some m ↦ match_verdict m
]

-- target (rule) type matching
target_verdict : System → TargetType → Option CString → Schema → CString → Verdict
unfolding name_verdict path_verdict
target_verdict sys target_rpc t schema path =
    if is_rpc schema.nodetype then name_verdict t schema.name else skip
target_verdict sys target_notif t schema path =
    if schema.has_parent || not (is_notif schema.nodetype) then skip else name_verdict t schema.name
target_verdict sys target_data t schema path =
    if is_rpc schema.nodetype || is_notif schema.nodetype then skip else path_verdict sys t path
target_verdict sys target_any t schema path = path_verdict sys t path

-- rule->module_name && (rule->module_name != node_schema->module->name), refused
module_verdict : Option CString → CString → Verdict
module_verdict none name = hit
module_verdict (some m) name = if str_eq m name then hit else skip

-- The body of the loop over the rules.
unfoldable pub rule_verdict : System → Schema → CString → Oper → Rule → Verdict
unfolding target_verdict module_verdict
rule_verdict sys schema path oper rule =
    if has_oper rule.operations oper
    then (elim (target_verdict sys rule.target_type rule.target schema path) [
      | skip ↦ skip
      | partial ↦ partial
      | hit ↦ module_verdict rule.module_name schema.module_name
    ])
    else skip

-- partial_access: its bits RULE_PARTIAL_MATCH_PERMIT and RULE_PARTIAL_MATCH_DENY
pub record Partial : Type 0 where
  pub permits : Bool
  pub denies : Bool

-- partial_access |= ...
abbrev pub add_partial : Bool → Partial → Partial
add_partial true p = record p { denies = true }
add_partial false p = record p { permits = true }

-- How the search ends: the action of the rule that matched, if one did, and the partial matches.
pub record Found : Type 0 where
  pub action_deny : Option Bool
  pub partials : Partial

module _ (verdict : Rule → Verdict) where
  -- 7) find matching rules
  unfoldable pub find_rule : List Rule → Partial → Found
  find_rule [] p = record { action_deny = none; partials = p }
  find_rule (rule ∷ rules) p = elim (verdict rule) [
    | skip ↦ find_rule rules p
    | partial ↦ find_rule rules (add_partial rule.action_deny p)
    | hit ↦ record { action_deny = some rule.action_deny; partials = p }
  ]

  -- 6) find matching rule lists
  unfoldable pub find_list : List CString → List RuleList → Partial → Found
  unfolding find_rule
  find_list groups [] p = record { action_deny = none; partials = p }
  find_list groups (rlist ∷ rlists) p = elim (rule_group_match rlist.groups groups) [
    | false ↦ find_list groups rlists p
    | true ↦
        let found = find_rule rlist.rules p in
        let rest = find_list groups rlists found.partials in
        elim found.action_deny [ none ↦ rest | some _ ↦ found ]
  ]

-- oper & (NCAC_OP_CREATE | NCAC_OP_UPDATE | NCAC_OP_DELETE)
abbrev pub is_write : Oper → Bool
is_write op_create = true
is_write op_read = false
is_write op_update = true
is_write op_delete = true
is_write op_exec = false

-- 10) check default-deny-all extension
unfoldable pub extension_denies : Oper → List Extension → Bool
extension_denies oper [] = false
extension_denies oper (e ∷ es) =
    let rest = extension_denies oper es in
    if str_eq e.module_name (lit "ietf-netconf-acm")
      && (str_eq e.name (lit "default-deny-all")
          || (is_write oper && str_eq e.name (lit "default-deny-write")))
    then true
    else rest

-- 12) check defaults
abbrev pub default_deny : Nacm → Oper → Bool
default_deny nacm op_read = nacm.default_read_deny
default_deny nacm op_exec = nacm.default_exec_deny
default_deny nacm _ = nacm.default_write_deny

-- step10
default_access : Nacm → Schema → Oper → Access
default_access nacm schema oper =
    if extension_denies oper schema.extensions || default_deny nacm oper
    then deny
    else partial_permit

-- 8) rule matched, or 9) no matching rule found
found_access : Nacm → Schema → Oper → Option Bool → Access
unfolding default_access
found_access nacm schema oper (some true) = deny
found_access nacm schema oper (some false) = permit
found_access nacm schema oper none = default_access nacm schema oper

-- cleanup
weigh : Partial → Access → Access
weigh p deny = if p.permits then partial_deny else deny
weigh p permit = if p.denies then partial_permit else permit
weigh p partial_deny = partial_deny
weigh p partial_permit = partial_permit

abbrev no_partial : Partial
no_partial = record { permits = false; denies = false }

-- `oper` is not 0, and `node_path` and `node_schema` are those of `node` where that is given.
unfoldable pub allowed_node : System → Nacm → CString → Schema → Oper → List CString → Access
unfolding found_access weigh
allowed_node sys nacm path schema oper [] = weigh no_partial (found_access nacm schema oper none)
allowed_node sys nacm path schema oper (g ∷ gs) =
    let found = find_list (rule_verdict sys schema path oper) (g ∷ gs) nacm.rule_lists no_partial in
    weigh found.partials (found_access nacm schema oper found.action_deny)
