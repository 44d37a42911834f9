-- ===== src/Nacm/Params.antt =====
-- ncac_nacm_params_cb and ncac_oper_cb of src/netconf_acm.c: the scalar parameters and the counters.
pub mod LastSet
use netopeer.Common.{
  ℕ, Bool, true, false, Option, none, some, CString, lit, str_eq, not, if◌then◌else◌,
}
use netopeer.Nacm.Types.{Nacm}
use netopeer.Sysrepo.{
  ChangeOp, created, modified, deleted, moved, Code, sr_ok, sr_err_internal, Changes, Step, go,
  callback,
}

-- A changed child of the nacm container: its schema name, and its value as a boolean and as text.
pub record ParamChange : Type 0 where
  pub op : ChangeOp
  pub name : CString
  pub boolean : Bool
  pub value : CString

-- (op == SR_OP_CREATED) || (op == SR_OP_MODIFIED)
abbrev pub sets : ChangeOp → Bool
sets created = true
sets modified = true
sets deleted = false
sets moved = false

abbrev pub denies : CString → Bool
denies value = not (str_eq value (lit "permit"))

-- By the name of the parameter; `set` says whether the change sets it.
unfoldable pub set_named : CString → Bool → Bool → Bool → Nacm → Nacm
set_named name set boolean deny nacm =
    if str_eq name (lit "enable-nacm")
    then if set then record nacm { enabled = boolean } else nacm
    else if str_eq name (lit "read-default")
    then if set then record nacm { default_read_deny = deny } else nacm
    else if str_eq name (lit "write-default")
    then if set then record nacm { default_write_deny = deny } else nacm
    else if str_eq name (lit "exec-default")
    then if set then record nacm { default_exec_deny = deny } else nacm
    else if str_eq name (lit "enable-external-groups")
    then if set then record nacm { enable_external_groups = boolean } else nacm
    else nacm

unfoldable pub param_step : Nacm → ParamChange → Step Nacm
unfolding set_named
param_step nacm c = go (set_named c.name (sets c.op) c.boolean (denies c.value) nacm)

unfoldable pub nacm_params_cb : Nacm → Changes ParamChange → Nacm × Code
unfolding param_step callback
nacm_params_cb nacm cs = callback param_step nacm cs

-- The leaf that is added, with its number, and the code; `none` is the failed assertion on the path.
-- `added` says whether lyd_new_path succeeds.
unfoldable pub oper_cb : Nacm → CString → Bool → Option (CString × ℕ × Code)
oper_cb nacm path added =
    let code = if added then sr_ok else sr_err_internal in
    if str_eq path (lit "/ietf-netconf-acm:nacm/denied-operations")
    then some (lit "denied-operations", nacm.denied_operations, code)
    else if str_eq path (lit "/ietf-netconf-acm:nacm/denied-data-writes")
    then some (lit "denied-data-writes", nacm.denied_data_writes, code)
    else if str_eq path (lit "/ietf-netconf-acm:nacm/denied-notifications")
    then some (lit "denied-notifications", nacm.denied_notifications, code)
    else none
