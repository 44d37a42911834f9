-- ===== src/Nacm/Users.antt =====
-- The user checks of src/netconf_acm.c: ncac_allowed_tree and ncac_collect_groups.
pub mod Members
pub mod Collected
use netopeer.Common.{
  ℕ, ◌==◌, Bool, true, false, ◌&&◌, ◌||◌, not, List, [], ◌∷◌, Option, none, some, CString, lit,
  str_eq, if◌then◌else◌,
}
use netopeer.Nacm.Types.{
  Group, Nacm, NodeType, rpc, notif, Schema, Passwd, pw_entry, pw_missing, pw_error, System,
}
use netopeer.Nacm.StrArr.{sort_add}

-- ncac_getpwnam gives what getpwnam_r does: an entry (0), no user (1) or an error (-1).
abbrev pub is_recovery : System → CString → Bool
is_recovery sys user = elim (sys.getpwnam user) [
  | pw_entry uid gid ↦ uid == sys.recovery_uid
  | pw_missing ↦ false
  | pw_error ↦ false
]

-- 3) and 4): what is allowed to everybody
pub always_allowed : NodeType → CString → CString → Bool
always_allowed rpc name module_name =
    (str_eq name (lit "close-session") && str_eq module_name (lit "ietf-netconf"))
    || ((str_eq name (lit "get") || str_eq name (lit "get-config"))
        && str_eq module_name (lit "ietf-netconf"))
    || (str_eq name (lit "get-data") && str_eq module_name (lit "ietf-netconf-nmda"))
always_allowed notif name module_name = str_eq module_name (lit "nc-notifications")
always_allowed _ name module_name = false

unfoldable pub allowed_tree : System → Nacm → Schema → CString → Bool
unfolding always_allowed
allowed_tree sys nacm root user =
    if not nacm.enabled
    then true
    else if is_recovery sys user
    then true
    else always_allowed root.nodetype root.name root.module_name

-- One group: its name is added for each of its users that is the user.
join_group : CString → CString → List CString → List CString → List CString
join_group user name [] groups = groups
join_group user name (u ∷ us) groups =
    join_group user name us (if str_eq u user then sort_add false name groups else groups)

-- collect NACM groups
collect_nacm : CString → List Group → List CString → List CString
unfolding join_group
collect_nacm user [] groups = groups
collect_nacm user (g ∷ gs) groups = collect_nacm user gs (join_group user g.name g.users groups)

-- add all GIDs group names
add_gids : System → List ℕ → List CString → Option (List CString)
add_gids sys [] groups = some groups
add_gids sys (gid ∷ gids) groups = elim (sys.getgrgid gid) [
  | none ↦ none
  | some name ↦ add_gids sys gids (sort_add true name groups)
]

-- collect system groups
collect_system : System → Nacm → CString → List CString → Option (List CString)
unfolding add_gids
collect_system sys nacm user groups =
    if nacm.enable_external_groups
    then (elim (sys.getpwnam user) [
      | pw_missing ↦ some groups
      | pw_error ↦ none
      | pw_entry uid gid ↦ elim (sys.getgrouplist user gid) [
        | none ↦ none
        | some gids ↦ add_gids sys gids groups
      ]
    ])
    else some groups

-- `none` is the result -1.
unfoldable pub collect_groups : System → Nacm → CString → Option (List CString)
unfolding collect_nacm collect_system
collect_groups sys nacm user = collect_system sys nacm user (collect_nacm user nacm.groups [])
