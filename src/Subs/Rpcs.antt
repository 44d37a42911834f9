-- ===== src/Subs/Rpcs.antt =====
-- Callbacks of src/netconf_subscribed_notifications.c that end or modify subscriptions:
-- np2srv_rpc_delete_sub_cb, np2srv_rpc_kill_sub_cb, sub_ntf_send_notif_modified, and
-- sub_ntf_config_filters of src/subscribed_notifications.c.
use netopeer.Common.{
  ℕ, suc, zero, ◌==◌, Bool, true, false, List, [], ◌∷◌, Option, none, some, CString, lit, length,
  get_elem?, str_eq, if◌then◌else◌, ◌>>=◌,
}
use netopeer.Sysrepo.{
  Code, sr_ok, sr_err_inval_arg, is_ok, ChangeOp, created, modified, deleted, moved,
}
use netopeer.Time.{Timespec}
use netopeer.Subs.{
  Sub, GivenFilter, no_filter, filter_name, subtree_filter, xpath_filter, SubData, no_data, sub_ntf,
  yang_push, Info, Server, subscription_modified,
}
use netopeer.Subs.Table.{change, sub_ntf_find, sub_ntf_find_next, sub_ntf_send_notif}
use netopeer.Subs.Terminate.{worse, sub_ntf_terminate_sub}

-- tv_sec != 0
abbrev pub is_set : Timespec → Bool
is_set ts = if ts.tv_sec == 0 then false else true

abbrev pub time_if_set : Timespec → Option Timespec
time_if_set ts = if is_set ts then some ts else none

-- sub_ntf_notif_modified_append_data
abbrev pub filter_of : SubData → GivenFilter
filter_of (sub_ntf d) = d.filter
filter_of d = no_filter

-- What NP_IGNORE_RPC says, the ID of the caller's session, and np_get_user_sess of it.
pub record Caller : Type 0 where
  pub ignored : Bool
  pub nc_id : ℕ
  pub user_sess : Code

module _ (server : Server) where
  -- libyang makes the notification.
  unfoldable pub sub_ntf_send_notif_modified : Sub → Info → Code × Info
  sub_ntf_send_notif_modified s t =
      if is_ok (server.session s.nc_id)
      then sub_ntf_send_notif server s.nc_id s.nc_sub_id
          (subscription_modified s.nc_sub_id (time_if_set s.stop_time) (filter_of s.sub_data)) t
      else (server.session s.nc_id, t)

  unfoldable pub modify_all : List ℕ → Option CString → Code → Code
  modify_all [] xp rc = rc
  modify_all (sub_id ∷ ids) xp rc = modify_all ids xp (worse rc (server.modify_xpath sub_id xp))

module _ (server : Server) (others : Info → Info) where
  -- Behind the search: the subscription is terminated for the session of the caller.
  unfoldable pub terminate_found : Caller → Option ℕ → Info → Option (Code × Info)
  terminate_found caller none t = some (sr_err_inval_arg, t)
  terminate_found caller (some i) t =
      if is_ok caller.user_sess
      then sub_ntf_terminate_sub server others i caller.nc_id t
      else some (caller.user_sess, t)

  unfoldable pub np2srv_rpc_delete_sub_cb : Caller → ℕ → Info → Option (Code × Info)
  np2srv_rpc_delete_sub_cb caller nc_sub_id t =
      if caller.ignored
      then some (sr_ok, t)
      else terminate_found caller (sub_ntf_find nc_sub_id caller.nc_id t.subs) t

  unfoldable pub np2srv_rpc_kill_sub_cb : Caller → ℕ → Info → Option (Code × Info)
  np2srv_rpc_kill_sub_cb caller nc_sub_id t =
      if caller.ignored
      then some (sr_ok, t)
      else terminate_found caller (sub_ntf_find nc_sub_id 0 t.subs) t

  -- sub_ntf_stream_filter_match_cb
  abbrev pub has_filter_name : CString → Sub → Bool
  has_filter_name name s = elim s.sub_data [
    | no_data ↦ false
    | yang_push n ↦ false
    | sub_ntf d ↦ elim d.filter [
      | filter_name n ↦ str_eq n name
      | no_filter ↦ false
      | subtree_filter top ↦ false
      | xpath_filter xp ↦ false
    ]
  ]

  abbrev pub set_term_reason : CString → Sub → Sub
  set_term_reason r s = record s { term_reason = r }

  -- SR_OP_DELETED, from behind index `last` on.
  unfoldable pub filter_deleted : ℕ → Option ℕ → CString → Code → Info → Option (Code × Info)
  filter_deleted zero last name rc t = some (rc, t)
  filter_deleted (suc rounds) last name rc t =
      elim (sub_ntf_find_next last (has_filter_name name) t.subs) [
        | none ↦ some (rc, t)
        | some i ↦ do
          s ← get_elem? t.subs i
          elim (is_ok (server.session s.nc_id)) [
            | false ↦ some (server.session s.nc_id, t)
            | true ↦ do
              let u =
                  change (set_term_reason (lit "ietf-subscribed-notifications:filter-unavailable"))
                    i t
              (r, v) ← sub_ntf_terminate_sub server others i s.nc_id u
              filter_deleted rounds (some i) name (worse sr_ok r) v
          ]
      ]

  -- SR_OP_MODIFIED, where the new filter is xp.
  unfoldable pub filter_modified :
      ℕ → Option ℕ → CString → Option CString → Code → Info → Option (Code × Info)
  filter_modified zero last name xp rc t = some (rc, t)
  filter_modified (suc rounds) last name xp rc t =
      elim (sub_ntf_find_next last (has_filter_name name) t.subs) [
        | none ↦ some (rc, t)
        | some i ↦ do
          s ← get_elem? t.subs i
          let (r, u) = sub_ntf_send_notif_modified server s t
          filter_modified rounds (some i) name xp (worse (modify_all server s.sub_ids xp rc) r) u
      ]

  -- What sub_ntf_rpc_filter2xpath gives for the changed filter, whose name is `name`.
  unfoldable pub sub_ntf_config_filters :
      ChangeOp → CString → Code × Option CString → Info → Option (Code × Info)
  sub_ntf_config_filters op name (r, xp) t = elim op [
    | modified ↦
        if is_ok r then filter_modified (length t.subs) none name xp sr_ok t else some (r, t)
    | deleted ↦ filter_deleted (length t.subs) none name sr_ok t
    | created ↦ some (sr_ok, t)
    | moved ↦ some (sr_ok, t)
  ]
