-- ===== src/Subs/Modify.antt =====
-- Modifying a subscription: np2srv_rpc_modify_sub_cb of src/netconf_subscribed_notifications.c and
-- sub_ntf_rpc_modify_sub of src/subscribed_notifications.c. `none` is a read of a NULL string or past
-- the end of sub_ids, or a failed assertion.
use netopeer.Common.{
  ℕ, ◌==◌, Bool, true, false, not, List, [], ◌∷◌, Option, none, some, CString, get_elem?, str_eq,
  if◌then◌else◌, ◌>>=◌,
}
use netopeer.Common.Ints.{ℤ, pos, negsuc}
use netopeer.Sysrepo.{Code, sr_ok, sr_err_inval_arg, is_ok}
use netopeer.Time.{Timespec, np_difftimespec}
use netopeer.Subs.{
  Sub, SubType, type_sub_ntf, type_yang_push, GivenFilter, SubData, sub_ntf, Call, Info, Server,
  xpath_modified, stop_time_modified,
}
use netopeer.Filter.{sr_err_unsupported}
use netopeer.Subs.Table.{change, called, sub_ntf_find, sub_ntf_cb_lock_pass, sub_ntf_cb_lock_clear}
use netopeer.Subs.Rpcs.{is_set, time_if_set, sub_ntf_send_notif_modified}

-- A loop over sub_ids that passes the lock to each, up to the first error.
unfoldable pub modify_each : (ℕ → Code) → (ℕ → Call) → List ℕ → Info → Option (Code × Info)
modify_each answer call [] t = some (sr_ok, t)
modify_each answer call (id ∷ ids) t = do
  u ← sub_ntf_cb_lock_clear id (called (call id) (sub_ntf_cb_lock_pass id t))
  if is_ok (answer id) then modify_each answer call ids u else some (answer id, u)

-- !cur_xp || strcmp(cur_xp, xp)
abbrev pub xpath_differs : Option CString → Option CString → Option Bool
xpath_differs none xp = some true
xpath_differs (some c) none = none
xpath_differs (some c) (some x) = some (not (str_eq c x))

abbrev pub is_zero : ℤ → Bool
is_zero (pos n) = n == 0
is_zero (negsuc n) = false

abbrev pub set_filter : GivenFilter → SubData → SubData
set_filter f (sub_ntf d) = sub_ntf (record d { filter = f })
set_filter f d = d

-- What the RPC gives, and NP_IGNORE_RPC, the caller and its user session; `xpath` is what
-- sub_ntf_rpc_filter2xpath gives for the filter. Modifying yang-push data is `yang_push`.
pub record ModifyCall : Type 0 where
  pub ignored : Bool
  pub nc_id : ℕ
  pub nc_sub_id : ℕ
  pub stop : Timespec
  pub user_sess : Code
  pub has_datastore : Bool
  pub filter : GivenFilter
  pub xpath : Code × Option CString
  pub yang_push : ℕ → Info → Code × Info

module _ (server : Server) where
  -- the two updates in sysrepo, of a subscription whose stop time there is cur_stop
  unfoldable pub update_xpath : Bool → ModifyCall → List ℕ → Info → Option (Code × Info)
  update_xpath false m ids t = some (sr_ok, t)
  update_xpath true m ids t =
      modify_each (λ id. server.modify_xpath id m.xpath.1) (λ id. xpath_modified id m.xpath.1) ids t

  unfoldable pub update_stop_time : Timespec → ModifyCall → List ℕ → Info → Option (Code × Info)
  update_stop_time cur_stop m ids t =
      if is_zero (np_difftimespec cur_stop m.stop)
      then some (sr_ok, t)
      else modify_each (λ id. server.modify_stop_time id (time_if_set m.stop))
          (λ id. stop_time_modified id (time_if_set m.stop)) ids t

  abbrev pub then_ok : Code × Info → (Info → Option (Code × Info)) → Option (Code × Info)
  then_ok (r, t) next = if is_ok r then next t else some (r, t)

  -- behind sr_notif_sub_get_info, of subscription i
  unfoldable pub update_known :
      ModifyCall → ℕ → List ℕ → Code × Option CString × Timespec → Info → Option (Code × Info)
  update_known m i ids (r, cur_xp, cur_stop) t = elim (is_ok r) [
    | false ↦ some (r, t)
    | true ↦ do
      differs ← xpath_differs cur_xp m.xpath.1
      a ← update_xpath differs m ids t
      then_ok a (λ u. update_stop_time cur_stop m ids u >>= λ b. then_ok b (λ v.
          some (sr_ok, change (λ x. record x { sub_data = set_filter m.filter x.sub_data }) i v)))
  ]

  -- from `learn the current filter` on
  unfoldable pub update_sub : ModifyCall → ℕ → Info → Option (Code × Info)
  update_sub m i t = do
    s ← get_elem? t.subs i
    first ← get_elem? s.sub_ids 0
    update_known m i s.sub_ids (server.sub_info first) t

  unfoldable pub sub_ntf_rpc_modify_sub : ModifyCall → ℕ → Info → Option (Code × Info)
  sub_ntf_rpc_modify_sub m i t =
      if is_ok m.user_sess
      then (if m.has_datastore
          then some (sr_err_unsupported, t)
          else (if is_ok m.xpath.0 then update_sub m i t else some (m.xpath.0, t)))
      else some (m.user_sess, t)

  abbrev pub modify_data : ModifyCall → ℕ → SubType → Info → Option (Code × Info)
  modify_data m i type_sub_ntf t = sub_ntf_rpc_modify_sub m i t
  modify_data m i type_yang_push t = some (m.yang_push i t)

  abbrev pub set_stop : Timespec → Sub → Sub
  set_stop stop x = if is_set stop then record x { stop_time = stop } else x

  -- behind the type-specific update
  unfoldable pub finish_modify : ModifyCall → ℕ → Info → Option (Code × Info)
  finish_modify m i u = do
    let v = change (set_stop m.stop) i u
    s ← get_elem? v.subs i
    some (sub_ntf_send_notif_modified server s v)

  unfoldable pub np2srv_rpc_modify_sub_cb : ModifyCall → Info → Option (Code × Info)
  np2srv_rpc_modify_sub_cb m t = elim m.ignored [
    | true ↦ some (sr_ok, t)
    | false ↦ elim (sub_ntf_find m.nc_sub_id m.nc_id t.subs) [
      | none ↦ some (sr_err_inval_arg, t)
      | some i ↦ do
        s ← get_elem? t.subs i
        a ← modify_data m i s.type_of t
        then_ok a (finish_modify m i)
    ]
  ]
