-- ===== src/Subs/Modified.antt =====
-- What np2srv_rpc_modify_sub_cb of src/netconf_subscribed_notifications.c and sub_ntf_rpc_modify_sub of
-- src/subscribed_notifications.c tell sysrepo.
use netopeer.Common.{
  ◌≡◌, refl, ap, ◌∙◌, ℕ, ==_iff, true, false, List, [], ◌∷◌, ◌++◌, Option, none, some, CString,
  length, get_elem?, All,
}
use netopeer.Common.StringLaws.{str_eq_refl}
use netopeer.Sysrepo.{Code, sr_ok, is_ok}
use netopeer.Time.{Timespec, np_difftimespec}
use netopeer.Subs.{Sub, type_sub_ntf, Call, Info, Server, stop_time_modified}
use netopeer.Subs.Table.{change, sub_ntf_find, sub_ntf_cb_lock_pass, sub_ntf_cb_lock_clear}
use netopeer.Subs.Rpcs.{is_set, time_if_set, sub_ntf_send_notif_modified}
use netopeer.Subs.Terminated.{get-at, change-at}
use netopeer.Subs.Modify.{
  modify_each, ModifyCall, is_zero, set_filter, update_xpath, update_stop_time, update_known,
  set_stop, finish_modify, update_sub, sub_ntf_rpc_modify_sub, np2srv_rpc_modify_sub_cb,
}

-- The calls for each ID, the last first.
abbrev pub told : (ℕ → Call) → List ℕ → List Call → List Call
told call [] calls = calls
told call (id ∷ ids) calls = told call ids (call id ∷ calls)

-- Where sysrepo accepts each change, each sysrepo subscription is told once, in its order, and the lock
-- is passed to nobody afterwards.
modify_each-told :
    (answer : ℕ → Code) (call : ℕ → Call) (id : ℕ) (ids : List ℕ) (t : Info)
    → All (λ k. answer k ≡ sr_ok) (id ∷ ids)
    → modify_each answer call (id ∷ ids) t
      ≡ some (sr_ok, record t { sub_id_lock = 0; calls = told call (id ∷ ids) t.calls })
unfolding modify_each sub_ntf_cb_lock_pass sub_ntf_cb_lock_clear
modify_each-told answer call id [] t (h, hs) =
    let q = (==_iff id id).1 refl in rw (modify_each, sub_ntf_cb_lock_clear, q, h)
modify_each-told answer call id (k ∷ ids) t (h, hs) =
    let q = (==_iff id id).1 refl in
    rw (modify_each, sub_ntf_cb_lock_clear, q, h)
      (modify_each-told answer call k ids (record t { sub_id_lock = 0; calls = call id ∷ t.calls })
        hs)

to_update_sub :
    (server : Server) (m : ModifyCall) (i : ℕ) (t : Info) (x : Option CString)
    → m.user_sess ≡ sr_ok
    → m.has_datastore ≡ false
    → m.xpath ≡ (sr_ok, x)
    → sub_ntf_rpc_modify_sub server m i t ≡ update_sub server m i t
unfolding sub_ntf_rpc_modify_sub
to_update_sub server m i t x user d xp =
    let ok : is_ok m.xpath.0 ≡ true = ap (λ p. is_ok p.0) xp in
    let u : is_ok m.user_sess ≡ true = ap is_ok user in rw (sub_ntf_rpc_modify_sub, u, d, ok)

-- The type-specific part: the RPC gives the filter that the subscription has and no stop time, and sysrepo has a stop time
-- for it of a millisecond or more: the stop time in sysrepo is cleared for each of the sysrepo
-- subscriptions, while the subscription's own stop time stays.
update_without_stop :
    (server : Server) (m : ModifyCall) (b : List Sub) (s : Sub) (a : List Sub) (x : ℕ)
    (ids : List ℕ) (c : CString) (cur_stop : Timespec) (t : Info)
    → m.user_sess ≡ sr_ok
    → m.has_datastore ≡ false
    → m.xpath ≡ (sr_ok, some c)
    → is_set m.stop ≡ false
    → is_zero (np_difftimespec cur_stop m.stop) ≡ false
    → t.subs ≡ b ++ s ∷ a
    → s.sub_ids ≡ x ∷ ids
    → server.sub_info x ≡ (sr_ok, some c, cur_stop)
    → All (λ id. server.modify_stop_time id none ≡ sr_ok) (x ∷ ids)
    → (u : Info) × (sub_ntf_rpc_modify_sub server m (length b) t ≡ some (sr_ok, u))
      × (u.subs ≡ b ++ record s { sub_data = set_filter m.filter s.sub_data } ∷ a)
      × (u.calls ≡ told (λ id. stop_time_modified id none) (x ∷ ids) t.calls)
unfolding sub_ntf_rpc_modify_sub update_sub update_known update_xpath update_stop_time
update_without_stop server m b s a x ids c cur_stop t user d xp off z e i info ok =
    let i0 = length b in
    let at_i : get_elem? t.subs i0 ≡ some s = rw e (get-at b s a) in
    let first : get_elem? s.sub_ids 0 ≡ some x = rw i refl in
    let x_c : m.xpath.1 ≡ some c = ap (λ p. p.1) xp in
    let j0 : is_ok (server.sub_info x).0 ≡ true = ap (λ p. is_ok p.0) info in
    let j1 : (server.sub_info x).1 ≡ some c = ap (λ p. p.1) info in
    let j2 : (server.sub_info x).2 ≡ cur_stop = ap (λ p. p.2) info in
    let same = str_eq_refl c in
    let none_set : time_if_set m.stop ≡ none = rw off in
    let u = record t {
      sub_id_lock = 0;
      calls = told (λ id. stop_time_modified id none) (x ∷ ids) t.calls;
    } in
    let each =
      modify_each-told (λ id. server.modify_stop_time id none) (λ id. stop_time_modified id none) x
        ids t ok in
    let f = λ (y : Sub). record y { sub_data = set_filter m.filter y.sub_data } in
    (
      change f i0 u,
      to_update_sub server m i0 t (some c) user d xp
          ∙ rw (
            update_sub, at_i, first, update_known, j0, j1, j2, x_c, same, update_xpath,
            update_stop_time, z, none_set, i, each,
          ),
      rw e (change-at f b s a),
      refl,
    )

to_finish_modify :
    (server : Server) (m : ModifyCall) (i : ℕ) (s : Sub) (t u : Info)
    → m.ignored ≡ false
    → sub_ntf_find m.nc_sub_id m.nc_id t.subs ≡ some i
    → get_elem? t.subs i ≡ some s
    → s.type_of ≡ type_sub_ntf
    → sub_ntf_rpc_modify_sub server m i t ≡ some (sr_ok, u)
    → np2srv_rpc_modify_sub_cb server m t ≡ finish_modify server m i u
unfolding np2srv_rpc_modify_sub_cb finish_modify
to_finish_modify server m i s t u g f at y updated =
    rw (np2srv_rpc_modify_sub_cb, g, f, at, y, updated)

finish_modify-eq :
    (server : Server) (m : ModifyCall) (i : ℕ) (kept : Sub) (u : Info)
    → get_elem? (change (set_stop server m.stop) i u).subs i ≡ some kept
    → finish_modify server m i u
      ≡ some (sub_ntf_send_notif_modified server kept (change (set_stop server m.stop) i u))
unfolding finish_modify
finish_modify-eq server m i kept u at = rw (finish_modify, at)

-- A modify-subscription of a subscriber gives the filter that the subscription has and no stop time, and
-- sysrepo has a stop time for it that differs by a millisecond or more and accepts each change: the
-- stop time in sysrepo is cleared for each of the sysrepo subscriptions, while the subscription keeps
-- its own stop time, which subscription-modified is then sent with.
pub modify_without_stop :
    (server : Server) (m : ModifyCall) (b : List Sub) (s : Sub) (a : List Sub) (x : ℕ)
    (ids : List ℕ) (c : CString) (cur_stop : Timespec) (t : Info)
    → m.ignored ≡ false
    → m.user_sess ≡ sr_ok
    → m.has_datastore ≡ false
    → m.xpath ≡ (sr_ok, some c)
    → is_set m.stop ≡ false
    → is_zero (np_difftimespec cur_stop m.stop) ≡ false
    → t.subs ≡ b ++ s ∷ a
    → sub_ntf_find m.nc_sub_id m.nc_id t.subs ≡ some (length b)
    → s.type_of ≡ type_sub_ntf
    → s.sub_ids ≡ x ∷ ids
    → server.sub_info x ≡ (sr_ok, some c, cur_stop)
    → All (λ id. server.modify_stop_time id none ≡ sr_ok) (x ∷ ids)
    → let kept = record s { sub_data = set_filter m.filter s.sub_data } in
      (u : Info) × (np2srv_rpc_modify_sub_cb server m t
        ≡ some (sub_ntf_send_notif_modified server kept u))
      × (u.subs ≡ b ++ kept ∷ a)
      × (u.calls ≡ told (λ id. stop_time_modified id none) (x ∷ ids) t.calls)
modify_without_stop server m b s a x ids c cur_stop t g user d xp off z e f y i info ok =
    let n = length b in
    let kept = record s { sub_data = set_filter m.filter s.sub_data } in
    let at_n : get_elem? t.subs n ≡ some s = rw e (get-at b s a) in
    let (u, updated, subs, calls) =
      update_without_stop server m b s a x ids c cur_stop t user d xp off z e i info ok in
    let same : set_stop server m.stop kept ≡ kept = rw off in
    let v = change (set_stop server m.stop) n u in
    let v_subs : v.subs ≡ b ++ kept ∷ a =
      rw subs (change-at (set_stop server m.stop) b kept a) ∙ ap (λ (k : Sub). b ++ k ∷ a) same in
    let at_v : get_elem? v.subs n ≡ some kept = ap (λ l. get_elem? l n) v_subs ∙ get-at b kept a in
    (
      v,
      to_finish_modify server m n s t u g f at_n y updated
          ∙ finish_modify-eq server m n kept u at_v,
      v_subs,
      calls,
    )
