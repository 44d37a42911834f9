-- ===== src/Subs/Skipped.antt =====
-- Subscriptions that src/netconf_subscribed_notifications.c leaves or takes by mistake.
use netopeer.Common.{
  ◌≡◌, refl, ap, ◌∙◌, ℕ, suc, ◌==◌, ==_iff, true, false, List, [], ◌∷◌, ◌++◌, none, some, length,
  get_elem?,
}
use netopeer.Sysrepo.{sr_ok, sr_err_internal}
use netopeer.Subs.{Sub, dec_notif_status, type_yang_push, CbArg, Info, Server, yang_push_stopped}
use netopeer.Subs.Table.{change, called, sub_ntf_find, sub_ntf_send_notif}
use netopeer.Subs.Terminate.{
  erase, set_terminating, terminate_async, finish_sub, send_terminated, unsubscribe_data,
  sub_ntf_terminate_sub, destroy_from, np2srv_sub_ntf_session_destroy,
}
use netopeer.Subs.Rpcs.{Caller, terminate_found, np2srv_rpc_kill_sub_cb}
use netopeer.Subs.Terminated.{find-at, get-at, change-at, erase-at, HaveNot, async-subs}
use netopeer.Subs.Unsubscribed.{Served, Unsubscribes, terminate_removes}

destroy_done :
    (server : Server) (others : Info → Info) (rounds i ncs : ℕ) (t : Info)
    → get_elem? t.subs i ≡ none
    → destroy_from server others (suc rounds) i ncs t ≡ some t
unfolding destroy_from
destroy_done server others rounds i ncs t g = rw (destroy_from, g)

-- A session ends that has the two subscriptions of the table: the second stays, since the first was
-- removed from before it and the loop goes on one index further.
pub session_destroy_skips :
    (server : Server) (others : Info → Info) (s r : Sub) (arg : CbArg) (x : ℕ) (ids : List ℕ)
    (t : Info)
    → ((u : Info) → others u ≡ u)
    → t.subs ≡ s ∷ r ∷ []
    → s.nc_id ≡ r.nc_id
    → Served s arg
    → s.sub_ids ≡ x ∷ ids
    → Unsubscribes server (x ∷ ids)
    → (u : Info) × (np2srv_sub_ntf_session_destroy server others r.nc_id t ≡ some u)
      × (u.subs ≡ r ∷ [])
unfolding np2srv_sub_ntf_session_destroy destroy_from
session_destroy_skips server others s r arg x ids t quiet e own v i w =
    let (u, f, es, lock, new) =
      terminate_removes server others [] s (r ∷ []) arg x ids r.nc_id t quiet e tt v i w in
    let o : (s.nc_id == r.nc_id) ≡ true = (==_iff s.nc_id r.nc_id).1 own in
    let g : get_elem? t.subs 0 ≡ some s = rw e refl in
    let g1 : get_elem? u.subs 1 ≡ none = rw es refl in
    let n : length t.subs ≡ 2 = ap length e in
    (
      u,
      ap (λ k. destroy_from server others k 0 r.nc_id t) n
          ∙ rw (destroy_from, g, o, f) (destroy_done server others 0 1 r.nc_id u g1),
      es,
    )

next-at :
    (b : List Sub) (s d : Sub) (a : List Sub) → get_elem? (b ++ s ∷ d ∷ a) (suc (length b)) ≡ some d
next-at [] s d a = refl
next-at (x ∷ b) s d a = next-at b s d a

erase_next-at :
    (b : List Sub) (s d : Sub) (a : List Sub) → erase (suc (length b)) (b ++ s ∷ d ∷ a) ≡ b ++ s ∷ a
erase_next-at [] s d a = refl
erase_next-at (x ∷ b) s d a = rw (erase_next-at b s d a)

-- While a termination lets the lock go, another thread removes the first subscription of the table:
-- the one behind the subscription that is terminated is removed in its place, and that one stays,
-- marked as terminating. The session does not run any more.
pub finish_sub_race :
    (server : Server) (others : Info → Info) (c : Sub) (b : List Sub) (s d : Sub) (a : List Sub)
    (ncs : ℕ) (t : Info)
    → ((u : Info) → others u ≡ record u { subs = erase 0 u.subs })
    → t.subs ≡ c ∷ b ++ s ∷ d ∷ a
    → server.running ncs ≡ false
    → (u : Info) × (finish_sub server others (suc (length b)) ncs sr_ok t ≡ some (sr_ok, u))
      × (u.subs ≡ b ++ set_terminating s ∷ a)
unfolding finish_sub send_terminated
finish_sub_race server others c b s d a ncs t race e off =
    let i = suc (length b) in
    let k = async-subs s.type_of s.nc_sub_id t in
    let t1 = change set_terminating i (terminate_async s.type_of s.nc_sub_id t) in
    let s1 = set_terminating s in
    let e1 : t1.subs ≡ (c ∷ b) ++ s1 ∷ d ∷ a =
      rw (k.0, e) (change-at set_terminating (c ∷ b) s (d ∷ a)) in
    let u = record t1 { subs = erase 0 t1.subs } in
    let e2 : u.subs ≡ b ++ s1 ∷ d ∷ a = ap (erase 0) e1 in
    let g : get_elem? t.subs i ≡ some s = rw e (get-at b s (d ∷ a)) in
    let g1 : get_elem? u.subs i ≡ some d = rw e2 (next-at b s1 d a) in
    (
      record u { subs = erase i u.subs; calls = dec_notif_status ncs ∷ u.calls },
      rw (finish_sub, g, race t1, g1, send_terminated, off),
      rw e2 (erase_next-at b s1 d a),
    )

finish_unknown :
    (server : Server) (others : Info → Info) (b : List Sub) (s : Sub) (a : List Sub) (ncs : ℕ)
    (t : Info)
    → ((u : Info) → others u ≡ u)
    → t.subs ≡ b ++ s ∷ a
    → s.type_of ≡ type_yang_push
    → server.running ncs ≡ true
    → sub_ntf_find s.nc_sub_id ncs (b ++ set_terminating s ∷ a) ≡ none
    → finish_sub server others (length b) ncs sr_ok t
      ≡ some (
        sr_err_internal,
        record t {
          subs = b ++ a;
          calls = dec_notif_status ncs ∷ yang_push_stopped s.nc_sub_id ∷ t.calls;
        },
      )
unfolding finish_sub send_terminated sub_ntf_send_notif
finish_unknown server others b s a ncs t quiet e y run none_of =
    let i = length b in
    let k : terminate_async s.type_of s.nc_sub_id t ≡ called (yang_push_stopped s.nc_sub_id) t =
      ap (λ k. terminate_async k s.nc_sub_id t) y in
    let t1 = change set_terminating i (called (yang_push_stopped s.nc_sub_id) t) in
    let s1 = set_terminating s in
    let e1 : t1.subs ≡ b ++ s1 ∷ a = rw e (change-at set_terminating b s a) in
    let g : get_elem? t.subs i ≡ some s = rw e (get-at b s a) in
    let g1 : get_elem? t1.subs i ≡ some s1 = rw e1 (get-at b s1 a) in
    let f : sub_ntf_find s.nc_sub_id ncs t1.subs ≡ none = rw e1 none_of in
    let r : erase i t1.subs ≡ b ++ a = rw e1 (erase-at b s1 a) in
    rw (finish_sub, g, k, quiet t1, g1, send_terminated, run, sub_ntf_send_notif, f, k, quiet t1, r)

-- A yang-push subscription is killed from another session, which is running and has no subscription
-- of its ID: nothing is told to the subscriber, the reply is an error, and the notification count of
-- the caller's session goes down, not that of the subscriber's.
pub kill_yang_push :
    (server : Server) (others : Info → Info) (b : List Sub) (s : Sub) (a : List Sub)
    (caller : Caller) (t : Info)
    → ((u : Info) → others u ≡ u)
    → t.subs ≡ b ++ s ∷ a
    → HaveNot s.nc_sub_id b
    → s.type_of ≡ type_yang_push
    → s.sub_ids ≡ []
    → caller.ignored ≡ false
    → caller.user_sess ≡ sr_ok
    → server.running caller.nc_id ≡ true
    → sub_ntf_find s.nc_sub_id caller.nc_id (b ++ set_terminating s ∷ a) ≡ none
    → np2srv_rpc_kill_sub_cb server others caller s.nc_sub_id t
      ≡ some (
        sr_err_internal,
        record t {
          subs = b ++ a;
          calls = dec_notif_status caller.nc_id ∷ yang_push_stopped s.nc_sub_id ∷ t.calls;
        },
      )
unfolding np2srv_rpc_kill_sub_cb terminate_found sub_ntf_terminate_sub unsubscribe_data
kill_yang_push server others b s a caller t quiet e h y ids g user run none_of =
    let f : sub_ntf_find s.nc_sub_id 0 t.subs ≡ some (length b) = rw e (find-at 0 b s a h refl) in
    let at_i : get_elem? t.subs (length b) ≡ some s = rw e (get-at b s a) in
    let last = finish_unknown server others b s a caller.nc_id t quiet e y run none_of in
    let step : sub_ntf_terminate_sub server others (length b) caller.nc_id t
        ≡ finish_sub server others (length b) caller.nc_id sr_ok t =
      rw (sub_ntf_terminate_sub, at_i, y, ids) in
    rw (np2srv_rpc_kill_sub_cb, g, f, terminate_found, user) (step ∙ last)
