-- ===== src/Subs/Unsubscribed.antt =====
-- sub_ntf_terminate_sub of src/netconf_subscribed_notifications.c for a subscription to notifications:
-- sysrepo calls back for each sysrepo subscription, and the last callback removes the subscription.
use netopeer.Common.{
  ◌≡◌, refl, ℕ, suc, ==_iff, true, false, List, [], ◌∷◌, ◌++◌, some, length, get_elem?, All, arith,
  ◌>>=◌,
}
use netopeer.Sysrepo.{sr_ok}
use netopeer.Subs.{Sub, type_sub_ntf, CbArg, Info, Server, unsubscribed}
use netopeer.Subs.Table.{change, called, sub_ntf_find, sub_ntf_cb_lock_pass, sub_ntf_cb_lock_clear}
use netopeer.Subs.Locks.{found_usable}
use netopeer.Subs.Subscribe.{sub_ntf_del_sr_sub_is_last}
use netopeer.Subs.Terminate.{
  set_ids, cb_arg_of, map_snd, finish_sub, usable_at, ntf_terminated, unsubscribe_first,
  unsubscribe_all, sub_ntf_terminate_sub,
}
use netopeer.Subs.Terminated.{get-at, change-at, HaveNot, find-at, finish_sub-at}

-- A subscription to notifications that is not being terminated, with the argument that its
-- callbacks get.
abbrev pub Served : Sub → CbArg → Type 0
Served s arg =
    (s.type_of ≡ type_sub_ntf)
    × (s.terminating ≡ false)
    × (cb_arg_of s.sub_data ≡ some arg)
    × (arg.ncs ≡ s.nc_id)
    × (arg.nc_sub_id ≡ s.nc_sub_id)

-- sr_unsubscribe_sub succeeds for each ID, and calls back.
abbrev pub Unsubscribes : Server → List ℕ → Type 0
Unsubscribes server ids = All (λ id. server.unsubscribe id ≡ (sr_ok, true)) ids

module _ (server : Server) (others : Info → Info) (quiet : (t : Info) → others t ≡ t) where
  usable-at :
      (b : List Sub) (s : Sub) (a : List Sub) (t : Info)
      → t.subs ≡ b ++ s ∷ a
      → HaveNot s.nc_sub_id b
      → s.terminating ≡ false
      → usable_at server others s.nc_sub_id t ≡ some (length b)
  usable-at b s a t e h k =
      let f = find-at 0 b s a h refl in
      let g : get_elem? t.subs (length b) ≡ some s = rw e (get-at b s a) in
      let f2 : sub_ntf_find s.nc_sub_id 0 t.subs ≡ some (length b) = rw e f in
      let v : found_usable t (some (length b)) ≡ true = ground (arith, g, k) in rw (f2, v)

  first-at :
      (b : List Sub) (s : Sub) (a : List Sub) (arg : CbArg) (x : ℕ) (ids : List ℕ) (t : Info)
      → t.subs ≡ b ++ s ∷ a
      → HaveNot s.nc_sub_id b
      → Served s arg
      → s.sub_ids ≡ x ∷ ids
      → server.unsubscribe x ≡ (sr_ok, true)
      → unsubscribe_first server others (length b) t ≡ (
          ntf_terminated server others x arg (called (unsubscribed x) (sub_ntf_cb_lock_pass x t))
          >>= λ u. sub_ntf_cb_lock_clear x u >>= λ v. some (sr_ok, v))
  unfolding unsubscribe_first
  first-at b s a arg x ids t e h (k, l, m, n, o) i r =
      let g : get_elem? t.subs (length b) ≡ some s = rw e (get-at b s a) in
      rw (unsubscribe_first, g, i, m, r)

  more-at :
      (b : List Sub) (s : Sub) (a : List Sub) (arg : CbArg) (x y : ℕ) (ids : List ℕ) (t : Info)
      → t.subs ≡ b ++ s ∷ a
      → HaveNot s.nc_sub_id b
      → Served s arg
      → s.sub_ids ≡ x ∷ y ∷ ids
      → ntf_terminated server others x arg t ≡ some (change (set_ids (y ∷ ids)) (length b) t)
  unfolding ntf_terminated sub_ntf_del_sr_sub_is_last
  more-at b s a arg x y ids t e h (k, l, m, n, o) i =
      let g : get_elem? t.subs (length b) ≡ some s = rw e (get-at b s a) in
      let u = usable-at b s a t e h l in
      let q = (==_iff x x).1 refl in rw (ntf_terminated, o, u, g, sub_ntf_del_sr_sub_is_last, i, q)

  last-at :
      (b : List Sub) (s : Sub) (a : List Sub) (arg : CbArg) (x : ℕ) (t : Info)
      → t.subs ≡ b ++ s ∷ a
      → HaveNot s.nc_sub_id b
      → Served s arg
      → s.sub_ids ≡ x ∷ []
      → ntf_terminated server others x arg t
        ≡ map_snd
            (finish_sub server others (length b) s.nc_id sr_ok (change (set_ids []) (length b) t))
  unfolding ntf_terminated sub_ntf_del_sr_sub_is_last
  last-at b s a arg x t e h (k, l, m, n, o) i =
      let g : get_elem? t.subs (length b) ≡ some s = rw e (get-at b s a) in
      let u = usable-at b s a t e h l in
      let q = (==_iff x x).1 refl in
      rw (ntf_terminated, o, u, g, sub_ntf_del_sr_sub_is_last, i, q, n)

  all-at :
      (ids : List ℕ) (x : ℕ) (b : List Sub) (s : Sub) (a : List Sub) (arg : CbArg) (t : Info)
      → t.subs ≡ b ++ s ∷ a
      → HaveNot s.nc_sub_id b
      → Served s arg
      → s.sub_ids ≡ x ∷ ids
      → Unsubscribes server (x ∷ ids)
      → (u : Info) × (unsubscribe_all server others (suc (length ids)) (length b) sr_ok t
          ≡ some (sr_ok, u))
        × (u.subs ≡ b ++ a)
        × (u.sub_id_lock ≡ 0)
        × (u.new_nc_sub_id ≡ t.new_nc_sub_id)
  unfolding unsubscribe_all sub_ntf_cb_lock_clear sub_ntf_cb_lock_pass
  all-at [] x b s a arg t e h v i (r, rs) =
      let p = called (unsubscribed x) (sub_ntf_cb_lock_pass x t) in
      let c = change (set_ids []) (length b) p in
      let (code, w, f, es, same) =
        finish_sub-at server others quiet b (set_ids [] s) a sr_ok c
          (rw e (change-at (set_ids []) b s a)) h in
      let z = first-at b s a arg x [] t e h v i r in
      let y = last-at b s a arg x p e h v i in
      let q = (==_iff x x).1 refl in
      (
        record w { sub_id_lock = 0 },
        rw (unsubscribe_all, z, y, f, sub_ntf_cb_lock_clear, same.0, q),
        es,
        refl,
        same.1,
      )
  all-at (y ∷ ids) x b s a arg t e h v i (r, rs) =
      let p = called (unsubscribed x) (sub_ntf_cb_lock_pass x t) in
      let c = record (change (set_ids (y ∷ ids)) (length b) p) { sub_id_lock = 0 } in
      let z = first-at b s a arg x (y ∷ ids) t e h v i r in
      let m = more-at b s a arg x y ids p e h v i in
      let q = (==_iff x x).1 refl in
      let (u, f, es, lock, new) =
        all-at ids y b (set_ids (y ∷ ids) s) a arg c (rw e (change-at (set_ids (y ∷ ids)) b s a)) h
          v refl rs in
      (u, rw (unsubscribe_all, z, m, sub_ntf_cb_lock_clear, q) f, es, lock, new)

-- A subscription to notifications is removed from the table and every other subscription stays as it
-- was, in its place; no assertion on the passed lock fails, and nobody is passed the lock afterwards.
-- Sysrepo ends each of the sysrepo subscriptions, of which there are some, and no other thread runs
-- in between.
pub terminate_removes :
    (server : Server) (others : Info → Info) (b : List Sub) (s : Sub) (a : List Sub) (arg : CbArg)
    (x : ℕ) (ids : List ℕ) (ncs : ℕ) (t : Info)
    → ((u : Info) → others u ≡ u)
    → t.subs ≡ b ++ s ∷ a
    → HaveNot s.nc_sub_id b
    → Served s arg
    → s.sub_ids ≡ x ∷ ids
    → Unsubscribes server (x ∷ ids)
    → (u : Info) × (sub_ntf_terminate_sub server others (length b) ncs t ≡ some (sr_ok, u))
      × (u.subs ≡ b ++ a)
      × (u.sub_id_lock ≡ 0)
      × (u.new_nc_sub_id ≡ t.new_nc_sub_id)
unfolding sub_ntf_terminate_sub
terminate_removes server others b s a arg x ids ncs t quiet e h v i r =
    let g : get_elem? t.subs (length b) ≡ some s = rw e (get-at b s a) in
    let (u, f, es, lock, new) = all-at server others quiet ids x b s a arg t e h v i r in
    (u, rw (sub_ntf_terminate_sub, g, v.0, i) f, es, lock, new)
