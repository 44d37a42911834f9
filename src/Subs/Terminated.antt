-- ===== src/Subs/Terminated.antt =====
-- What sub_ntf_terminate_sub of src/netconf_subscribed_notifications.c removes.
use netopeer.Common.{
  ◌≡◌, refl, ◌∙◌, ℕ, ◌==◌, ==_iff, ◌||◌, Bool, true, false, List, [], ◌∷◌, ◌++◌, some, length,
  get_elem?, All, arith, if◌then◌else◌,
}
use netopeer.Sysrepo.{Code, sr_ok}
use netopeer.Subs.{
  Sub, SubType, dec_notif_status, type_sub_ntf, type_yang_push, Info, Server,
  subscription_terminated, message_error, message_wouldblock, message_sent, Notif, Message,
}
use netopeer.Subs.Table.{
  change_sub, change, sub_ntf_find, sub_ntf_send_notif, message_result, count_denied, count_sent,
}
use netopeer.Subs.Terminate.{
  erase, set_terminating, terminate_async, worse, send_terminated, finish_sub,
}

pub get-at : (b : List Sub) (s : Sub) (a : List Sub) → get_elem? (b ++ s ∷ a) (length b) ≡ some s
get-at [] s a = refl
get-at (x ∷ b) s a = get-at b s a

pub change-at :
    (f : Sub → Sub) (b : List Sub) (s : Sub) (a : List Sub)
    → change_sub f (length b) (b ++ s ∷ a) ≡ b ++ f s ∷ a
change-at f [] s a = refl
change-at f (x ∷ b) s a = rw (change-at f b s a)

pub erase-at : (b : List Sub) (s : Sub) (a : List Sub) → erase (length b) (b ++ s ∷ a) ≡ b ++ a
erase-at [] s a = refl
erase-at (x ∷ b) s a = rw (erase-at b s a)

-- No subscription has this ID.
abbrev pub HaveNot : ℕ → List Sub → Type 0
HaveNot id subs = All (λ s. (s.nc_sub_id == id) ≡ false) subs

pub find-at :
    (nc : ℕ) (b : List Sub) (s : Sub) (a : List Sub)
    → HaveNot s.nc_sub_id b
    → (nc == 0 || s.nc_id == nc) ≡ true
    → sub_ntf_find s.nc_sub_id nc (b ++ s ∷ a) ≡ some (length b)
unfolding sub_ntf_find
find-at nc [] s a h e = ground (arith, e, (==_iff s.nc_sub_id s.nc_sub_id).1 refl)
find-at nc (x ∷ b) s a h e = ground (arith, h.0, find-at nc b s a h.1 e)

pub is_own : (n : ℕ) → (n == 0 || n == n) ≡ true
is_own n = ground (arith, (==_iff n n).1 refl)

-- Sending a notification of a subscription changes counters of that subscription, and no other.
abbrev pub Same : Info → Info → Type 0
Same t u = (u.sub_id_lock ≡ t.sub_id_lock) × (u.new_nc_sub_id ≡ t.new_nc_sub_id)

send_notif-at :
    (server : Server) (ntf : Notif) (b : List Sub) (s : Sub) (a : List Sub) (t : Info)
    → t.subs ≡ b ++ s ∷ a
    → HaveNot s.nc_sub_id b
    → (r : Sub) × ((sub_ntf_send_notif server s.nc_id s.nc_sub_id ntf t).1.subs ≡ b ++ r ∷ a)
      × Same t (sub_ntf_send_notif server s.nc_id s.nc_sub_id ntf t).1
unfolding sub_ntf_send_notif
send_notif-at server ntf b s a t e h =
    rw (sub_ntf_send_notif, e, find-at s.nc_id b s a h (is_own s.nc_id))
      (answered (server.denied s.nc_id ntf) (server.send s.nc_id ntf))
  where
    changed : (f : Sub → Sub) → change_sub f (length b) t.subs ≡ b ++ f s ∷ a
    changed f = rw e (change-at f b s a)

    answered :
        (d : Bool) (m : Message)
        → let v =
            (if d
              then (sr_ok, change count_denied (length b) t)
              else message_result s.nc_id ntf (length b) t m).1 in
          (r : Sub) × (v.subs ≡ b ++ r ∷ a) × Same t v
    answered true m = (count_denied s, changed count_denied, (refl, refl))
    answered false message_error = (s, e, (refl, refl))
    answered false message_wouldblock = (s, e, (refl, refl))
    answered false message_sent = (count_sent s, changed count_sent, (refl, refl))

pub async-subs :
    (k : SubType) (id : ℕ) (t : Info)
    → ((terminate_async k id t).subs ≡ t.subs) × Same t (terminate_async k id t)
async-subs type_sub_ntf id t = (refl, (refl, refl))
async-subs type_yang_push id t = (refl, (refl, refl))

pub send_terminated-at :
    (server : Server) (b : List Sub) (s : Sub) (a : List Sub) (t : Info)
    → t.subs ≡ b ++ s ∷ a
    → HaveNot s.nc_sub_id b
    → let v = (send_terminated server s s.nc_id t).1 in (r : Sub) × (v.subs ≡ b ++ r ∷ a) × Same t v
unfolding send_terminated
send_terminated-at server b s a t e h = by_status (server.running s.nc_id)
  where
    by_status :
        (running : Bool)
        → let v =
            (if running
              then sub_ntf_send_notif server s.nc_id s.nc_sub_id
                  (subscription_terminated s.nc_sub_id s.term_reason)
                  t
              else (sr_ok, t)).1 in
          (r : Sub) × (v.subs ≡ b ++ r ∷ a) × Same t v
    by_status true =
        send_notif-at server (subscription_terminated s.nc_sub_id s.term_reason) b s a t e h
    by_status false = (s, e, (refl, refl))

module _ (server : Server) (others : Info → Info) (quiet : (t : Info) → others t ≡ t) where
  -- With no other thread in between, the subscription at the index is removed, and all others stay.
  pub finish_sub-at :
      (b : List Sub) (s : Sub) (a : List Sub) (rc : Code) (t : Info)
      → t.subs ≡ b ++ s ∷ a
      → HaveNot s.nc_sub_id b
      → (r : Code) × (u : Info) × (finish_sub server others (length b) s.nc_id rc t ≡ some (r, u))
        × (u.subs ≡ b ++ a)
        × Same t u
  unfolding finish_sub send_terminated
  finish_sub-at b s a rc t e h =
      let k = async-subs s.type_of s.nc_sub_id t in
      let t1 = change set_terminating (length b) (terminate_async s.type_of s.nc_sub_id t) in
      let s1 = set_terminating s in
      let e1 : t1.subs ≡ b ++ s1 ∷ a = rw (k.0, e) (change-at set_terminating b s a) in
      let (x, e2, same) = send_terminated-at server b s1 a t1 e1 h in
      let w = (send_terminated server s1 s.nc_id t1).1 in
      let g : get_elem? t.subs (length b) ≡ some s = rw e (get-at b s a) in
      let g1 : get_elem? t1.subs (length b) ≡ some s1 = rw e1 (get-at b s1 a) in
      (
        worse rc (send_terminated server s1 s.nc_id t1).0,
        record w { subs = erase (length b) w.subs; calls = dec_notif_status s.nc_id ∷ w.calls },
        rw (finish_sub, g, quiet t1, g1),
        rw e2 (erase-at b x a),
        (same.0 ∙ k.1.0, same.1 ∙ k.1.1),
      )
