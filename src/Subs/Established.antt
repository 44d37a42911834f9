-- ===== src/Subs/Established.antt =====
-- The table of subscriptions and their IDs after np2srv_rpc_establish_sub_cb of
-- src/netconf_subscribed_notifications.c, and its checks of times.
use netopeer.Common.{
  ◌≡◌, refl, sym, subst, ◌∙◌, ℕ, ◌+◌, ◌<◌, ◌≤◌, ◌==◌, true, false, List, [], ◌∷◌, ◌++◌, some, All,
  All-append, arith, inl, inr, ◌⊎◌, Bool-cases, Option-cases,
}
use netopeer.Sysrepo.{Code, sr_ok, sr_err_ly, sr_err_internal, sr_err_inval_arg, is_ok}
use netopeer.Subs.{
  Sub, SubType, type_sub_ntf, type_yang_push, inc_notif_status, dec_notif_status, Info,
}
use netopeer.Subs.Table.{called, new_sub, sub_ntf_new}
use netopeer.Subs.Terminated.{HaveNot}
use netopeer.Subs.Establish.{
  EstablishCall, Outcome, drop_last, all_unsubscribed, next_id, sub_ntf_rpc_establish_sub,
  establish_data, established, establish_typed, np2srv_rpc_establish_sub_cb, no_such_subscription,
}

drop_last-append : (subs : List Sub) (s : Sub) → drop_last (subs ++ s ∷ []) ≡ some subs
drop_last-append [] s = refl
drop_last-append (x ∷ []) s = refl
drop_last-append (x ∷ y ∷ subs) s = rw (drop_last-append (y ∷ subs) s)

all_unsubscribed-subs :
    (ids : List ℕ) (t : Info)
    → ((all_unsubscribed ids t).subs ≡ t.subs)
      × ((all_unsubscribed ids t).new_nc_sub_id ≡ t.new_nc_sub_id)
all_unsubscribed-subs [] t = (refl, refl)
all_unsubscribed-subs (id ∷ ids) t = all_unsubscribed-subs ids (record t { calls = _ })

-- The table as it was, and an error; or one more subscription behind it, with the next ID, and
-- SR_ERR_OK unless the output could not be made. The counter of IDs does not fall, and a new
-- subscription raises it.
abbrev pub Result : EstablishCall → Info → Code → Info → Type 0
Result c t r u =
    ((u.subs ≡ t.subs) × (is_ok r ≡ false) × (t.new_nc_sub_id ≤ u.new_nc_sub_id))
    ⊎ ((s : Sub) × (u.subs ≡ t.subs ++ s ∷ [])
        × (s.nc_sub_id ≡ next_id t)
        × (u.new_nc_sub_id ≡ t.new_nc_sub_id + 1)
        × ((r ≡ sr_ok) ⊎ (c.output_ok ≡ false)))

-- Filling the data of a subscription keeps its ID.
abbrev pub KeepsId : EstablishCall → Type 0
KeepsId c = (s : Sub) → (c.yang_push s).1.nc_sub_id ≡ s.nc_sub_id

establish_data-id :
    (c : EstablishCall) (k : SubType) (s : Sub)
    → KeepsId c
    → (establish_data c k s).1.nc_sub_id ≡ s.nc_sub_id
unfolding sub_ntf_rpc_establish_sub
establish_data-id c type_yang_push s h = h s
establish_data-id c type_sub_ntf s h = ground arith

established-Result :
    (c : EstablishCall) (o : Outcome) (t u : Info)
    → o.1.nc_sub_id ≡ next_id t
    → u.new_nc_sub_id ≡ t.new_nc_sub_id + 1
    → (r : Code) × (v : Info) × (established c t.subs o u ≡ some (r, v)) × Result c t r v
established-Result c (r, s, dropped) t u i n =
    let w = all_unsubscribed dropped (record u { subs = t.subs ++ s ∷ [] }) in
    let (ws, wn) = all_unsubscribed-subs dropped (record u { subs = t.subs ++ s ∷ [] }) in
    elim (Bool-cases (is_ok r)) [
      | inr e ↦
          let d : drop_last w.subs ≡ some t.subs = rw ws (drop_last-append t.subs s) in
          (
            r,
            called (dec_notif_status c.nc_id) (record w { subs = t.subs }),
            rw (e, d),
            inl (refl, e, omega (arith, wn, n)),
          )
      | inl e ↦ elim (Bool-cases c.output_ok) [
        | inl f ↦ (sr_ok, w, rw (e, f), inr (s, ws, i, wn ∙ n, inl refl))
        | inr f ↦ (
          sr_err_ly,
          called (dec_notif_status c.nc_id) w,
          rw (e, f),
          inr (s, ws, i, wn ∙ n, inr f),
        )
      ]
    ]

callback-typed :
    (c : EstablishCall) (k : SubType) (t : Info)
    → c.ignored ≡ false
    → is_ok c.request.user_sess ≡ true
    → c.encoding_ok ≡ true
    → c.type_of ≡ some k
    → np2srv_rpc_establish_sub_cb c t ≡ establish_typed c k t
unfolding np2srv_rpc_establish_sub_cb
callback-typed c k t g e f y = rw (np2srv_rpc_establish_sub_cb, g, e, f, y)

abbrev next_sub : EstablishCall → SubType → Info → Sub
next_sub c k t = new_sub c.nc_id (next_id t) no_such_subscription c.stop k

typed-established :
    (c : EstablishCall) (k : SubType) (t : Info)
    → c.allocated ≡ true
    → establish_typed c k t
      ≡ established c t.subs
          (establish_data c k (next_sub c k t))
          (record (called (inc_notif_status c.nc_id) t) {
            subs = t.subs ++ next_sub c k t ∷ [];
            new_nc_sub_id = t.new_nc_sub_id + 1;
          })
unfolding sub_ntf_new
typed-established c k t m = rw m

-- An RPC that is not ignored leaves the table as it was and answers an error, or adds one
-- subscription, which has the next ID, behind the others; then it answers SR_ERR_OK unless libyang
-- fails to make the output. Memory is given, and yang-push keeps the ID of the subscription.
pub establish_adds_or_leaves :
    (c : EstablishCall) (t : Info)
    → c.ignored ≡ false
    → c.allocated ≡ true
    → KeepsId c
    → (r : Code) × (u : Info) × (np2srv_rpc_establish_sub_cb c t ≡ some (r, u)) × Result c t r u
unfolding np2srv_rpc_establish_sub_cb sub_ntf_new
establish_adds_or_leaves c t g m h = elim (Bool-cases (is_ok c.request.user_sess)) [
  | inr e ↦
      (c.request.user_sess, t, rw (np2srv_rpc_establish_sub_cb, g, e), inl (refl, e, omega arith))
  | inl e ↦ elim (Bool-cases c.encoding_ok) [
    | inr f ↦ (
      sr_err_internal,
      t,
      rw (np2srv_rpc_establish_sub_cb, g, e, f),
      inl (refl, refl, omega arith),
    )
    | inl f ↦ elim (Option-cases c.type_of) [
      | inl y ↦ (
        sr_err_inval_arg,
        t,
        rw (np2srv_rpc_establish_sub_cb, g, e, f, y),
        inl (refl, refl, omega arith),
      )
      | inr (k, y) ↦
          let s = next_sub c k t in
          let u = record (called (inc_notif_status c.nc_id) t) {
            subs = t.subs ++ s ∷ [];
            new_nc_sub_id = t.new_nc_sub_id + 1;
          } in
          let (r, v, q, w) =
            established-Result c (establish_data c k s) t u (establish_data-id c k s h) refl in
          (r, v, callback-typed c k t g e f y ∙ typed-established c k t m ∙ q, w)
    ]
  ]
]

-- IDs are below the counter, and no two are equal.
abbrev pub Distinct : List Sub → Type 0
Distinct [] = Unit {0}
Distinct (s ∷ subs) = HaveNot s.nc_sub_id subs × Distinct subs

abbrev pub Below : ℕ → List Sub → Type 0
Below n subs = All (λ s. s.nc_sub_id < n) subs

abbrev pub WellNumbered : Info → Type 0
WellNumbered t = Distinct t.subs × Below t.new_nc_sub_id t.subs

Below-mono : (m n : ℕ) (subs : List Sub) → m ≤ n → Below m subs → Below n subs
Below-mono m n [] l h = tt
Below-mono m n (s ∷ subs) l h = (omega (arith, h.0, l), Below-mono m n subs l h.1)

Distinct-append :
    (n : ℕ) (subs : List Sub) (s : Sub)
    → Distinct subs
    → Below n subs
    → s.nc_sub_id ≡ n
    → Distinct (subs ++ s ∷ [])
Distinct-append n [] s d h e = (tt, tt)
Distinct-append n (x ∷ subs) s d h e = (
  All-append (λ r. (r.nc_sub_id == x.nc_sub_id) ≡ false) subs (s ∷ []) d.0
      (ground (arith, h.0, e), tt),
  Distinct-append n subs s d.1 h.1 e,
)

-- One establish-subscription that is not to be ignored, where the table can be reallocated, filling the
-- data of a yang-push subscription keeps its ID and the counter fits into 32 bits, returns, and the
-- IDs of the subscriptions are then distinct and below the counter if they were.
pub establish-WellNumbered :
    (c : EstablishCall) (t : Info)
    → c.ignored ≡ false
    → c.allocated ≡ true
    → KeepsId c
    → t.new_nc_sub_id < 4294967296
    → WellNumbered t
    → (r : Code) × (u : Info) × (np2srv_rpc_establish_sub_cb c t ≡ some (r, u)) × WellNumbered u
establish-WellNumbered c t g m h b w =
    let (r, u, e, q) = establish_adds_or_leaves c t g m h in (r, u, e, keeps r u q)
  where
    keeps : (r : Code) (u : Info) → Result c t r u → WellNumbered u
    keeps r u (inl (e, bad, l)) = (
      subst Distinct (sym e) w.0,
      subst (Below u.new_nc_sub_id) (sym e)
          (Below-mono t.new_nc_sub_id u.new_nc_sub_id t.subs l w.1),
    )
    keeps r u (inr (s, e, i, n, o)) =
        let id : s.nc_sub_id ≡ t.new_nc_sub_id = omega (arith, i, b) in
        (
          subst Distinct (sym e) (Distinct-append t.new_nc_sub_id t.subs s w.0 w.1 id),
          subst (Below u.new_nc_sub_id) (sym e) (
              All-append (λ x. x.nc_sub_id < u.new_nc_sub_id) t.subs (s ∷ [])
                (Below-mono t.new_nc_sub_id u.new_nc_sub_id t.subs (omega (arith, n)) w.1)
                (omega (arith, n, id), tt)),
        )

-- Where realloc gives no memory, the last subscription of the table is lost, if there is one;
-- otherwise the count wraps around.
pub unallocated_loses :
    (c : EstablishCall) (k : SubType) (subs : List Sub) (s : Sub) (t : Info)
    → c.ignored ≡ false
    → is_ok c.request.user_sess ≡ true
    → c.encoding_ok ≡ true
    → c.type_of ≡ some k
    → c.allocated ≡ false
    → t.subs ≡ subs ++ s ∷ []
    → (u : Info) × (np2srv_rpc_establish_sub_cb c t ≡ some (sr_err_internal, u)) × (u.subs ≡ subs)
unfolding np2srv_rpc_establish_sub_cb sub_ntf_new
unallocated_loses c k subs s t g e f y m l =
    let d : drop_last t.subs ≡ some subs = rw l (drop_last-append subs s) in
    (
      record t {
        subs = subs;
        new_nc_sub_id = t.new_nc_sub_id + 1;
        calls = dec_notif_status c.nc_id ∷ inc_notif_status c.nc_id ∷ t.calls;
      },
      rw (np2srv_rpc_establish_sub_cb, g, e, f, y, m, d),
      refl,
    )
